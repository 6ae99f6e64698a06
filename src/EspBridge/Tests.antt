-- ===== src/EspBridge/Tests.antt =====
-- A bridge with one switched port.
use sbc_mcu_dut_controller.Prelude.{
  ℕ, String, true, false, none, some, [], ◌∷◌, ◌≡◌, refl, if◌then◌else◌, ◌==◌,
}
use sbc_mcu_dut_controller.Prelude.Json.{
  Json, bool, text, arr, obj, no_items, item, no_fields, field,
}
use sbc_mcu_dut_controller.EspBridge.Http.{
  Request, hubs_request, device_request, HttpReply, failed, answered, not_switchable, got, raises,
  status_error, response, request, device, device_present, hubs, port_on, port_off, find_port,
  find_hub_port, bridge_power_force, bridge_base_url,
}
use sbc_mcu_dut_controller.EspBridge.Claims.{
  Snapshot, has_evidence, exhaustion_message, describe_channel_exhaustion,
}
use sbc_mcu_dut_controller.EspBridge.Power.{
  port_matches, listed, on, off, observe, await_cycle_state, power_cycle,
}
use sbc_mcu_dut_controller.EspBridge.Evidence.{Evidence, power_cycle-Evidence}

abbrev port_json : String → Json
port_json power = obj (
    field "path" (text "1-1.3")
      (field "power" (text power) (field "enabled" (bool true) no_fields)))

abbrev hubs_json : String → Json
hubs_json power = obj (
    field "hubs"
      (arr (item (obj (field "ports" (arr (item (port_json power) no_items)) no_fields)) no_items))
      no_fields)

-- The port is off at the third request, and the device away at the fourth.
abbrev bridge : Request → ℕ → HttpReply
bridge hubs_request n = answered 200 (some (hubs_json (if n == 2 then "off" else "on")))
bridge (device_request busid) n = if n == 3 then answered 404 none else answered 200 none
bridge r n = answered 200 (some (obj no_fields))

-- A bridge that never answers a listing, and accepts the rest.
abbrev blind : Request → ℕ → HttpReply
blind hubs_request n = failed
blind r n = answered 200 none

abbrev snapshot : ℕ → Snapshot
snapshot events = record {
  exhaustion_events = events;
  last_exhaustion_ms_ago = none;
  last_exhaustion_busid = " 1-1 ";
  estimated_channels_in_use = some 15;
  channels_total = some 16;
  devices =
      record { busid = "1-1"; claimed_endpoints = 2; in_flight = 0 }
      ∷ record { busid = "1-2"; claimed_endpoints = 5; in_flight = 1 }
      ∷ record { busid = "1-3"; claimed_endpoints = 0; in_flight = 0 }
      ∷ [];
}

base_url : bridge_base_url " usbip-a1.local/ " none ≡ some "http://usbip-a1.local"
unfolding bridge_base_url
base_url = refl

forced : bridge_power_force (some " Bridge-Port:Force") ≡ some true
unfolding bridge_power_force
forced = refl

refused_409 : response (answered 409 none) ≡ raises not_switchable
unfolding response status_error
refused_409 = refl

exhausted :
    describe_channel_exhaustion (some (snapshot 1)) (some (snapshot 2)) 120000
    ≡ some
        "bridge USB host channels exhausted while claiming for 1-1 (~15/16 channels held); holders: 1-2 (5 eps, in flight), 1-1 (2 eps) — end another session or power off an unused port, then retry"
unfolding describe_channel_exhaustion has_evidence exhaustion_message
exhausted = refl

cycles : (power_cycle bridge "1-1.3" false 10 30 []).0 ≡ got true
unfolding power_cycle await_cycle_state observe on off port_on port_off hubs device_present device
    request response listed port_matches find_hub_port find_port status_error
cycles = refl

verified_example : Evidence bridge "1-1.3" false
verified_example = power_cycle-Evidence bridge "1-1.3" false 10 30 [] cycles
