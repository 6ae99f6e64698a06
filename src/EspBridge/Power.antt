-- ===== src/EspBridge/Power.antt =====
-- `BridgePortPower` of src/hil_controller/adapters/esp_usbip_bridge.py. A deadline is the number of
-- observations that are made after the first one before it has passed. The progress lines of
-- power_cycle are left out.
use sbc_mcu_dut_controller.Prelude.{
  ℕ, zero, suc, String, Bool, true, false, not, ◌&&◌, Option, none, some, List, if◌then◌else◌,
}
use sbc_mcu_dut_controller.Prelude.Json.{
  Json, text, bool, get_key, is_truthy, is_text, is_bool, or_default,
}
use sbc_mcu_dut_controller.EspBridge.Http.{
  Server, Exec, Result, got, raises, device_present, hubs, port_on, port_off, find_hub_port,
}

-- `value == expected` for a bool that may have raised
abbrev pub answers : Bool → Result Bool → Bool
answers expected (got b) = if expected then b else not b
answers expected (raises e) = false

abbrev pub is_true : Option Json → Bool
is_true (some (bool b)) = b
is_true _ = false

-- `matches` of `_await_cycle_state`
unfoldable pub port_matches : (on : Bool) → Json → Bool
port_matches on port =
    let expected : String = if on then "on" else "off" in
    is_text expected (get_key "power" port)
    && (is_text expected (or_default (get_key "desired" port) (text expected))
        && (not (is_truthy (get_key "pending" port))
            && (not (is_truthy (or_default (get_key "mismatch" port) (bool false)))
                && (is_bool (not on) (or_default (get_key "user_off" port) (bool (not on)))
                    && (if on then is_true (get_key "enabled" port) else true)))))

-- What a hub listing says of the port.
unfoldable pub listed : (on : Bool) (port_path : String) → Result (List Json) → Bool
unfolding port_matches
listed on port_path (raises e) = false
listed on port_path (got hubs) = elim (find_hub_port hubs port_path) [
  | none ↦ false
  | some (hub, port) ↦ port_matches on port
]

module _ (server : Server) (port : String) (force : Bool) where
  -- A 409 is raised again with a longer message.
  unfoldable pub on : Exec (Result Json)
  unfolding port_on
  on t = port_on server port force t

  unfoldable pub off : Exec (Result Json)
  unfolding port_off
  off t = port_off server port force t

  -- An error reads as absent.
  unfoldable pub present : Exec Bool
  unfolding device_present
  present t = let (r, t') = device_present server port t in (answers true r, t')

  unfoldable pub await_presence : (expected : Bool) (polls : ℕ) → Exec Bool
  await_presence expected zero t =
      let (r, t') = device_present server port t in (answers expected r, t')
  await_presence expected (suc polls) t =
      let (r, t') = device_present server port t in
      if answers expected r then (true, t') else await_presence expected polls t'

  -- One round of `_await_cycle_state`: the device is asked for only where the port matches.
  abbrev pub confirmed : Bool → (expected : Bool) → Exec Bool
  confirmed false expected t = (false, t)
  confirmed true expected t = let (r, t') = device_present server port t in (answers expected r, t')

  unfoldable pub observe : (expected : Bool) → Exec Bool
  unfolding hubs device_present listed
  observe expected t = let (r, t') = hubs server t in confirmed (listed expected port r) expected t'

  unfoldable pub await_cycle_state : (expected : Bool) (polls : ℕ) → Exec Bool
  unfolding observe
  await_cycle_state expected zero t = observe expected t
  await_cycle_state expected (suc polls) t =
      let (seen, t') = observe expected t in
      if seen then (true, t') else await_cycle_state expected polls t'

  module _ (off_polls on_polls : ℕ) where
    abbrev pub after_on : (off_verified : Bool) → Result Json → Exec (Result Bool)
    after_on off_verified (raises e) t = (raises e, t)
    after_on off_verified (got _) t =
        let (back, t') = await_cycle_state true on_polls t in (got (back && off_verified), t')

    abbrev pub after_off : Result Json → Exec (Result Bool)
    after_off (raises e) t = (raises e, t)
    after_off (got _) t =
        let (off_verified, t') = await_cycle_state false off_polls t in
        let (r, t'') = on t' in after_on off_verified r t''

    abbrev pub after_present : Result Bool → Exec (Result Bool)
    after_present (raises e) t = (raises e, t)
    after_present (got _) t = let (r, t') = off t in after_off r t'

    unfoldable pub power_cycle : Exec (Result Bool)
    unfolding await_cycle_state on off device_present
    power_cycle t = let (r, t') = device_present server port t in after_present r t'
