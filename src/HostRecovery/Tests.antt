-- ===== src/HostRecovery/Tests.antt =====
-- One host with a board that is out of service for good, wedged and recovered.
use sbc_mcu_dut_controller.Prelude.{
  String, true, false, ◌&&◌, ◌==◌, none, some, [], ◌∷◌, map, ◌≡◌, refl, if◌then◌else◌, select,
  length,
}
use sbc_mcu_dut_controller.Store.{at, Host, Device, Db}
use sbc_mcu_dut_controller.HostRecovery.{
  wedged_reason_prefix, wedged_reason, on_host, cleared, mark_host_wedged, clear_host_recovered,
  host_active_job_count, list_reboot_required_hosts, rebooted, ok, recover_host, recover_each,
  recover_wedged_hosts, like_prefix, unreachable_reason,
}
use sbc_mcu_dut_controller.HostRecovery.Shell.{
  turn_on, turn_off, test_node, dmesg_tail, answered, raised, Transport, presence_node,
  node_present, poll_node, await_node_present, dmesg_usb_error_count, present_and_clean,
  validate_presence_active, reboot_host,
}
use sbc_mcu_dut_controller.HostRecovery.Power.{
  idle, power, left_by, looked, IsSwitched, validate_presence_active-Power, reboot_host-Power,
}
use sbc_mcu_dut_controller.HostRecovery.Cleared.{clear_host_recovered-mark_host_wedged}
use sbc_mcu_dut_controller.HostRecovery.Recovered.{recover_wedged_hosts-select}

abbrev retired : Device
retired = record {
  id = "esp1";
  host_id = some "rpi";
  kind = "mcu";
  model = "esp32";
  status = some "unavailable";
  serial_port = none;
  hub_host_id = none;
  hub_port_path = none;
  unavailable_kind = some "permanent";
  unavailable_reason = some "burnt out";
  unavailable_since = some (at 5);
  retry_attempts = 0;
  retry_after = none;
  last_checked_at = none;
  build_target = none;
  power_control = none;
  solenoid_channel = none;
}

abbrev host : String → Host
host id = record { id = id; status = "reboot_required"; last_seen_at = none }

abbrev rack : Db
rack = record {
  hosts = host "rpi" ∷ host "busy" ∷ [];
  devices = retired ∷ [];
  jobs =
      record {
        id = "j1";
        state = "running";
        assigned_host = some "busy";
        assigned_device = none;
        result = none;
        started_at = none;
        finished_at = none;
        summary = none;
      }
      ∷ [];
  leases = [];
  lease_seq = 0;
}

reason_text :
    wedged_reason "rpi" "no node" 300
    ≡ "host USB stack wedged — rpi reboot required, back ~300s (no node)"
unfolding wedged_reason
reason_text = refl

other_reason : like_prefix wedged_reason_prefix (some (unreachable_reason "rpi" "" 60)) ≡ false
unfolding unreachable_reason
other_reason = refl

-- A device is written while a host reboots.
abbrev drained : String → Db → Db
drained h db = record db { devices = retired ∷ [] }

-- The busy host waits for its job.
only_idle : (recover_wedged_hosts (λ _. rebooted) drained true (λ _. at 9) rack).0 ≡ "rpi" ∷ []
unfolding recover_wedged_hosts recover_each recover_host clear_host_recovered host_active_job_count
    list_reboot_required_hosts
only_idle = refl

forgotten_example :
    (clear_host_recovered "rpi"
      (at 30)
      (mark_host_wedged "rpi" "" 300 (at 10) (at 20) rack)).devices
    ≡ map (λ d. if on_host "rpi" d then cleared (at 30) d else d) rack.devices
forgotten_example = clear_host_recovered-mark_host_wedged "rpi" "" 300 (at 10) (at 20) (at 30) rack

drained-steady :
    (h g : String) (db : Db)
    → (host_active_job_count g (drained h db) == 0) ≡ (host_active_job_count g db == 0)
unfolding host_active_job_count
drained-steady h g db = refl

recovered_hosts_example :
    (recover_wedged_hosts (λ _. rebooted) drained true (λ _. at 9) rack).0
    ≡ select
        (λ h.
          host_active_job_count h rack == 0
          && (true && ok (λ _. rebooted) drained true (λ _. at 9) h))
        (list_reboot_required_hosts rack)
recovered_hosts_example =
    recover_wedged_hosts-select (λ _. rebooted) drained true (λ _. at 9) drained-steady rack

-- Everything succeeds, on a clean bus.
abbrev sound : Transport
sound c n = answered 0 0

-- The script that turns a channel on does not come back in time.
abbrev stuck : Transport
stuck (turn_on channel) n = raised
stuck c n = answered 0 0

validates :
    validate_presence_active sound 3 25 "/dev/x" []
    ≡ (true, turn_on 3 ∷ test_node "/dev/x" ∷ dmesg_tail ∷ turn_off 3 ∷ [])
unfolding validate_presence_active present_and_clean await_node_present poll_node node_present
    dmesg_usb_error_count
validates = refl

bus_id_node :
    presence_node (record retired { hub_port_path = some "1-1.1.3" })
    ≡ some "/sys/bus/usb/devices/1-1.1.3"
unfolding presence_node
bus_id_node = refl

left_on_example :
    power stuck idle 0 (validate_presence_active stuck 3 25 "/dev/x" []).1
    ≡ left_by (stuck (turn_on 3) 0) (stuck (turn_off 3) (length (looked stuck 3 25 "/dev/x" []))) 3
left_on_example = validate_presence_active-Power stuck 3 25 "/dev/x" [] refl

sound-IsSwitched : IsSwitched sound
sound-IsSwitched = record { turns_on = λ c n h. cc; turns_off = λ c n. refl; clears = λ n. refl }

gentle_example :
    power sound idle 0 (reboot_host sound 240 5 20 ((1, some "/dev/x") ∷ (2, none) ∷ []) []).1
    ≡ idle
gentle_example =
    reboot_host-Power sound sound-IsSwitched 240 5 20 (1, some "/dev/x") ((2, none) ∷ []) []
      (λ h. cc)
