-- ===== src/Queue/Leases/Tests.antt =====
-- Two devices behind one hub: the lease functions of queue/leases.py on a concrete database.
use sbc_mcu_dut_controller.Prelude.{ℕ, ◌≤◌, String, true, none, some, [], ◌∷◌, ◌≡◌, refl, length}
use sbc_mcu_dut_controller.Store.{at, Device, Job, Lease, Db}
use sbc_mcu_dut_controller.Queue.Leases.{
  lease_conflict, raise, resolve_hub_host, insert_lease, insert_unless, acquire_device, acquire_hub,
  argument_error, checked, acquire, update_leases, list_all, renew,
}
use sbc_mcu_dut_controller.Queue.Leases.Exclusive.{acquires, Reach, here, next}
use sbc_mcu_dut_controller.Queue.Leases.Holders.{
  device_holders, hub_holders, device_holders-le_one, hub_holders-le_one,
}

abbrev esp : String → Device
esp id = record {
  id = id;
  host_id = some "rpi";
  kind = "mcu";
  model = "esp32";
  status = some "available";
  serial_port = none;
  hub_host_id = some "hub";
  hub_port_path = none;
  unavailable_kind = none;
  unavailable_reason = none;
  unavailable_since = none;
  retry_attempts = 0;
  retry_after = none;
  last_checked_at = none;
  build_target = none;
  power_control = none;
  solenoid_channel = none;
}

abbrev job : String → String → Job
job id state = record {
  id = id;
  state = state;
  assigned_host = some "rpi";
  assigned_device = some "esp1";
  result = none;
  started_at = none;
  finished_at = none;
  summary = none;
}

abbrev fresh : Db
fresh = record {
  hosts = [];
  devices = esp "esp1" ∷ esp "esp2" ∷ [];
  jobs = job "j1" "running" ∷ job "j2" "finished" ∷ [];
  leases = [];
  lease_seq = 0;
}

-- The lease that job `j` takes on the device.
abbrev held : ℕ → String → String → Lease
held id device_id j = record {
  id = id;
  device_id = some device_id;
  hub_host_id = some "hub";
  job_id = some j;
  kind = "exclusive_device";
  acquired_at = at 10;
  expires_at = none;
  released_at = none;
}

abbrev both_held : Db
both_held = record fresh { leases = held 1 "esp1" "j1" ∷ held 2 "esp2" "j2" ∷ []; lease_seq = 2 }

-- A device on a hub goes with another one, but not with the whole hub.
second_device :
    (acquire
      (at 10)
      "exclusive_device"
      (some "esp2")
      none
      (some "j2")
      none
      (record fresh { leases = held 1 "esp1" "j1" ∷ []; lease_seq = 1 })).1
    ≡ both_held
unfolding acquire argument_error checked acquire_device acquire_hub insert_unless resolve_hub_host
    insert_lease
second_device = refl

whole_hub :
    (acquire (at 11) "exclusive_hub" none (some "hub") none none both_held).0
    ≡ raise (lease_conflict 1 "exclusive_device")
unfolding acquire argument_error checked acquire_device acquire_hub insert_unless resolve_hub_host
    insert_lease
whole_hub = refl

list_all_newest : list_all 1 both_held ≡ held 2 "esp2" "j2" ∷ []
unfolding list_all
list_all_newest = refl

renew_open : (renew 1 (some (at 99)) both_held).0 ≡ true
unfolding renew update_leases
renew_open = refl

abbrev after_two : Db
after_two =
    (acquire (at 11) "exclusive_hub" none (some "hub") none none
      (acquire (at 10) "exclusive_device" (some "esp1") none (some "j1") none fresh).1).1

after_two-Reach : Reach fresh after_two
after_two-Reach =
    next (next here (acquires (at 10) "exclusive_device" (some "esp1") none (some "j1") none))
      (acquires (at 11) "exclusive_hub" none (some "hub") none none)

device_holders_example : length (device_holders "esp1" after_two) ≤ 1
device_holders_example = device_holders-le_one "esp1" tt after_two-Reach

abbrev after_hub : Db
after_hub =
    (acquire (at 11) "exclusive_device" (some "esp1") none (some "j1") none
      (acquire (at 10) "exclusive_hub" none (some "hub") none none fresh).1).1

after_hub-Reach : Reach fresh after_hub
after_hub-Reach =
    next (next here (acquires (at 10) "exclusive_hub" none (some "hub") none none))
      (acquires (at 11) "exclusive_device" (some "esp1") none (some "j1") none)

hub_holders_example : length (hub_holders "hub" after_hub) ≤ 1
unfolding acquire argument_error checked acquire_device acquire_hub insert_unless resolve_hub_host
    insert_lease hub_holders
hub_holders_example = hub_holders-le_one "hub" tt after_hub-Reach refl
