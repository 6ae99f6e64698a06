-- ===== src/Queue/Leases/LockTests.antt =====
-- The lease functions and the lock manager on one sequence of calls.
use sbc_mcu_dut_controller.Prelude.{ℕ, true, false, Option, none, some, List, [], ◌∷◌, ◌≡◌}
use sbc_mcu_dut_controller.Store.{Stamp, at, Job, Db}
use sbc_mcu_dut_controller.Queue.Leases.{argument_error, bad_kind}
use sbc_mcu_dut_controller.Queue.Leases.Locks.{
  Grant, Call, acquires, releases, renews, sweeps, granted, busy, bad_request, found, swept, lock,
  lock_all, locks_of, serve_all,
}
use sbc_mcu_dut_controller.Queue.Leases.Refined.{serve_all-lock_all}

abbrev runner : Job
runner = record {
  id = "j1";
  state = "running";
  assigned_host = none;
  assigned_device = none;
  result = none;
  started_at = none;
  finished_at = none;
  summary = none;
}

abbrev empty : Db
empty = record { hosts = []; devices = []; jobs = runner ∷ []; leases = []; lease_seq = 0 }

abbrev on_device : ℕ → Option Stamp → Grant
on_device id expires_at = record {
  id = id;
  device_id = some "esp1";
  hub_host_id = some "hub";
  job_id = some "j1";
  kind = "exclusive_device";
  expires_at = expires_at;
}

abbrev calls : List (Stamp × Call)
calls =
    (at 1, acquires "exclusive_device" (some "esp1") (some "hub") (some "j1") none)
    ∷ (at 2, acquires "exclusive_hub" none (some "hub") none none)
    ∷ (at 3, acquires "shared" none none none none)
    ∷ (at 4, releases 1)
    ∷ (at 5, releases 1)
    ∷ (at 6, acquires "exclusive_device" (some "esp1") (some "hub") (some "j1") none)
    ∷ (at 7, renews 2 (some (at 99)))
    ∷ (at 8, sweeps)
    ∷ []

served_example :
    ((serve_all calls empty).0
      ≡ granted (on_device 1 none)
        ∷ busy
        ∷ bad_request bad_kind
        ∷ found true
        ∷ found false
        ∷ granted (on_device 2 none)
        ∷ found true
        ∷ swept 0
        ∷ [])
    × (locks_of (serve_all calls empty).1 ≡ record {
      held = on_device 2 (some (at 99)) ∷ [];
      last_id = 2;
      devices = [];
      jobs = runner ∷ [];
    })
unfolding lock_all lock argument_error
served_example = serve_all-lock_all calls empty
