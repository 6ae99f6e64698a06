-- ===== src/Queue/Scheduler/Tests.antt =====
-- A job of queue/scheduler.py whose worker raises.
use sbc_mcu_dut_controller.Prelude.{false, none, some, [], ◌∷◌, ◌≡◌, refl}
use sbc_mcu_dut_controller.Store.{at, Job, Db}
use sbc_mcu_dut_controller.Queue.Leases.{
  acquire, acquire_device, acquire_hub, argument_error, checked, insert_unless, insert_lease,
  resolve_hub_host,
}
use sbc_mcu_dut_controller.Queue.Scheduler.{
  Request, unreadable, interactive_window_expiry, Sched, WorkReply, raised, take_lease, run_job,
}
use sbc_mcu_dut_controller.Queue.Scheduler.Held.{Ended, run_job-released}

abbrev hold : Request
hold = record { script = "firmware-bench"; window_minutes = unreadable }

abbrev blink : Job
blink = record {
  id = "j1";
  state = "queued";
  assigned_host = some "rpi";
  assigned_device = some "esp1";
  result = none;
  started_at = none;
  finished_at = none;
  summary = none;
}

abbrev queue : Sched
queue = record {
  db = record { hosts = []; devices = []; jobs = blink ∷ []; leases = []; lease_seq = 4 };
  active = [];
}

abbrev breaks : Db → WorkReply × Db
breaks db = (raised, db)

half_an_hour : interactive_window_expiry hold 0 ≡ some (at 1_800_000_000)
unfolding interactive_window_expiry
half_an_hour = refl

lease_back_example : Ended "j1" 5 (run_job "j1" hold 0 (at 1) (at 2) breaks false queue).1
unfolding take_lease acquire argument_error checked acquire_device acquire_hub insert_unless
    insert_lease resolve_hub_host
lease_back_example = run_job-released "j1" hold 0 (at 1) (at 2) breaks queue blink 5 refl refl
