-- ===== src/Jobs/RequestTests.antt =====
-- Extensions and a cancellation of a job that runs.
use sbc_mcu_dut_controller.Prelude.{
  map, ℕ, ◌+◌, ◌*◌, ◌≤◌, String, true, false, none, some, List, [], ◌∷◌, ◌≡◌, refl, All,
}
use sbc_mcu_dut_controller.Store.{Stamp, at, Lease, Db}
use sbc_mcu_dut_controller.Queue.Leases.{get_active_for_job, renew, update_leases}
use sbc_mcu_dut_controller.Journal.{
  Event, append_event, attempt, next_seq, max_seq, get_job, update_job_state,
}
use sbc_mcu_dut_controller.Jobs.Requests.{
  serve_requests, extends, cancels, Desk, accepted, terminal, minute, announce, extend_lease,
  after_renew, extend_job, extend_all, cancel_job,
}
use sbc_mcu_dut_controller.Jobs.Window.{granted, IsPeer, IsUntil, extend_all-adds_up}
use sbc_mcu_dut_controller.Jobs.Cancelled.{
  KeepsRow, IsCancelledAt, cancel_job-terminal_from_then, KeepsCancelled, with_others,
}
use sbc_mcu_dut_controller.Jobs.Tests.{running}

-- The lease that the job holds, until the instant 100.
abbrev hold : Lease
hold = record {
  id = 4;
  device_id = some "d";
  hub_host_id = none;
  job_id = some "j";
  kind = "exclusive_device";
  acquired_at = at 2;
  expires_at = some (at 100);
  released_at = none;
}

abbrev desk : Desk
desk = record {
  db = record { hosts = []; devices = []; jobs = running ∷ []; leases = hold ∷ []; lease_seq = 4 };
  events = [];
  audits = [];
  published = [];
  signalled = [];
}

-- Others change the hosts meanwhile.
abbrev others : ℕ → Db → Db
others n db = record db { hosts = [] }

abbrev quiet : ℕ → List Event → List Event
quiet left es = es

abbrev payload : Stamp → String
payload until = "{}"

peer : IsPeer "j" others
unfolding get_job get_active_for_job
peer = record { live = λ n db h. h; kept = λ n db l h. h }

extended_twice :
    (extend_all others quiet payload "j" ((40, 1) ∷ (90, 30) ∷ []) desk).published
    ≡ ("j", "window") ∷ ("j", "window") ∷ []
unfolding extend_all extend_job extend_lease after_renew renew update_leases announce append_event
    attempt next_seq max_seq get_job get_active_for_job
extended_twice = refl

desk-IsUntil : IsUntil "j" hold 100 desk.db
unfolding get_job get_active_for_job
desk-IsUntil = ((running, refl, refl), refl)

adds_up_example :
    (v : ℕ) × IsUntil "j" hold v
      (extend_all others quiet payload "j" ((40, 1) ∷ (90, 30) ∷ []) desk).db
    × (100 + granted ((40, 1) ∷ (90, 30) ∷ []) ≤ v)
    × All {A = ℕ × ℕ} (λ r. r.0 + r.1 * minute ≤ v) ((40, 1) ∷ (90, 30) ∷ [])
adds_up_example =
    extend_all-adds_up "j" hold others quiet payload peer ((40, 1) ∷ (90, 30) ∷ []) 100 desk
      desk-IsUntil

others-KeepsRow : KeepsRow others quiet payload "j"
unfolding get_job
others-KeepsRow n db row h = (row, h)

cancelled_once : (cancel_job others quiet payload "j" true 50 desk).0 ≡ accepted
unfolding cancel_job update_job_state announce append_event attempt next_seq max_seq get_job
cancelled_once = refl

others-KeepsCancelled : KeepsCancelled others quiet payload "j"
unfolding get_job
others-KeepsCancelled n now db h = h

abbrev after_cancel : Desk
after_cancel = (cancel_job others quiet payload "j" true 50 desk).1

terminal_example :
    IsCancelledAt others quiet payload "j" (at 50) after_cancel.db
    × (serve_requests others quiet payload "j" (extends 60 5 ∷ cancels false 70 ∷ []) after_cancel
        ≡ (
          map (λ r. terminal "cancelled") (extends 60 5 ∷ cancels false 70 ∷ []),
          with_others others quiet payload "j" (extends 60 5 ∷ cancels false 70 ∷ []) after_cancel,
        ))
terminal_example =
    cancel_job-terminal_from_then others quiet payload "j" true 50 desk
      (extends 60 5 ∷ cancels false 70 ∷ []) others-KeepsRow others-KeepsCancelled cancelled_once
