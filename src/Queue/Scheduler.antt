-- ===== src/Queue/Scheduler.antt =====
-- src/hil_controller/queue/scheduler.py: one job from its row to the end of its worker, with the
-- lease around it. `work` is what the controller does to the tables while the worker runs, and how
-- the worker ends; a cancellation arrives, if at all, while the worker runs. A passive learner, which is started and cancelled beside it, is left out, and so
-- are the queue of asyncio and the handlers of the event bus.
pub mod Held
pub mod Tests
use sbc_mcu_dut_controller.Prelude.{
  ℕ, ◌+◌, ◌*◌, String, Bool, true, false, not, ◌&&◌, ◌||◌, Option, none, some, List, [], ◌∷◌, ◌++◌,
  if◌then◌else◌, str_eq, one_of, truthy, find_first, select, any,
}
use sbc_mcu_dut_controller.Store.{Stamp, at, Job, Lease, Db}
use sbc_mcu_dut_controller.Queue.Leases.{Outcome, ok, raise, acquire, release}
use sbc_mcu_dut_controller.Queue.Worker.{interactive_scripts}

-- `params.window_minutes`: missing, a number that `int()` reads, or anything else
pub data WindowMinutes : Type 0 where
  missing unreadable : WindowMinutes
  minutes : ℕ → WindowMinutes

pub record Request : Type 0 where
  pub script : String
  pub window_minutes : WindowMinutes

-- `_interactive_window_expiry`, at an instant in microseconds
unfoldable pub interactive_window_expiry : Request → (now : ℕ) → Option Stamp
interactive_window_expiry request now =
    let window : ℕ = elim request.window_minutes [
      | missing ↦ 30
      | unreadable ↦ 30
      | minutes m ↦ m
    ] in
    if one_of request.script interactive_scripts
    then some (at (now + window * 60_000_000))
    else none

-- The tables, and the ids of the jobs in `_active`.
pub record Sched : Type 0 where
  pub db : Db
  pub active : List String

pub data WorkReply : Type 0 where
  finished raised cancelled : WorkReply

-- `self._active[job_id] = …` and `self._active.pop(job_id, None)`
abbrev pub pop : String → List String → List String
pop job_id active = select (λ j. not (str_eq j job_id)) active

abbrev pub put : String → List String → List String
put job_id active = job_id ∷ pop job_id active

-- A `LeaseConflict` is logged, and the job goes on without a lease.
abbrev pub lease_id_of : Outcome Lease → Option ℕ
lease_id_of (ok l) = some l.id
lease_id_of (raise e) = none

module _ (job_id : String) (request : Request) (now : ℕ) (leased_at released_at : Stamp) where
  unfoldable pub take_lease : Option String → Db → Option ℕ × Db
  unfolding acquire interactive_window_expiry
  take_lease device_id db =
      if truthy device_id
      then (let (o, db') =
            acquire leased_at "exclusive_device" device_id none (some job_id)
              (interactive_window_expiry request now) db in
          (lease_id_of o, db'))
      else (none, db)

  -- The release in the finally block; an exception of it is logged.
  abbrev pub give_back : (release_raises : Bool) → Option ℕ → Db → Db
  give_back release_raises none db = db
  give_back true (some lease_id) db = db
  give_back false (some lease_id) db = (release released_at lease_id db).1

  -- The worker, and the finally block, which no reply of it passes by.
  abbrev pub with_lease :
      (work : Db → WorkReply × Db) (release_raises : Bool)
      → Option ℕ × Db
      → List String
      → WorkReply × Sched
  with_lease work release_raises (lease_id, db) active =
      let (reply, db') = work db in
      (
        reply,
        record {
          db = give_back release_raises lease_id db';
          active = pop job_id (put job_id active);
        },
      )

  -- `_run_job`, once the adapter is resolved.
  unfoldable pub run_job :
      (work : Db → WorkReply × Db) (release_raises : Bool) → Sched → WorkReply × Sched
  unfolding take_lease release
  run_job work release_raises s =
      elim (find_first (λ (j : Job). str_eq j.id job_id) s.db.jobs) as (λ _. WorkReply × Sched) [
        | none ↦ (finished, s)
        | some row ↦ with_lease work release_raises (take_lease row.assigned_device s.db) s.active
      ]
