-- ===== src/Jobs/Cancelled.antt =====
-- A job after its cancellation by src/hil_controller/api/jobs.py.
use sbc_mcu_dut_controller.Prelude.{
  map, ℕ, String, Bool, true, false, Option, none, some, List, [], ◌∷◌, ◌≡◌, refl, ap, one_of,
  coalesce, ◌∙◌,
}
use sbc_mcu_dut_controller.Store.{Stamp, at, Job, Db}
use sbc_mcu_dut_controller.Journal.{
  Event, Appended, appended, gave_up, get_job, update_job_state, finished_states, Fields,
}
use sbc_mcu_dut_controller.Journal.Times.{Update, update_all, get_job-update_all}
use sbc_mcu_dut_controller.Jobs.Requests.{
  Desk, Answer, accepted, terminal, announced, announce, signal, live_only, of_job, extend_job,
  cancel_job, cancelled_fields, Request, extends, cancels, one, serve_requests,
}

module _ (others : ℕ → Db → Db) (writers : ℕ → List Event → List Event)
    (window_payload : Stamp → String) (job_id : String) where
  -- What the others do does not delete the job's row.
  abbrev pub KeepsRow : Type 0
  KeepsRow =
      (n : ℕ) (db : Db) (row : Job)
      → get_job job_id db ≡ some row
      → (k : Job) × (get_job job_id (others n db) ≡ some k)

  abbrev pub IsCancelledAt : Stamp → Db → Type 0
  IsCancelledAt now db =
      (k : Job) × (get_job job_id db ≡ some k)
      × (k.state ≡ "cancelled")
      × (k.result ≡ some "cancelled")
      × (k.finished_at ≡ some now)

  -- What the others do leaves the row of the job as its cancellation wrote it.
  abbrev pub KeepsCancelled : Type 0
  KeepsCancelled =
      (n : ℕ) (now : Stamp) (db : Db) → IsCancelledAt now db → IsCancelledAt now (others n db)

  update-IsCancelledAt :
      (fields : Fields) (now : Stamp) (db : Db) (row : Job)
      → fields.result ≡ some "cancelled"
      → get_job job_id db ≡ some row
      → IsCancelledAt now (update_job_state job_id "cancelled" fields now db)
  unfolding update_all
  update-IsCancelledAt fields now db row e h =
      let u : Update = record { state = "cancelled"; fields = fields; now = now } in
      let (k, found, life) = get_job-update_all job_id (u ∷ []) db row h in
      (k, found, life.0, life.3 ∙ ap (λ o. coalesce (coalesce none o) row.result) e, life.2)

  announced-db :
      (action kind : String) (r : Appended × List Event) (d : Desk) (b : Bool)
      → (signal others writers window_payload job_id b
          (announced others writers window_payload job_id action kind accepted r d)).1.db
        ≡ d.db
  announced-db action kind (appended seq, es) d true = refl
  announced-db action kind (appended seq, es) d false = refl
  announced-db action kind (gave_up, es) d true = refl
  announced-db action kind (gave_up, es) d false = refl

  abbrev extend : ℕ → ℕ → Desk → Answer × Desk
  extend now minutes d = extend_job others writers window_payload job_id now minutes d

  abbrev cancel : Bool → ℕ → Desk → Answer × Desk
  cancel b now d = cancel_job others writers window_payload job_id b now d

  checked-IsCancelledAt :
      (now : ℕ) (d : Desk) (row : Option Job) (go : Answer × Desk)
      → get_job job_id d.db ≡ row
      → ((k : Job) → get_job job_id d.db ≡ some k → IsCancelledAt (at now) go.1.db)
      → (of_job others writers window_payload job_id row d go).0 ≡ accepted
      → IsCancelledAt (at now) (of_job others writers window_payload job_id row d go).1.db
  checked-IsCancelledAt now d none go found gone h = cc
  checked-IsCancelledAt now d (some row) go found gone h = of (one_of row.state finished_states) h
    where
      of :
          (over : Bool)
          → (live_only others writers window_payload job_id over row.state d go).0 ≡ accepted
          → IsCancelledAt
              (at now)
              (live_only others writers window_payload job_id over row.state d go).1.db
      of true h = cc
      of false h = gone row found

  cancel_job-IsCancelledAt :
      (b : Bool) (now : ℕ) (d : Desk)
      → KeepsRow
      → KeepsCancelled
      → (cancel b now d).0 ≡ accepted
      → IsCancelledAt (at now) (cancel b now d).1.db
  unfolding cancel_job announce
  cancel_job-IsCancelledAt b now d kept left =
      checked-IsCancelledAt now d (get_job job_id d.db) _ refl (λ row found.
        rw (announced-db "job.cancel" "state" _ _ b) (
          left 2 (at now) _ (
            update-IsCancelledAt cancelled_fields (at now) (others 1 d.db) (kept 1 d.db row found).0
              refl (kept 1 d.db row found).1)))

  extend_job-terminal :
      (now later minutes : ℕ) (d : Desk)
      → IsCancelledAt (at now) d.db
      → extend later minutes d ≡ (terminal "cancelled", d)
  unfolding extend_job
  extend_job-terminal now later minutes d (k, found, state, result, finished) =
      rw (found, state) refl

  cancel_job-terminal :
      (now later : ℕ) (b : Bool) (d : Desk)
      → IsCancelledAt (at now) d.db
      → cancel b later d ≡ (terminal "cancelled", d)
  unfolding cancel_job
  cancel_job-terminal now later b d (k, found, state, result, finished) = rw (found, state) refl

  -- The desk after as many requests, with what the others write alone.
  abbrev pub with_others : List Request → Desk → Desk
  with_others [] d = d
  with_others (r ∷ rs) d = with_others rs (record d { db = others 0 d.db })

  one-terminal :
      (now : ℕ) (r : Request) (d : Desk)
      → IsCancelledAt (at now) d.db
      → one others writers window_payload job_id r d ≡ (terminal "cancelled", d)
  one-terminal now (extends later minutes) d over = extend_job-terminal now later minutes d over
  one-terminal now (cancels b later) d over = cancel_job-terminal now later b d over

  serve-terminal :
      (now : ℕ) (rs : List Request) (d : Desk)
      → KeepsCancelled
      → IsCancelledAt (at now) d.db
      → serve_requests others writers window_payload job_id rs d
        ≡ (map (λ r. terminal "cancelled") rs, with_others rs d)
  unfolding serve_requests
  serve-terminal now [] d left over = refl
  serve-terminal now (r ∷ rs) d left over =
      let over' = left 0 (at now) d.db over in
      let d' : Desk = record d { db = others 0 d.db } in
      rw (one-terminal now r d' over') (rw (serve-terminal now rs d' left over') refl)

  -- After an accepted cancellation the job has the state and the result cancelled, and the instant of the
  -- cancellation as finished_at; and every extension and cancellation of it that follows, however many,
  -- is refused as terminal and changes nothing, so that the desk then differs by what others wrote alone;
  -- provided that others do not delete the job's row before the cancellation's update, and leave the row
  -- as it is after it.
  pub cancel_job-terminal_from_then :
      (b : Bool) (now : ℕ) (d : Desk) (rs : List Request)
      → KeepsRow
      → KeepsCancelled
      → (cancel b now d).0 ≡ accepted
      → IsCancelledAt (at now) (cancel b now d).1.db
        × (serve_requests others writers window_payload job_id rs (cancel b now d).1
            ≡ (map (λ r. terminal "cancelled") rs, with_others rs (cancel b now d).1))
  cancel_job-terminal_from_then b now d rs kept left h =
      let over = cancel_job-IsCancelledAt b now d kept left h in
      (over, serve-terminal now rs (cancel b now d).1 left over)
