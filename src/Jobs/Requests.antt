-- ===== src/Jobs/Requests.antt =====
-- src/hil_controller/api/jobs.py: POST /v1/jobs/{id}/extend and /cancel. A request opens the database several
-- times, and `others` is what others do before its n-th opening; `writers` is what they do to the
-- events within append_event. The JSON text of an event's payload is a parameter.
use sbc_mcu_dut_controller.Prelude.{
  ℕ, ◌+◌, ◌*◌, String, Bool, true, false, not, Option, none, some, List, [], ◌∷◌, ◌++◌,
  if◌then◌else◌, ltb, one_of, is_null,
}
use sbc_mcu_dut_controller.Store.{Stamp, at, malformed, Job, Lease, Db}
use sbc_mcu_dut_controller.Queue.Leases.{get_active_for_job, renew}
use sbc_mcu_dut_controller.Journal.{
  Event, Appended, appended, gave_up, append_event, get_job, update_job_state, finished_states,
  Fields,
}

-- The database, the rows of events and audit_events, what the event bus has published (the job and the
-- kind), and the jobs whose worker the scheduler was told to cancel.
pub record Desk : Type 0 where
  pub db : Db
  pub events : List Event
  pub audits : List (String × String)
  pub published : List (String × String)
  pub signalled : List String

pub data Answer : Type 0 where
  window_until : Stamp → Answer
  accepted unknown_job no_lease no_longer_active failed : Answer
  terminal : String → Answer

pub data Request : Type 0 where
  extends : (now minutes : ℕ) → Request
  cancels : (has_scheduler : Bool) (now : ℕ) → Request

abbrev pub minute : ℕ
minute = 60000000

-- `max(now, current expiry)`
abbrev pub later_of : (now : ℕ) → Option Stamp → ℕ
later_of now none = now
later_of now (some (malformed s)) = now
later_of now (some (at t)) = if ltb now t then t else now

abbrev pub new_expiry : (now minutes : ℕ) → Option Stamp → Stamp
new_expiry now minutes expires_at = at (later_of now expires_at + minutes * minute)

abbrev pub cancelled_fields : Fields
cancelled_fields = record {
  result = some "cancelled";
  assigned_host = none;
  assigned_device = none;
  summary = none;
}

module _ (others : ℕ → Db → Db) (writers : ℕ → List Event → List Event)
    (window_payload : Stamp → String) (job_id : String) where
  abbrev pub written : (n : ℕ) → Desk → Desk
  written n d = record d { db = others n d.db }

  -- audit_event and the publication, which a failed append_event skips
  abbrev pub announced :
      (action kind : String) → Answer → Appended × List Event → Desk → Answer × Desk
  announced action kind answer (gave_up, es) d = (failed, record d { events = es })
  announced action kind answer (appended seq, es) d = (
    answer,
    record d {
      events = es;
      audits = d.audits ++ (action, job_id) ∷ [];
      published = d.published ++ (job_id, kind) ∷ [];
    },
  )

  unfoldable pub announce : (action kind payload : String) (now : ℕ) → Answer → Desk → Answer × Desk
  unfolding append_event get_job
  announce action kind payload now answer d =
      announced action kind answer
        (append_event writers (not (is_null (get_job job_id d.db))) job_id kind payload (at now)
          d.events)
        d

  -- `if not await renew(…)`
  unfoldable pub after_renew : (now : ℕ) → Stamp → Bool → Desk → Answer × Desk
  unfolding announce
  after_renew now until false d = (no_longer_active, d)
  after_renew now until true d =
      announce "job.extend" "window" (window_payload until) now (window_until until) (written 3 d)

  unfoldable pub extend_lease : (now minutes : ℕ) → Option Lease → Desk → Answer × Desk
  unfolding renew after_renew
  extend_lease now minutes none d = (no_lease, d)
  extend_lease now minutes (some l) d =
      let until : Stamp = new_expiry now minutes l.expires_at in
      let (ok, db) = renew l.id (some until) (others 2 d.db) in
      after_renew now until ok (record d { db = db })

  -- The two checks at the head of either handler; `go` is what follows them.
  abbrev pub live_only : Bool → (state : String) → Desk → Answer × Desk → Answer × Desk
  live_only true state d go = (terminal state, d)
  live_only false state d go = go

  abbrev pub of_job : Option Job → Desk → Answer × Desk → Answer × Desk
  of_job none d go = (unknown_job, d)
  of_job (some row) d go = live_only (one_of row.state finished_states) row.state d go

  unfoldable pub extend_job : (now minutes : ℕ) → Desk → Answer × Desk
  unfolding get_job get_active_for_job extend_lease
  extend_job now minutes d =
      let d1 : Desk = written 1 d in
      of_job (get_job job_id d.db) d (extend_lease now minutes (get_active_for_job job_id d1.db) d1)

  -- A sequence of extensions, each with its instant and its minutes.
  unfoldable pub extend_all : List (ℕ × ℕ) → Desk → Desk
  unfolding extend_job
  extend_all [] d = d
  extend_all ((now, minutes) ∷ rs) d = extend_all rs (written 0 (extend_job now minutes d).1)

  -- `if scheduler is not None: scheduler.cancel_job(job_id)`, which a failed append_event skips
  abbrev pub signal : Bool → Answer × Desk → Answer × Desk
  signal true (accepted, d) = (accepted, record d { signalled = d.signalled ++ job_id ∷ [] })
  signal b r = r

  -- update_job_state and append_event share an opening; the scheduler is told before the publication.
  unfoldable pub cancel_job : (has_scheduler : Bool) (now : ℕ) → Desk → Answer × Desk
  unfolding get_job update_job_state announce
  cancel_job has_scheduler now d =
      let cancelled : Db =
        update_job_state job_id "cancelled" cancelled_fields (at now) (others 1 d.db) in
      of_job (get_job job_id d.db) d (
        signal has_scheduler (
          announce "job.cancel" "state" "{\"state\": \"cancelled\"}" now accepted
            (written 2 (record d { db = cancelled }))))

  -- The requests of a client, and its answers.
  abbrev pub one : Request → Desk → Answer × Desk
  one (extends now minutes) d = extend_job now minutes d
  one (cancels has_scheduler now) d = cancel_job has_scheduler now d

  unfoldable pub serve_requests : List Request → Desk → List Answer × Desk
  unfolding extend_job cancel_job
  serve_requests [] d = ([], d)
  serve_requests (r ∷ rs) d =
      let (answer, d') = one r (written 0 d) in
      let (answers, last) = serve_requests rs d' in (answer ∷ answers, last)
