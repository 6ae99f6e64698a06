-- ===== src/Journal.antt =====
-- src/hil_controller/db/connection.py: a job's state and its events. The events are the rows of the
-- table in rowid order. Between the SELECT and the INSERT of an attempt of append_event other
-- connections may write: `others` is what they do, by the attempts that are left. `has_job` says
-- whether the job's row is there, which the foreign key of events asks for.
pub mod Sequence
pub mod Numbered
pub mod Reading
pub mod Times
pub mod Tests
use sbc_mcu_dut_controller.Prelude.{
  ℕ, zero, suc, ◌+◌, String, Bool, true, false, not, ◌&&◌, ◌||◌, Option, none, some, List, [], ◌∷◌,
  ◌++◌, map, if◌then◌else◌, ltb, leb, ◌==◌, str_eq, one_of, coalesce, is_null, any, select,
  find_first,
}
use sbc_mcu_dut_controller.Store.{Stamp, Job, Db}

pub record Event : Type 0 where
  pub job_id : String
  pub seq : ℕ
  pub at : Stamp
  pub kind : String
  pub payload : String

-- MAX(seq) over the job's rows, NULL where it has none
abbrev pub larger : ℕ → Option ℕ → ℕ
larger n none = n
larger n (some m) = if leb n m then m else n

unfoldable pub max_seq : String → List Event → Option ℕ
max_seq job_id [] = none
max_seq job_id (e ∷ es) =
    let rest = max_seq job_id es in
    if str_eq e.job_id job_id then some (larger e.seq rest) else rest

-- COALESCE(MAX(seq), -1) + 1
unfoldable pub next_seq : String → List Event → ℕ
unfolding max_seq
next_seq job_id es = elim (max_seq job_id es) [ none ↦ 0 | some m ↦ suc m ]

-- UNIQUE(job_id, seq)
abbrev pub is_taken : String → ℕ → List Event → Bool
is_taken job_id seq es = any (λ (e : Event). str_eq e.job_id job_id && e.seq == seq) es

pub data Appended : Type 0 where
  appended : ℕ → Appended
  -- the RuntimeError
  gave_up : Appended

module _ (others : ℕ → List Event → List Event) (has_job : Bool) (job_id kind payload : String)
    (now : Stamp) where
  abbrev pub new_event : ℕ → Event
  new_event seq = record { job_id = job_id; seq = seq; at = now; kind = kind; payload = payload }

  -- The INSERT of one attempt, and the next attempt after an IntegrityError, of the foreign key or
  -- of the unique number.
  abbrev pub inserted : Bool → ℕ → List Event → Appended × List Event → Appended × List Event
  inserted true seq es retry = retry
  inserted false seq es retry = (appended seq, es ++ new_event seq ∷ [])

  unfoldable pub attempt : ℕ → List Event → Appended × List Event
  unfolding next_seq
  attempt zero es = (gave_up, es)
  attempt (suc left) es =
      let seq : ℕ = next_seq job_id es in
      let es' : List Event = others left es in
      inserted (not has_job || is_taken job_id seq es') seq es' (attempt left es')

  unfoldable pub append_event : List Event → Appended × List Event
  unfolding attempt
  append_event es = attempt 10 es

-- ORDER BY seq
unfoldable pub insert_event : Event → List Event → List Event
insert_event e [] = e ∷ []
insert_event e (f ∷ fs) = if leb e.seq f.seq then e ∷ f ∷ fs else f ∷ insert_event e fs

unfoldable pub sort_events : List Event → List Event
unfolding insert_event
sort_events [] = []
sort_events (e ∷ es) = insert_event e (sort_events es)

-- `first` is `since + 1`: `since` is -1 for all of the events.
unfoldable pub get_events_since : String → (first : ℕ) → List Event → List Event
unfolding sort_events
get_events_since job_id first es =
    sort_events (select (λ (e : Event). str_eq e.job_id job_id && leb first e.seq) es)

abbrev pub started_states : List String
started_states = "assigned" ∷ "preparing" ∷ "flashing" ∷ "running" ∷ []

abbrev pub finished_states : List String
finished_states = "finished" ∷ "error" ∷ "timeout" ∷ "cancelled" ∷ []

-- The keyword arguments of update_job_state.
pub record Fields : Type 0 where
  pub result : Option String
  pub assigned_host : Option String
  pub assigned_device : Option String
  pub summary : Option String

-- `if x is not None: fields.append("x = ?")`
abbrev pub given {ℓ} : {A : Type ℓ} → Option A → Option A → Option A
given none old = old
given (some a) old = some a

-- The columns that the UPDATE writes.
abbrev pub with_state : (state : String) → Fields → Stamp → Job → Job
with_state state fields now j = record j {
  state = state;
  started_at =
      if one_of state started_states then coalesce j.started_at (some now) else j.started_at;
  finished_at = if one_of state finished_states then some now else j.finished_at;
  result = given fields.result j.result;
  assigned_host = given fields.assigned_host j.assigned_host;
  assigned_device = given fields.assigned_device j.assigned_device;
  summary = given fields.summary j.summary;
}

unfoldable pub update_job_state : String → (state : String) → Fields → Stamp → Db → Db
update_job_state job_id state fields now db = record db {
  jobs = map (λ (j : Job). if str_eq j.id job_id then with_state state fields now j else j) db.jobs;
}

unfoldable pub get_job : String → Db → Option Job
get_job job_id db = find_first (λ (j : Job). str_eq j.id job_id) db.jobs

-- insert_job; a taken id is an IntegrityError, and the database comes back as it was.
unfoldable pub insert_job : String → Db → Bool × Db
unfolding get_job
insert_job job_id db =
    if is_null (get_job job_id db)
    then (
      true,
      record db {
        jobs =
            db.jobs
            ++ record {
              id = job_id;
              state = "queued";
              assigned_host = none;
              assigned_device = none;
              result = none;
              started_at = none;
              finished_at = none;
              summary = none;
            }
              ∷ [];
      },
    )
    else (false, db)
