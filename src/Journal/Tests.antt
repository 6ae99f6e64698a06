-- ===== src/Journal/Tests.antt =====
-- A job whose event log has two writers.
use mathlib.Core.Path.{subst}
use sbc_mcu_dut_controller.Prelude.{
  ℕ, ◌≤◌, String, Bool, true, false, Option, none, some, List, [], ◌∷◌, ◌++◌, ◌≡◌, refl, ap, arith,
  if◌then◌else◌, ◌==◌, select, length,
}
use sbc_mcu_dut_controller.Store.{at, Job, Db}
use sbc_mcu_dut_controller.Journal.{
  Event, appended, new_event, attempt, append_event, next_seq, max_seq, get_job, insert_job,
}
use sbc_mcu_dut_controller.Journal.Sequence.{mine, count}
use sbc_mcu_dut_controller.Journal.Numbered.{
  AllNumbered, IsFair, append_event-AllNumbered, append_event_alone,
}
use sbc_mcu_dut_controller.Journal.Times.{Update, update_all, IsLife, get_job-update_all}

abbrev event : String → ℕ → Event
event job_id seq = record { job_id = job_id; seq = seq; at = at 1; kind = "log"; payload = "{}" }

abbrev idle : ℕ → List Event → List Event
idle left es = es

idle-IsFair : IsFair idle "j"
idle-IsFair = record { numbered = λ left es h. h; kept = λ left es h. omega arith }

-- Another connection appends an event to the same job during the first attempt.
abbrev rival : ℕ → List Event → List Event
rival left es =
    if left == 9 then es ++ new_event idle true "j" "log" "{}" (at 5) (count "j" es) ∷ [] else es

count-snoc : (es : List Event) (e : Event) → count "j" es ≤ count "j" (es ++ e ∷ [])
count-snoc [] e = omega arith
count-snoc (f ∷ es) e = of (mine "j" f) (count-snoc es e)
  where
    of :
        (b : Bool)
        → count "j" es ≤ count "j" (es ++ e ∷ [])
        → length (if b then f ∷ select (mine "j") es else select (mine "j") es)
          ≤ length
              (if b then f ∷ select (mine "j") (es ++ e ∷ []) else select (mine "j") (es ++ e ∷ []))
    of true h = omega arith
    of false h = h

rival-IsFair : IsFair rival "j"
rival-IsFair = record {
  numbered = λ left es h. numbered_if (left == 9) es h;
  kept = λ left es h. kept_if (left == 9) es;
}
  where
    next : List Event → List Event
    next es = es ++ new_event idle true "j" "log" "{}" (at 5) (count "j" es) ∷ []

    numbered_if :
        (b : Bool) (es : List Event) → AllNumbered es → AllNumbered (if b then next es else es)
    numbered_if true es h =
        subst AllNumbered (ap (λ r. r.1) (append_event_alone true "j" "log" "{}" (at 5) es (h "j")))
          (append_event-AllNumbered idle true "j" "log" "{}" (at 5) idle-IsFair es h)
    numbered_if false es h = h

    kept_if : (b : Bool) (es : List Event) → count "j" es ≤ count "j" (if b then next es else es)
    kept_if true es = count-snoc es (new_event idle true "j" "log" "{}" (at 5) (count "j" es))
    kept_if false es = omega arith

retried : append_event rival true "j" "state" "{}" (at 6) (event "j" 0 ∷ []) ≡ (
  appended 2,
  event "j" 0
      ∷ new_event idle true "j" "log" "{}" (at 5) 1
      ∷ new_event idle true "j" "state" "{}" (at 6) 2
      ∷ [],
)
unfolding append_event attempt next_seq max_seq
retried = refl

none_numbered : AllNumbered []
none_numbered job_id = tt

numbering_example : AllNumbered (append_event rival true "j" "state" "{}" (at 6) []).1
numbering_example =
    append_event-AllNumbered rival true "j" "state" "{}" (at 6) rival-IsFair [] none_numbered

abbrev job : Job
job = record {
  id = "j";
  state = "queued";
  assigned_host = none;
  assigned_device = none;
  result = none;
  started_at = none;
  finished_at = none;
  summary = none;
}

abbrev queue : Db
queue = record { hosts = []; devices = []; jobs = job ∷ []; leases = []; lease_seq = 0 }

abbrev update : String → Option String → ℕ → Update
update state result t = record {
  state = state;
  fields = record { result = result; assigned_host = none; assigned_device = none; summary = none };
  now = at t;
}

abbrev updates : List Update
updates =
    update "assigned" none 3 ∷ update "running" none 5 ∷ update "finished" (some "pass") 9 ∷ []

found : get_job "j" queue ≡ some job
unfolding get_job
found = refl

taken_id : (insert_job "j" queue).0 ≡ false
unfolding insert_job get_job
taken_id = refl

life_example :
    (k : Job) × (get_job "j" (update_all "j" updates queue) ≡ some k) × IsLife job updates k
life_example = get_job-update_all "j" updates queue job found
