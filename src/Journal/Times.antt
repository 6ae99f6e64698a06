-- ===== src/Journal/Times.antt =====
-- What a sequence of calls of update_job_state of src/hil_controller/db/connection.py leaves in a
-- job's row.
use sbc_mcu_dut_controller.Prelude.{
  String, Bool, true, false, Option, none, some, List, [], ◌∷◌, map, ◌≡◌, refl, ap, ◌∙◌,
  if◌then◌else◌, str_eq, one_of, coalesce, find_first,
}
use sbc_mcu_dut_controller.Store.{Stamp, Job, Db}
use sbc_mcu_dut_controller.Journal.{
  Fields, started_states, finished_states, given, with_state, update_job_state, get_job,
}

pub record Update : Type 0 where
  pub state : String
  pub fields : Fields
  pub now : Stamp

unfoldable pub update_all : String → List Update → Db → Db
update_all job_id [] db = db
update_all job_id (u ∷ us) db =
    update_all job_id us (update_job_state job_id u.state u.fields u.now db)

-- The time of the first update to a state in which the job runs, and of the last to one in which it
-- is over.
abbrev pub first_start : List Update → Option Stamp
first_start [] = none
first_start (u ∷ us) = if one_of u.state started_states then some u.now else first_start us

abbrev pub last_finish : List Update → Option Stamp
last_finish [] = none
last_finish (u ∷ us) =
    coalesce (last_finish us) (if one_of u.state finished_states then some u.now else none)

abbrev pub last_state : String → List Update → String
last_state s [] = s
last_state s (u ∷ us) = last_state u.state us

abbrev pub last_result : List Update → Option String
last_result [] = none
last_result (u ∷ us) = coalesce (last_result us) u.fields.result

-- The columns of the job's life, by the updates alone.
abbrev pub IsLife : Job → List Update → Job → Type 0
IsLife j us k =
    (k.state ≡ last_state j.state us)
    × (k.started_at ≡ coalesce j.started_at (first_start us))
    × (k.finished_at ≡ coalesce (last_finish us) j.finished_at)
    × (k.result ≡ coalesce (last_result us) j.result)

abbrev written : List Update → Job → Job
written [] j = j
written (u ∷ us) j = written us (with_state u.state u.fields u.now j)

module _ {ℓ} {A : Type ℓ} where
  coalesce-none : (o : Option A) → o ≡ coalesce o none
  coalesce-none none = refl
  coalesce-none (some a) = refl

  coalesce-first :
      (b : Bool) (old rest : Option A) (a : A)
      → coalesce (if b then coalesce old (some a) else old) rest
        ≡ coalesce old (if b then some a else rest)
  coalesce-first true none rest a = refl
  coalesce-first true (some c) rest a = refl
  coalesce-first false old rest a = refl

  coalesce-last :
      (b : Bool) (rest old : Option A) (a : A)
      → coalesce rest (if b then some a else old)
        ≡ coalesce (coalesce rest (if b then some a else none)) old
  coalesce-last b (some c) old a = refl
  coalesce-last true none old a = refl
  coalesce-last false none old a = refl

  coalesce-given :
      (rest o old : Option A) → coalesce rest (given o old) ≡ coalesce (coalesce rest o) old
  coalesce-given (some c) o old = refl
  coalesce-given none none old = refl
  coalesce-given none (some a) old = refl

life : (us : List Update) (j : Job) → IsLife j us (written us j)
life [] j = (refl, coalesce-none j.started_at, refl, refl)
life (u ∷ us) j =
    let ih = life us (with_state u.state u.fields u.now j) in
    (
      ih.0,
      ih.1 ∙ coalesce-first (one_of u.state started_states) j.started_at (first_start us) u.now,
      ih.2 ∙ coalesce-last (one_of u.state finished_states) (last_finish us) j.finished_at u.now,
      ih.3 ∙ coalesce-given (last_result us) u.fields.result j.result,
    )

abbrev rewritten : String → Update → Job → Job
rewritten job_id u j = if str_eq j.id job_id then with_state u.state u.fields u.now j else j

updated :
    (job_id : String) (u : Update) (js : List Job) (j : Job)
    → find_first (λ (j : Job). str_eq j.id job_id) js ≡ some j
    → find_first (λ (j : Job). str_eq j.id job_id) (map (rewritten job_id u) js)
      ≡ some (with_state u.state u.fields u.now j)
updated job_id u [] j h = cc
updated job_id u (i ∷ js) j h = of (str_eq i.id job_id) refl h (updated job_id u js j)
  where
    is_it : Job → Bool
    is_it j = str_eq j.id job_id

    rest : Option Job
    rest = find_first is_it (map (rewritten job_id u) js)

    of :
        (b : Bool)
        → str_eq i.id job_id ≡ b
        → (if b then some i else find_first is_it js) ≡ some j
        → (find_first is_it js ≡ some j → rest ≡ some (with_state u.state u.fields u.now j))
        → (if str_eq (if b then with_state u.state u.fields u.now i else i).id job_id
            then some (if b then with_state u.state u.fields u.now i else i)
            else rest)
          ≡ some (with_state u.state u.fields u.now j)
    of true e k ih =
        let same : i ≡ j = cc in rw e (ap (λ x. some (with_state u.state u.fields u.now x)) same)
    of false e k ih = rw e (ih k)

all_written :
    (job_id : String) (us : List Update) (db : Db) (j : Job)
    → get_job job_id db ≡ some j
    → get_job job_id (update_all job_id us db) ≡ some (written us j)
unfolding update_all update_job_state get_job
all_written job_id [] db j h = h
all_written job_id (u ∷ us) db j h =
    all_written job_id us (update_job_state job_id u.state u.fields u.now db)
      (with_state u.state u.fields u.now j) (updated job_id u db.jobs j h)

-- After any sequence of updates of a job, get_job finds it with the last state that was written, with
-- the time of the first update to a state in which it runs as started_at (unless it had one), with the
-- time of the last update to a state in which it is over as finished_at, and with the last result that
-- was given; a column that no update concerns is as it was.
pub get_job-update_all :
    (job_id : String) (us : List Update) (db : Db) (j : Job)
    → get_job job_id db ≡ some j
    → (k : Job) × (get_job job_id (update_all job_id us db) ≡ some k) × IsLife j us k
get_job-update_all job_id us db j h = (written us j, all_written job_id us db j h, life us j)
