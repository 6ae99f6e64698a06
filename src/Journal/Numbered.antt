-- ===== src/Journal/Numbered.antt =====
-- The events that src/hil_controller/db/connection.py appends and reads back.
use sbc_mcu_dut_controller.Prelude.{
  ◌||◌, if◌then◌else◌, ℕ, zero, suc, ◌≤◌, String, Bool, true, false, not, List, [], ◌∷◌, ◌++◌, ◌≡◌,
  refl, ap, arith, eq_iff,
}
use sbc_mcu_dut_controller.Store.{Stamp}
use sbc_mcu_dut_controller.Journal.{
  Event, appended, gave_up, new_event, inserted, attempt, append_event, next_seq, is_taken,
}
use sbc_mcu_dut_controller.Journal.Sequence.{
  count, IsNumbered, next_seq-count, free-count, count-free, IsNumbered-snoc,
}

abbrev pub AllNumbered : List Event → Type 0
AllNumbered es = (job_id : String) → IsNumbered job_id 0 es

-- What other connections do between the two statements of an attempt keeps every job's numbering, and
-- removes no event of the job.
pub record IsFair (others : ℕ → List Event → List Event) (job_id : String) : Type 0 where
  pub numbered : (left : ℕ) (es : List Event) → AllNumbered es → AllNumbered (others left es)
  pub kept :
      (left : ℕ) (es : List Event)
      → AllNumbered es
      → count job_id es ≤ count job_id (others left es)

||-false : (a : Bool) {b : Bool} → (a || b) ≡ false → b ≡ false
||-false true h = cc
||-false false h = h

module _ (others : ℕ → List Event → List Event) (has_job : Bool) (job_id kind payload : String)
    (now : Stamp) where
  snoc-AllNumbered :
      (es : List Event) (seq : ℕ)
      → AllNumbered es
      → seq ≡ count job_id es
      → AllNumbered (es ++ new_event others has_job job_id kind payload now seq ∷ [])
  snoc-AllNumbered es seq h e j =
      IsNumbered-snoc j 0 es (new_event others has_job job_id kind payload now seq) (h j) (λ m.
        let same : count job_id es ≡ count j es = ap (λ i. count i es) ((eq_iff job_id j).0 m) in
        omega (arith, e, same))

  attempt-AllNumbered :
      IsFair others job_id
      → (left : ℕ) (es : List Event) → AllNumbered es
      → AllNumbered (attempt others has_job job_id kind payload now left es).1
  unfolding attempt
  attempt-AllNumbered fair zero es h = h
  attempt-AllNumbered fair (suc left) es h =
      of (not has_job || is_taken job_id (next_seq job_id es) (others left es)) refl
        (attempt-AllNumbered fair left (others left es) (fair.numbered left es h))
    where
      of :
          (b : Bool)
          → (not has_job || is_taken job_id (next_seq job_id es) (others left es)) ≡ b
          → AllNumbered (attempt others has_job job_id kind payload now left (others left es)).1
          → AllNumbered
              (inserted others has_job job_id kind payload now b
                (next_seq job_id es)
                (others left es)
                (attempt others has_job job_id kind payload now left (others left es))).1
      of true e rest = rest
      of false e rest =
          let seq : next_seq job_id es ≡ count job_id es = next_seq-count job_id es (h job_id) in
          let untaken : is_taken job_id (next_seq job_id es) (others left es) ≡ false =
            (||-false (not has_job) e) in
          let free =
            free-count job_id 0 (next_seq job_id es) (others left es)
              (fair.numbered left es h job_id) (omega arith) untaken in
          snoc-AllNumbered (others left es) (next_seq job_id es) (fair.numbered left es h)
            (omega (arith, seq, free, fair.kept left es h))

-- Whatever other connections append between the SELECT and the INSERT of an attempt, provided that
-- they keep the numbering themselves and remove nothing, append_event keeps every job's events numbered
-- 0, 1, 2 and so on in the order of their rows, also where it gives up.
pub append_event-AllNumbered :
    (others : ℕ → List Event → List Event) (has_job : Bool) (job_id kind payload : String)
    (now : Stamp)
    → IsFair others job_id
    → (es : List Event) → AllNumbered es
    → AllNumbered (append_event others has_job job_id kind payload now es).1
unfolding append_event
append_event-AllNumbered others has_job job_id kind payload now fair es h =
    attempt-AllNumbered others has_job job_id kind payload now fair 10 es h

-- Where no other connection writes in between, append_event of a job that is there succeeds at its
-- first attempt: the event becomes the last row, and its number is that of the job's events before. Of a
-- job that is not there it gives up after its ten attempts, and writes nothing.
pub append_event_alone :
    (has_job : Bool) (job_id kind payload : String) (now : Stamp) (es : List Event)
    → IsNumbered job_id 0 es
    → append_event (λ _ es. es) has_job job_id kind payload now es ≡ (
        if has_job
        then (
          appended (count job_id es),
          es ++ new_event (λ _ es. es) true job_id kind payload now (count job_id es) ∷ [],
        )
        else (gave_up, es))
unfolding append_event attempt
append_event_alone true job_id kind payload now es h =
    let seq : next_seq job_id es ≡ count job_id es = next_seq-count job_id es h in
    let free : is_taken job_id (count job_id es) es ≡ false =
      count-free job_id 0 es (count job_id es) h (omega arith) in
    rw (seq, free) refl
append_event_alone false job_id kind payload now es h = refl
