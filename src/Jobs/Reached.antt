-- ===== src/Jobs/Reached.antt =====
-- How far a request of src/hil_controller/api/jobs.py brings its client.
use sbc_mcu_dut_controller.Prelude.{
  take, ◌∙◌, ◌++◌, ℕ, zero, suc, ◌≤◌, String, false, Option, none, some, List, [], ◌∷◌, ◌≡◌, inl,
  inr, refl, sym, ap, ◌∙◌, arith, select, length, drop, length-append, is_null, All,
}
use sbc_mcu_dut_controller.Store.{Job}
use sbc_mcu_dut_controller.Journal.{Event, get_events_since}
use sbc_mcu_dut_controller.Journal.Sequence.{mine, IsNumbered}
use sbc_mcu_dut_controller.Journal.Reading.{get_events_since-drop}
use sbc_mcu_dut_controller.Jobs.Cursor.{IsNumbered-Seqs, last_seq-drop, Extends, up_to}
use sbc_mcu_dut_controller.Jobs.{
  Reading, Reply, not_found, last_seq, wait_response, unless_empty, long_poll_wait, got_from,
  follow,
}
use sbc_mcu_dut_controller.Jobs.Polled.{IsLog, log_at_end, follow-up_to}

drop-nil-le : {A : Type 0} (k : ℕ) (xs : List A) → drop k xs ≡ [] → length xs ≤ k
drop-nil-le zero [] h = omega arith
drop-nil-le zero (x ∷ xs) h = cc
drop-nil-le (suc k) [] h = omega arith
drop-nil-le (suc k) (x ∷ xs) h = let ih = drop-nil-le k xs h in omega (arith, ih)

take-beyond : (n : ℕ) (xs ys : List Event) → length xs ≤ n → Extends xs (take n (xs ++ ys))
take-beyond n [] ys h = (take n ys, refl)
take-beyond zero (x ∷ xs) ys h = absurd (omega arith)
take-beyond (suc n) (x ∷ xs) ys h =
    let (more, e) = take-beyond n xs ys (omega arith) in (more, ap (◌∷◌ x) e)

up_to-after :
    (c : ℕ) (xs ys : List Event) → length xs ≤ suc c → Extends (drop 1 xs) (up_to c (xs ++ ys))
up_to-after c [] ys h = (up_to c ys, refl)
up_to-after c (x ∷ xs) ys h = take-beyond c xs ys (omega arith)

-- The row of the job is there at both readings of each request.
abbrev pub IsThere : List (Reading × Reading) → Type 0
IsThere rs = All (λ r. (is_null r.0.row ≡ false) × (is_null r.1.row ≡ false)) rs

-- The first reading of the last request
abbrev pub last_request : Reading → List (Reading × Reading) → Reading
last_request first [] = first
last_request first ((next, waited) ∷ rs) = last_request next rs

module _ (job_id : String) where
  abbrev own : Reading → List Event
  own r = select (mine job_id) r.events

  -- The cursor is at the last event of the list or beyond it.
  abbrev Reaches : List Event → ℕ → Type 0
  Reaches xs next = length xs ≤ suc next

  answer-Reaches :
      (since : ℕ) (r : Reading)
      → IsNumbered job_id 0 r.events
      → Reaches (own r) (last_seq since (drop (suc since) (own r)))
  answer-Reaches since r numbered =
      elim (last_seq-drop 0 (suc since) since (own r)
        (IsNumbered-Seqs job_id 0 r.events numbered)) [
          | inl nothing ↦
              let few = drop-nil-le (suc since) (own r) nothing in
              let e : last_seq since (drop (suc since) (own r)) ≡ since =
                ap (last_seq since) nothing in
              omega (arith, few, e)
          | inr last ↦ omega (arith, last)
        ]

  module _ (since : ℕ) (first second : Reading) (more : Extends (own first) (own second))
      (numbered : IsNumbered job_id 0 first.events)
      (renumbered : IsNumbered job_id 0 second.events) where
    waited-Reaches :
        (row : Option Job)
        → is_null row ≡ false
        → Reaches
            (own first)
            (got_from since
              (wait_response since (get_events_since job_id (suc since) second.events) row)).1
    waited-Reaches none h = cc
    waited-Reaches (some row) h =
        let there = answer-Reaches since second renumbered in
        let grown = length-append (own first) more.0 in
        let size = ap (λ (l : List Event). length l) more.1 in
        let same =
          ap (last_seq since) (get_events_since-drop job_id (suc since) second.events renumbered) in
        omega (arith, there, grown, size, same)

    first-Reaches :
        (row : Job) (es : List Event)
        → get_events_since job_id (suc since) first.events ≡ es
        → is_null second.row ≡ false
        → Reaches
            (own first)
            (got_from since (
              unless_empty since es row (
                wait_response since
                  (get_events_since job_id (suc since) second.events)
                  second.row))).1
    first-Reaches row [] h there = waited-Reaches second.row there
    first-Reaches row (e ∷ es) h there =
        let reached = answer-Reaches since first numbered in
        let same =
          ap (last_seq since)
            (sym (get_events_since-drop job_id (suc since) first.events numbered) ∙ h) in
        omega (arith, reached, same)

    long_poll_wait-Reaches :
        is_null first.row ≡ false
        → is_null second.row ≡ false
        → Reaches (own first) (got_from since (long_poll_wait job_id since first second)).1
    unfolding long_poll_wait
    long_poll_wait-Reaches = of first.row
      where
        of :
            (row : Option Job)
            → is_null row ≡ false
            → is_null second.row ≡ false
            → Reaches
                (own first)
                (got_from since (elim row as (λ _. Reply) [
                  | none ↦ not_found
                  | some row ↦
                      unless_empty since (get_events_since job_id (suc since) first.events) row (
                        wait_response since
                          (get_events_since job_id (suc since) second.events)
                          second.row)
                ])).1
        of none h there = cc
        of (some row) h there = first-Reaches row _ refl there

  follow-Reaches :
      (since : ℕ) (before : List Event) (first second : Reading) (rs : List (Reading × Reading))
      → IsLog job_id before ((first, second) ∷ rs)
      → IsThere ((first, second) ∷ rs)
      → length (select (mine job_id) (last_request first rs).events)
        ≤ suc (follow job_id since ((first, second) ∷ rs)).1
  unfolding follow
  follow-Reaches since before first second [] (grown, more, numbered, renumbered, log) there =
      long_poll_wait-Reaches since first second more numbered renumbered there.0.0 there.0.1
  follow-Reaches since before first second ((next, waited) ∷ rs) (g, m, n, r, log) there =
      follow-Reaches (got_from since (long_poll_wait job_id since first second)).1 (own second) next
        waited rs log there.1

  log_at_end-Extends :
      (before : List Event) (first second : Reading) (rs : List (Reading × Reading))
      → IsLog job_id before ((first, second) ∷ rs)
      → Extends (own (last_request first rs)) (log_at_end job_id before ((first, second) ∷ rs))
  log_at_end-Extends before first second [] (g, more, n, r, log) = more
  log_at_end-Extends before first second ((next, waited) ∷ rs) (g, m, n, r, log) =
      log_at_end-Extends (own second) next waited rs log

  -- Where the job's row is there, a client that starts from 0 has got, after its last request, every
  -- event of the job that was there when the request came in, but for the one numbered 0: they are, in
  -- order, the beginning of what it has got.
  pub follow-Extends :
      (first second : Reading) (rs : List (Reading × Reading))
      → IsLog job_id [] ((first, second) ∷ rs)
      → IsThere ((first, second) ∷ rs)
      → Extends
          (drop 1 (select (mine job_id) (last_request first rs).events))
          (follow job_id 0 ((first, second) ∷ rs)).0
  follow-Extends first second rs log there =
      let (more, e) = log_at_end-Extends [] first second rs log in
      let c : ℕ = (follow job_id 0 ((first, second) ∷ rs)).1 in
      let (later, k) =
        up_to-after c (own (last_request first rs)) more
          (follow-Reaches 0 [] first second rs log there) in
      (later, follow-up_to job_id ((first, second) ∷ rs) log ∙ ap (up_to c) e ∙ k)
