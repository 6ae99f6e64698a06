-- ===== src/Jobs/Polled.antt =====
-- The events that a client of src/hil_controller/api/jobs.py gets by polling.
use mathlib.Core.Path.{subst}
use mathlib.Core.List.{append-nil, append_assoc}
use sbc_mcu_dut_controller.Prelude.{
  ℕ, suc, String, Option, none, some, List, [], ◌∷◌, ◌++◌, ◌≡◌, inl, refl, sym, ap, ◌∙◌, select,
}
use sbc_mcu_dut_controller.Store.{Job}
use sbc_mcu_dut_controller.Journal.{Event, get_events_since}
use sbc_mcu_dut_controller.Journal.Sequence.{mine, IsNumbered}
use sbc_mcu_dut_controller.Journal.Reading.{get_events_since-drop}
use sbc_mcu_dut_controller.Jobs.Cursor.{
  IsNumbered-Seqs, Extends, Extends-trans, IsCursor, IsCursor-Extends, up_to, up_to-Extends,
  answer-up_to,
}
use sbc_mcu_dut_controller.Jobs.{
  Reading, Reply, not_found, last_seq, wait_response, unless_empty, long_poll_wait, got_from,
  follow,
}

-- The events of the job at each reading: none is removed or renumbered, and more may be appended.
abbrev pub IsLog : String → List Event → List (Reading × Reading) → Type 0
IsLog job_id before [] = Unit
IsLog job_id before ((first, second) ∷ rs) =
    Extends before (select (mine job_id) first.events)
    × Extends (select (mine job_id) first.events) (select (mine job_id) second.events)
    × IsNumbered job_id 0 first.events
    × IsNumbered job_id 0 second.events
    × IsLog job_id (select (mine job_id) second.events) rs

-- The events of the job at the last reading.
abbrev pub log_at_end : String → List Event → List (Reading × Reading) → List Event
log_at_end job_id before [] = before
log_at_end job_id before ((first, second) ∷ rs) =
    log_at_end job_id (select (mine job_id) second.events) rs

module _ (job_id : String) where
  -- The client is at its new cursor after an answer that leaves the log at `ys`.
  abbrev Polled : (since : ℕ) (xs ys : List Event) → List Event × ℕ → Type 0
  Polled since xs ys (es, next) = (up_to since xs ++ es ≡ up_to next ys) × IsCursor next ys

  nothing-Polled :
      (since : ℕ) (xs ys : List Event)
      → Extends xs ys
      → IsCursor since xs
      → Polled since xs ys ([], since)
  nothing-Polled since xs ys grown cursor = (
    append-nil (up_to since xs) ∙ sym (up_to-Extends since xs ys grown cursor),
    IsCursor-Extends since xs ys grown cursor,
  )

  later-Polled :
      (since : ℕ) (xs ys zs : List Event) (r : List Event × ℕ)
      → Extends ys zs
      → Polled since xs ys r
      → Polled since xs zs r
  later-Polled since xs ys zs (es, next) more (same, cursor) =
      (same ∙ sym (up_to-Extends next ys zs more cursor), IsCursor-Extends next ys zs more cursor)

  module _ (since : ℕ) (xs : List Event) (cursor : IsCursor since xs) (first second : Reading)
      (grown : Extends xs (select (mine job_id) first.events))
      (more : Extends (select (mine job_id) first.events) (select (mine job_id) second.events))
      (numbered : IsNumbered job_id 0 first.events)
      (renumbered : IsNumbered job_id 0 second.events) where
    waited-Polled :
        (row : Option Job)
        → Polled since xs (select (mine job_id) second.events) (
            got_from since
              (wait_response since (get_events_since job_id (suc since) second.events) row))
    waited-Polled none = nothing-Polled since xs _ (Extends-trans xs _ _ grown more) cursor
    waited-Polled (some row) =
        rw (get_events_since-drop job_id (suc since) second.events renumbered) (
          answer-up_to since xs (select (mine job_id) second.events)
            (Extends-trans xs _ _ grown more) (IsNumbered-Seqs job_id 0 second.events renumbered)
            cursor)

    first-Polled :
        (row : Job) (es : List Event)
        → get_events_since job_id (suc since) first.events ≡ es
        → Polled since xs (select (mine job_id) second.events) (
            got_from since (
              unless_empty since es row (
                wait_response since
                  (get_events_since job_id (suc since) second.events)
                  second.row)))
    first-Polled row [] h = waited-Polled second.row
    first-Polled row (e ∷ es) h =
        later-Polled since xs (select (mine job_id) first.events) _ (e ∷ es, _) more
          (subst (λ l. Polled since xs (select (mine job_id) first.events) (l, last_seq since l))
            (sym (get_events_since-drop job_id (suc since) first.events numbered) ∙ h)
            (answer-up_to since xs (select (mine job_id) first.events) grown
              (IsNumbered-Seqs job_id 0 first.events numbered) cursor))

    long_poll_wait-Polled :
        Polled since xs
          (select (mine job_id) second.events)
          (got_from since (long_poll_wait job_id since first second))
    unfolding long_poll_wait
    long_poll_wait-Polled = of first.row
      where
        of :
            (row : Option Job)
            → Polled since xs (select (mine job_id) second.events) (
                got_from since (elim row as (λ _. Reply) [
                  | none ↦ not_found
                  | some row ↦
                      unless_empty since (get_events_since job_id (suc since) first.events) row (
                        wait_response since
                          (get_events_since job_id (suc since) second.events)
                          second.row)
                ]))
        of none = nothing-Polled since xs _ (Extends-trans xs _ _ grown more) cursor
        of (some row) = first-Polled row _ refl

  follow-from :
      (since : ℕ) (xs : List Event) (rs : List (Reading × Reading))
      → IsCursor since xs
      → IsLog job_id xs rs
      → up_to since xs ++ (follow job_id since rs).0
        ≡ up_to (follow job_id since rs).1 (log_at_end job_id xs rs)
  unfolding follow
  follow-from since xs [] cursor log = append-nil (up_to since xs)
  follow-from since xs ((first, second) ∷ rs) cursor (grown, more, numbered, renumbered, log) =
      let (es, next) = got_from since (long_poll_wait job_id since first second) in
      let (same, cursor') =
        long_poll_wait-Polled since xs cursor first second grown more numbered renumbered in
      sym (append_assoc (up_to since xs) es (follow job_id next rs).0)
      ∙ (ap (λ l. l ++ (follow job_id next rs).0) same
          ∙ follow-from next (select (mine job_id) second.events) rs cursor' log)

  -- A client that starts from 0 and passes each `next_since` to its next request gets the events of the
  -- job numbered 1, 2 and so on up to its last `next_since`, each once and in order, whenever they are
  -- appended, and whichever of its requests fail. The event numbered 0 it never gets.
  pub follow-up_to :
      (rs : List (Reading × Reading))
      → IsLog job_id [] rs
      → (follow job_id 0 rs).0 ≡ up_to (follow job_id 0 rs).1 (log_at_end job_id [] rs)
  follow-up_to rs log = follow-from 0 [] rs (inl refl) log
