-- ===== src/Twins/Occupied.antt =====
-- The occupants of the logical slots that src/hil_controller/twins.py writes.
use mathlib.Core.Path.{subst₂}
use mathlib.Core.List.{map-id, append-nil}
use sbc_mcu_dut_controller.Prelude.{
  ℕ, String, true, false, ◌&&◌, none, List, [], ◌∷◌, ◌++◌, map, ◌≡◌, refl, ◌∙◌, ap, sym, ◌≤◌,
  str_eq, find_first, select, length, if_ind, &&-true, str_eq_comm, inl, inr, Bool-cases, eq_iff,
  eq_refl,
}
use sbc_mcu_dut_controller.Prelude.Json.{Fields}
use sbc_mcu_dut_controller.Twins.Tables.{Slot, Observation, Assignment, Tables, kind_text}
use sbc_mcu_dut_controller.Twins.Ingest.{
  at_slot, is_current, ended, too_early, new_assignment, assign_slot,
}
use sbc_mcu_dut_controller.Twins.Api.{Request, serve}
use sbc_mcu_dut_controller.Twins.Kept.{
  Keeps-create_twin, Keeps-observe_port, Keeps-observe_identity, Keeps-connect, Keeps-close,
  Keeps-serve,
}
use sbc_mcu_dut_controller.Twins.Keeps.{Keeps, raise_if-holds, unless-holds}
use sbc_mcu_dut_controller.Twins.Histories.{
  select-append, select-map, find_first-select, occupies, IsChain, one_occupant, shut, is_present,
  assigned-IsChain,
}

-- Every slot's rows, in their order, are a history.
abbrev pub HasHistories : Tables → Type 0
HasHistories t = (kind id : String) → IsChain (select (at_slot kind id) t.assignments)

module _ (encoded : Fields → String) (twin_id : String) (at : ℕ) (observation_id : String) where
  ended-at_slot :
      (k i kind id : String) (a : Assignment)
      → at_slot kind id (ended k i at observation_id a) ≡ at_slot kind id a
  ended-at_slot k i kind id a =
      if_ind (λ (b : Assignment). at_slot kind id b ≡ at_slot kind id a) (is_current k i a)
        (λ _. refl) (λ _. refl)

  ended-shut :
      (k i : String) (a : Assignment)
      → at_slot k i a ≡ true
      → ended k i at observation_id a ≡ shut at observation_id a
  ended-shut k i a there = rw there refl

  ended-other :
      (k i kind id : String) (a : Assignment)
      → (str_eq k kind && str_eq i id) ≡ false
      → at_slot kind id a ≡ true
      → ended k i at observation_id a ≡ a
  ended-other k i kind id a other there =
      let (p, q) = &&-true (str_eq a.slot_kind kind) (str_eq a.slot_id id) there in
      let same : at_slot k i a ≡ (str_eq kind k && str_eq id i) =
        ap (λ x. str_eq x k && str_eq a.slot_id i) ((eq_iff a.slot_kind kind).0 p)
        ∙ ap (λ y. str_eq kind k && str_eq y i) ((eq_iff a.slot_id id).0 q) in
      rw (same, str_eq_comm kind k, str_eq_comm id i, other) refl

  history-here :
      (k i : String) (new : Assignment) (rows : List Assignment)
      → at_slot k i new ≡ true
      → new.assigned_at ≡ at
      → new.ended_at ≡ none
      → too_early at (find_first (is_current k i) rows) ≡ false
      → IsChain (select (at_slot k i) rows)
      → IsChain (select (at_slot k i) (map (ended k i at observation_id) rows ++ new ∷ []))
  history-here k i new rows there n m late c =
      rw
        (
          select-append (at_slot k i) (map (ended k i at observation_id) rows) (new ∷ []),
          there,
          select-map (at_slot k i) (ended k i at observation_id) (shut at observation_id)
              (ended-at_slot k i k i) (ended-shut k i) rows,
        )
        (assigned-IsChain at observation_id new (select (at_slot k i) rows) _ n m c
          (sym (find_first-select (at_slot k i) is_present rows)) late)

  history-elsewhere :
      (k i kind id : String) (new : Assignment) (rows : List Assignment)
      → at_slot kind id new ≡ false
      → (str_eq k kind && str_eq i id) ≡ false
      → select (at_slot kind id) (map (ended k i at observation_id) rows ++ new ∷ [])
        ≡ select (at_slot kind id) rows
  history-elsewhere k i kind id new rows away other =
      rw
        (
          select-append (at_slot kind id) (map (ended k i at observation_id) rows) (new ∷ []),
          away,
          select-map (at_slot kind id) (ended k i at observation_id) (λ a. a)
              (ended-at_slot k i kind id) (λ a there. ended-other k i kind id a other there) rows,
          map-id (select (at_slot kind id) rows),
        )
        (append-nil (select (at_slot kind id) rows))

  assign_slot-HasHistories :
      (s : Slot) → Keeps HasHistories (assign_slot encoded twin_id at observation_id s)
  unfolding assign_slot
  assign_slot-HasHistories s t c = raise_if-holds HasHistories _ _ _ _ t c λ _.
      raise_if-holds HasHistories _ _ _ _ t c λ _. unless-holds HasHistories _ _ t c λ _.
        raise_if-holds HasHistories _ _ _ _ t c λ late kind id.
          elim (Bool-cases (str_eq (kind_text s.kind) kind && str_eq s.id id)) [
            | inl same ↦
                let (p, q) = &&-true (str_eq (kind_text s.kind) kind) (str_eq s.id id) same in
                subst₂
                  (λ x y. IsChain (
                    select (at_slot x y) (
                      map (ended (kind_text s.kind) s.id at observation_id) t.assignments
                      ++ new_assignment encoded twin_id at observation_id s ∷ [])))
                  ((eq_iff (kind_text s.kind) kind).0 p) ((eq_iff s.id id).0 q)
                  (history-here (kind_text s.kind) s.id
                    (new_assignment encoded twin_id at observation_id s) t.assignments
                    (rw (eq_refl (kind_text s.kind), eq_refl s.id) refl) refl refl late
                    (c (kind_text s.kind) s.id))
            | inr other ↦
                rw
                  (history-elsewhere (kind_text s.kind) s.id kind id
                    (new_assignment encoded twin_id at observation_id s) t.assignments other other)
                  (c kind id)
          ]

module _ (encoded : Fields → String) (payload : Observation → String) where
  serve-HasHistories :
      (rs : List Request) (t : Tables) → HasHistories t → HasHistories (serve encoded payload rs t)
  serve-HasHistories =
      Keeps-serve encoded payload HasHistories (Keeps-create_twin HasHistories (λ t rows h. h))
        (λ actor now o twin_id t h. h)
        (λ twin_id at o. Keeps-observe_port HasHistories encoded twin_id at o (λ t rows h. h))
        (λ twin_id at o. Keeps-observe_identity HasHistories encoded twin_id at o (λ t rows h. h))
        (assign_slot-HasHistories encoded) (Keeps-connect HasHistories (λ t rows h. h) encoded)
        (Keeps-close HasHistories (λ t rows h. h))

  -- Whatever requests are served, from tables where each slot's rows are such a history (one row open,
  -- each earlier one ended when the next was assigned), at no instant are two twins in a slot.
  pub serve-one_occupant :
      (rs : List Request) (t : Tables) (kind id : String) (now : ℕ)
      → HasHistories t
      → length (
          select (occupies now) (select (at_slot kind id) (serve encoded payload rs t).assignments))
        ≤ 1
  serve-one_occupant rs t kind id now h = one_occupant now _ (serve-HasHistories rs t h kind id)
