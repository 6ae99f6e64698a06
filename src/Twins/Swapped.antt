-- ===== src/Twins/Swapped.antt =====
-- The slot of an observation that `ingest` of src/hil_controller/twins.py takes.
use mathlib.Core.Path.{subst}
use sbc_mcu_dut_controller.Prelude.{
  ℕ, String, Bool, true, false, Option, none, some, List, [], ◌∷◌, map, ◌≡◌, refl, ◌∙◌, ap, sym,
  arith, str_eq, find_first, find_first-append, if_ind, &&-true, inl, inr, Bool-cases, is_null,
  eq_iff, eq_refl,
}
use sbc_mcu_dut_controller.Prelude.Json.{Fields}
use sbc_mcu_dut_controller.Auth.{Principal}
use sbc_mcu_dut_controller.Twins.Tables.{
  Slot, Observation, TwinObservation, Assignment, Tables, Outcome, ok, M, raise_if, unless,
  kind_text,
}
use sbc_mcu_dut_controller.Twins.Ingest.{
  Answer, at_slot, is_current, ended, occupant, is_expected, new_assignment, assign_slot,
  observe_slot, is_observation, replay_or, ingest_new, ingest,
}
use sbc_mcu_dut_controller.Twins.Api.{observe}
use sbc_mcu_dut_controller.Twins.Replayed.{settle-ok, observe-refused, observe-ingest}
use sbc_mcu_dut_controller.Twins.Kept.{
  Keeps-create_twin, Keeps-observe_port, Keeps-observe_identity, Keeps-choose_twin,
}
use sbc_mcu_dut_controller.Twins.Keeps.{Gives, Gives-bind, Gives-then, Keeps-each}

-- The twin in the slot now.
abbrev pub occupant_of : Slot → Tables → Option String
occupant_of s t = occupant (find_first (is_current (kind_text s.kind) s.id) t.assignments)

no_current :
    (k i : String) (at : ℕ) (observation_id : String) (rows : List Assignment)
    → find_first (is_current k i) (map (ended k i at observation_id) rows) ≡ none
no_current k i at o [] = refl
no_current k i at o (a ∷ rows) =
    let ih = no_current k i at o rows in
    if_ind (λ (b : Assignment). find_first (is_current k i) (b ∷ map (ended k i at o) rows) ≡ none)
      (is_current k i a)
      (λ c. let (p, _) = &&-true (at_slot k i a) (is_null a.ended_at) c in rw p ih) (λ c. rw c ih)

expected-eq : (a : Option String) (b : String) → is_expected a (some b) ≡ true → a ≡ some b
expected-eq none b h = cc
expected-eq (some a) b h = ap some ((eq_iff a b).0 h)

raise_if-ok :
    {A : Type 0} (R : Outcome A × Tables → Type 0) (refused : Bool) (status : ℕ) (detail : String)
    (m : M A) (t : Tables) (a : A)
    → (raise_if refused status detail m t).0 ≡ ok a
    → (refused ≡ false → (m t).0 ≡ ok a → R (m t))
    → R (raise_if refused status detail m t)
unfolding raise_if
raise_if-ok R true status detail m t a h k = cc
raise_if-ok R false status detail m t a h k = k refl h

unless-ok :
    (R : Outcome Unit × Tables → Type 0) (done : Bool) (m : M Unit) (t : Tables) (a : Unit)
    → (unless done m t).0 ≡ ok a
    → (done ≡ true → R (ok tt, t))
    → (done ≡ false → (m t).0 ≡ ok a → R (m t))
    → R (unless done m t)
unfolding unless
unless-ok R true m t a h kt kf = kt refl
unless-ok R false m t a h kt kf = kf refl h

-- The slot changed hands as the observation asked.
abbrev pub Swapped : Slot → Option String → String → Tables → Type 0
Swapped s before twin_id t =
    (is_expected before s.expected_twin_id ≡ true) × (occupant_of s t ≡ some twin_id)

module _ (encoded : Fields → String) (payload : Observation → String) where
  module _ (twin_id : String) (at : ℕ) (observation_id : String) where
    assign_slot-Swapped :
        (s : Slot) (t : Tables) (a : Unit)
        → (assign_slot encoded twin_id at observation_id s t).0 ≡ ok a
        → Swapped s (occupant_of s t) twin_id (assign_slot encoded twin_id at observation_id s t).1
    unfolding assign_slot
    assign_slot-Swapped s t a h =
        raise_if-ok (λ r. R r.1) _ _ _ _ t a h
          λ _ h.
            raise_if-ok (λ r. R r.1) _ _ _ _ t a h
              λ expected h.
                unless-ok (λ r. R r.1) _ _ t a h
                  (λ there. (ground arith, expected-eq (occupant_of s t) twin_id there))
                  λ _ h.
                    raise_if-ok (λ r. R r.1) _ _ _ _ t a h
                      λ _ _.
                        let found : find_first (is_current k s.id) (new ∷ []) ≡ some new =
                          rw (eq_refl k, eq_refl s.id) refl in
                        (
                          ground arith,
                          ap occupant (
                              find_first-append (is_current k s.id) _ (new ∷ [])
                                (no_current k s.id at observation_id t.assignments)
                              ∙ found),
                        )
      where
        R : Tables → Type 0
        R = Swapped s (occupant_of s t) twin_id

        k : String
        k = kind_text s.kind

        new : Assignment
        new = new_assignment encoded twin_id at observation_id s

  ingest_new-Swapped :
      (actor fresh : String) (now : ℕ) (o : Observation) (s : Slot) (before : Option String)
      → o.slot ≡ some s
      → Gives
          (λ t. occupant_of s t ≡ before)
          (ingest_new encoded payload actor fresh now o)
          (λ a. Swapped s before a.twin_id)
  unfolding ingest_new
  ingest_new-Swapped actor fresh now o s before asked =
      Gives-bind Before (λ _. Before) R _ _
        (λ t p a h.
          Keeps-choose_twin Before (Keeps-create_twin Before (λ t rows h. h)) fresh o o.twin_id t p)
        λ id.
          Gives-then Before R _ _ (λ t p. p)
            (Gives-then Before R _ _
              (Keeps-each Before _ o.ports (
                Keeps-observe_port Before encoded id o.observed_at o.observation_id
                  (λ t rows h. h)))
              (Gives-then Before R _ _
                (Keeps-each Before _ o.identities (
                  Keeps-observe_identity Before encoded id o.observed_at o.observation_id
                    (λ t rows h. h)))
                (Gives-bind Before (λ _. Swapped s before id) R _ _
                  (subst
                    (λ x.
                      Gives Before (observe_slot encoded id o.observed_at o.observation_id x)
                        (λ _. Swapped s before id))
                    (sym asked)
                    λ t p a h.
                      subst
                        (λ b.
                          Swapped s b id
                            (assign_slot encoded id o.observed_at o.observation_id s t).1)
                        p (assign_slot-Swapped id o.observed_at o.observation_id s t a h))
                  (λ _ t p a h. let e : id ≡ a.twin_id = cc in (p.0, p.1 ∙ ap some e)))))
    where
      Before : Tables → Type 0
      Before t = occupant_of s t ≡ before

      R : Answer → Tables → Type 0
      R a = Swapped s before a.twin_id

  ingest-Swapped :
      (actor fresh : String) (now : ℕ) (o : Observation) (s : Slot) (t : Tables) (a : Answer)
      → o.slot ≡ some s
      → (ingest encoded payload actor fresh now o t).0 ≡ ok a
      → a.replayed ≡ false
      → Swapped s (occupant_of s t) a.twin_id (ingest encoded payload actor fresh now o t).1
  unfolding ingest raise_if
  ingest-Swapped actor fresh now o s t a asked =
      of (find_first (is_observation o.observation_id) t.observations)
    where
      m : Option TwinObservation → M Answer
      m r = replay_or encoded payload o r (ingest_new encoded payload actor fresh now o)

      of :
          (r : Option TwinObservation)
          → (m r t).0 ≡ ok a
          → a.replayed ≡ false
          → Swapped s (occupant_of s t) a.twin_id (m r t).1
      of none h new = ingest_new-Swapped actor fresh now o s (occupant_of s t) asked t refl a h
      of (some row) h new = elim (Bool-cases (str_eq row.payload_json (payload o))) [
        | inl same ↦ let k = rw same at h in cc
        | inr other ↦ let k = rw other at h in cc
      ]

  -- Where an observation with a slot is taken, and not as a replay, the slot's occupant was the one that
  -- it expects (none, or a twin), and is now the twin of the answer.
  pub observe-Swapped :
      (p : Principal) (fresh : String) (now : ℕ) (o : Observation) (s : Slot) (t : Tables)
      (a : Answer)
      → o.slot ≡ some s
      → (observe encoded payload p fresh now o t).0 ≡ ok a
      → a.replayed ≡ false
      → Swapped s (occupant_of s t) a.twin_id (observe encoded payload p fresh now o t).1
  observe-Swapped p fresh now o s t a asked h new =
      let granted = observe-refused encoded payload p fresh now o t a h in
      let once = observe-ingest encoded payload p fresh now o t granted in
      let (done, same) =
        settle-ok t (ingest encoded payload p.subject fresh now o t) a
          (ap (λ r. r.0) (sym once) ∙ h) in
      rw (once, same) (ingest-Swapped p.subject fresh now o s t a asked done new)
