-- ===== src/Twins/Replayed.antt =====
-- An observation sent again to `ingest` of src/hil_controller/twins.py.
use sbc_mcu_dut_controller.Prelude.{
  ℕ, String, Bool, true, false, Option, none, some, List, [], ◌∷◌, ◌++◌, ◌≡◌, refl, sym, ap, ◌∙◌,
  arith, str_eq, find_first, eq_refl, eq_iff, inl, inr, Bool-cases, find_first-append,
}
use sbc_mcu_dut_controller.Prelude.Json.{Fields}
use sbc_mcu_dut_controller.Auth.{Principal}
use sbc_mcu_dut_controller.Twins.Tables.{
  Observation, TwinObservation, Tables, Outcome, ok, raise, ◌>>=◌, raise_if,
}
use sbc_mcu_dut_controller.Twins.Ingest.{
  Answer, is_observation, replay, replay_or, observation_row, ingest_new, ingest,
}
use sbc_mcu_dut_controller.Twins.Api.{is_refused, authorize, settle, observe, Request, serve}
use sbc_mcu_dut_controller.Twins.Kept.{
  Keeps-choose_twin, Keeps-observe_slot, Keeps-create_twin, Keeps-observe_port,
  Keeps-observe_identity, Keeps-assign_slot, Keeps-connect, Keeps-close, Keeps-serve,
}
use sbc_mcu_dut_controller.Twins.Keeps.{Gives, Gives-bind, Gives-then, Keeps-each}

find_first-append_some :
    {A : Type 0} (p : A → Bool) (xs ys : List A) (x : A)
    → find_first p xs ≡ some x
    → find_first p (xs ++ ys) ≡ some x
find_first-append_some p [] ys x h = cc
find_first-append_some p (z ∷ xs) ys x h = ground (arith, find_first-append_some p xs ys x)

-- The row of the observation with the id.
abbrev Recorded : String → TwinObservation → Tables → Type 0
Recorded id row t = find_first (is_observation id) t.observations ≡ some row

pub settle-ok :
    {A : Type 0} (t : Tables) (r : Outcome A × Tables) (a : A)
    → (settle t r).0 ≡ ok a
    → (r.0 ≡ ok a) × (settle t r ≡ r)
settle-ok t (ok a', t') a h = (h, refl)
settle-ok t (raise e, t') a h = cc

module _ (encoded : Fields → String) (payload : Observation → String) where
  -- No later request removes or changes an observation.
  serve-Recorded :
      (id : String) (row : TwinObservation) (rs : List Request) (t : Tables)
      → Recorded id row t
      → Recorded id row (serve encoded payload rs t)
  serve-Recorded id row =
      Keeps-serve encoded payload (Recorded id row)
        (Keeps-create_twin (Recorded id row) (λ t rows h. h))
        (λ actor now o twin_id t h.
          find_first-append_some (is_observation id) t.observations _ row h)
        (λ twin_id at o. Keeps-observe_port (Recorded id row) encoded twin_id at o (λ t rows h. h))
        (λ twin_id at o.
          Keeps-observe_identity (Recorded id row) encoded twin_id at o (λ t rows h. h))
        (λ twin_id at o. Keeps-assign_slot (Recorded id row) encoded twin_id at o (λ t rows h. h))
        (Keeps-connect (Recorded id row) (λ t rows h. h) encoded)
        (Keeps-close (Recorded id row) (λ t rows h. h))

  -- The recorded row of an observation that a request answered.
  abbrev Answered : Observation → Answer → Tables → Type 0
  Answered o a t =
      (row : TwinObservation) × Recorded o.observation_id row t
      × (row.twin_id ≡ a.twin_id)
      × (row.payload_json ≡ payload o)

  ingest_new-Answered :
      (actor fresh : String) (now : ℕ) (o : Observation)
      → Gives
          (λ t. find_first (is_observation o.observation_id) t.observations ≡ none)
          (ingest_new encoded payload actor fresh now o)
          (Answered o)
  unfolding ingest_new
  ingest_new-Answered actor fresh now o =
      Gives-bind Absent (λ _. Absent) (Answered o) _ _
        (λ t p a h.
          Keeps-choose_twin Absent (Keeps-create_twin Absent (λ t rows h. h)) fresh o o.twin_id t p)
        λ id.
          Gives-bind Absent (λ _. Kept id) (Answered o) _ _
            (λ t p a h.
              find_first-append (is_observation o.observation_id) t.observations (row id ∷ []) p
              ∙ rw (eq_refl o.observation_id) refl)
            (λ _.
              Gives-then (Kept id) (Answered o) _ _
                (Keeps-each (Kept id) _ o.ports (
                  Keeps-observe_port (Kept id) encoded id o.observed_at o.observation_id
                    (λ t rows h. h)))
                (Gives-then (Kept id) (Answered o) _ _
                  (Keeps-each (Kept id) _ o.identities (
                    Keeps-observe_identity (Kept id) encoded id o.observed_at o.observation_id
                      (λ t rows h. h)))
                  (Gives-then (Kept id) (Answered o) _ _
                    (Keeps-observe_slot encoded (Kept id) id o.observed_at o.observation_id
                      (Keeps-assign_slot (Kept id) encoded id o.observed_at o.observation_id
                        (λ t rows h. h))
                      o.slot)
                    (λ t p a h. (row id, p, cc, refl)))))
    where
      Absent : Tables → Type 0
      Absent t = find_first (is_observation o.observation_id) t.observations ≡ none

      row : String → TwinObservation
      row id = observation_row payload actor now o id

      Kept : String → Tables → Type 0
      Kept id = Recorded o.observation_id (row id)

  replay-twin :
      (o : Observation) (row : TwinObservation) (t : Tables) (a : Answer)
      → str_eq row.payload_json (payload o) ≡ true
      → (replay encoded payload o row t).0 ≡ ok a
      → row.twin_id ≡ a.twin_id
  unfolding raise_if
  replay-twin o row t a same h = let k = rw same at h in cc

  ingest-Answered :
      (actor fresh : String) (now : ℕ) (o : Observation)
      → Gives (λ _. Unit) (ingest encoded payload actor fresh now o) (Answered o)
  unfolding ingest raise_if
  ingest-Answered actor fresh now o t _ a =
      of (find_first (is_observation o.observation_id) t.observations) refl
    where
      of :
          (r : Option TwinObservation)
          → find_first (is_observation o.observation_id) t.observations ≡ r
          → (replay_or encoded payload o r (ingest_new encoded payload actor fresh now o) t).0
            ≡ ok a
          → Answered o a
              (replay_or encoded payload o r (ingest_new encoded payload actor fresh now o) t).1
      of none e h = ingest_new-Answered actor fresh now o t e a h
      of (some row) e h = elim (Bool-cases (str_eq row.payload_json (payload o))) [
        | inl same ↦
            let k = replay-twin o row t a same h in
            rw same (row, e, k, (eq_iff row.payload_json (payload o)).0 same)
        | inr other ↦ let k = rw other at h in cc
      ]

  Recorded-replay :
      (actor fresh : String) (now : ℕ) (o : Observation) (a : Answer) (t : Tables)
      → Answered o a t
      → ingest encoded payload actor fresh now o t ≡ (
        ok (record { twin_id = a.twin_id; observation_id = o.observation_id; replayed = true }),
        t,
      )
  unfolding ingest raise_if
  Recorded-replay actor fresh now o a t (row, found, same, body) =
      rw (found, body, eq_refl (payload o), same) refl

  pub observe-refused :
      (p : Principal) (fresh : String) (now : ℕ) (o : Observation) (t : Tables) (a : Answer)
      → (observe encoded payload p fresh now o t).0 ≡ ok a
      → is_refused p true ≡ false
  unfolding observe authorize ◌>>=◌ raise_if
  observe-refused p fresh now o t a h = elim (Bool-cases (is_refused p true)) [
    | inl refused ↦ let k = rw refused at h in cc
    | inr granted ↦ granted
  ]

  pub observe-ingest :
      (p : Principal) (fresh : String) (now : ℕ) (o : Observation) (t : Tables)
      → is_refused p true ≡ false
      → observe encoded payload p fresh now o t
        ≡ settle t (ingest encoded payload p.subject fresh now o t)
  unfolding observe authorize ◌>>=◌ raise_if
  observe-ingest p fresh now o t granted = rw granted refl

  -- An observation that was taken is answered as replayed from then on, by the same twin and with no
  -- change to the tables, whatever requests were served in between.
  pub observe-observe :
      (p : Principal) (fresh : String) (now : ℕ) (o : Observation) (t : Tables) (a : Answer)
      (between : List Request) (fresh' : String) (now' : ℕ)
      → (observe encoded payload p fresh now o t).0 ≡ ok a
      → let t' : Tables =
          serve encoded payload between (observe encoded payload p fresh now o t).1 in
        observe encoded payload p fresh' now' o t' ≡ (
          ok (record { twin_id = a.twin_id; observation_id = o.observation_id; replayed = true }),
          t',
        )
  unfolding observe ◌>>=◌
  observe-observe p fresh now o t a between fresh' now' h =
      let granted = observe-refused p fresh now o t a h in
      let once = observe-ingest p fresh now o t granted in
      let (done, same) =
        settle-ok t (ingest encoded payload p.subject fresh now o t) a
          (ap (λ r. r.0) (sym once) ∙ h) in
      let (row, found, twin, body) = ingest-Answered p.subject fresh now o t tt a done in
      let later : Tables =
        serve encoded payload between (ingest encoded payload p.subject fresh now o t).1 in
      let kept = serve-Recorded o.observation_id row between _ found in
      rw (once, same)
        (observe-ingest p fresh' now' o later granted
          ∙ ap (settle later)
              (Recorded-replay p.subject fresh' now' o a later (row, kept, twin, body)))
