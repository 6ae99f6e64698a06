-- ===== src/Twins/Newest.antt =====
-- The ports that src/hil_controller/twins.py keeps, and the order in which their observations arrive.
use sbc_mcu_dut_controller.Prelude.{
  String, Bool, true, false, ◌||◌, Option, none, some, List, [], ◌∷◌, ◌++◌, ◌≡◌, refl, ◌∙◌, ap, sym,
  if◌then◌else◌, str_eq, find_first, inl, inr, Bool-cases, eq_iff, &&-true,
}
use sbc_mcu_dut_controller.Twins.Tables.{TwinPort}
use sbc_mcu_dut_controller.Twins.Upserts.{is_newer, is_port, refreshed}
use sbc_mcu_dut_controller.Twins.Ports.{
  upserts, written, found_after, is_newer_trans, is_newer_asym, one-port, found, find_first-upserts,
}

-- One of the two observations is the newer, and the ports have one kind if they are one.
abbrev pub Ordered : TwinPort → TwinPort → Type 0
Ordered a b =
    ((is_newer a b || is_newer b a) ≡ true) × (is_port a.twin_id a.id b ≡ true → a.kind ≡ b.kind)

-- The row with the state of the observation.
abbrev state_of : TwinPort → TwinPort → TwinPort
state_of a r = record r {
  mode = a.mode;
  attributes_json = a.attributes_json;
  observed_at = a.observed_at;
  observation_id = a.observation_id;
}

-- Of two changes, each behind its test, the one that prevails is the same in both orders.
either_order :
    {A : Type 0} (ab ba ar br : Bool) (x y r : A)
    → (ar ≡ true → br ≡ false → ba ≡ false)
    → (br ≡ true → ar ≡ false → ab ≡ false)
    → (ab ≡ true → ba ≡ false)
    → (ab || ba) ≡ true
    → (if br then (if ab then x else y) else (if ar then x else r))
      ≡ (if ar then (if ba then y else x) else (if br then y else r))
either_order true true true true x y r p q asym total = let k = asym refl in cc
either_order true false true true x y r p q asym total = refl
either_order false true true true x y r p q asym total = refl
either_order false false true true x y r p q asym total = cc
either_order ab ba true false x y r p q asym total = rw (p refl refl) refl
either_order ab ba false true x y r p q asym total = rw (q refl refl) refl
either_order ab ba false false x y r p q asym total = refl

refreshed-state_of :
    (a b r : TwinPort)
    → refreshed a (state_of b r) ≡ (if is_newer a b then state_of a r else state_of b r)
unfolding is_newer
refreshed-state_of a b r = refl

refreshed-refreshed :
    (a b r : TwinPort)
    → refreshed a (refreshed b r) ≡ (
        if is_newer b r
        then (if is_newer a b then state_of a r else state_of b r)
        else (if is_newer a r then state_of a r else r))
refreshed-refreshed a b r = elim (Bool-cases (is_newer b r)) [
  | inl later ↦ rw later (refreshed-state_of a b r)
  | inr earlier ↦ rw earlier refl
]

-- What is not newer than a row is not newer than what is newer than the row.
not_newer : (a b r : TwinPort) → is_newer a r ≡ true → is_newer b r ≡ false → is_newer b a ≡ false
not_newer a b r h k = elim (Bool-cases (is_newer b a)) [
  | inl later ↦ let t = is_newer_trans b a r later h in cc
  | inr earlier ↦ earlier
]

refreshed_comm :
    (a b r : TwinPort)
    → (is_newer a b || is_newer b a) ≡ true
    → refreshed a (refreshed b r) ≡ refreshed b (refreshed a r)
refreshed_comm a b r total =
    refreshed-refreshed a b r
    ∙ (either_order (is_newer a b) (is_newer b a) (is_newer a r) (is_newer b r) (state_of a r)
          (state_of b r) r (not_newer a b r) (not_newer b a r) (is_newer_asym a b) total
        ∙ sym (refreshed-refreshed b a r))

state_of-same :
    (a b : TwinPort) → b.twin_id ≡ a.twin_id → b.id ≡ a.id → b.kind ≡ a.kind → state_of a b ≡ a
state_of-same a b t i k =
    ap (λ x. record a { twin_id = x; id = b.id; kind = b.kind }) t
    ∙ (ap (λ x. record a { id = x; kind = b.kind }) i ∙ ap (λ x. record a { kind = x }) k)

-- Two observations of one port, where no row was.
refreshed_fresh :
    (a b : TwinPort) → Ordered a b → is_port a.twin_id a.id b ≡ true → refreshed a b ≡ refreshed b a
refreshed_fresh a b (total, kinds) same =
    let (t, i) = &&-true (str_eq b.twin_id a.twin_id) (str_eq b.id a.id) same in
    let twin : b.twin_id ≡ a.twin_id = (eq_iff b.twin_id a.twin_id).0 t in
    let id : b.id ≡ a.id = (eq_iff b.id a.id).0 i in
    elim (Bool-cases (is_newer a b)) [
      | inl later ↦
          rw (later, is_newer_asym a b later) (state_of-same a b twin id (sym (kinds same)))
      | inr earlier ↦
          let later : is_newer b a ≡ true = rw earlier at total in
          rw (earlier, later) (sym (state_of-same b a (sym twin) (sym id) (kinds same)))
    ]

module _ (twin_id id : String) where
  found_after_comm :
      (a b : TwinPort) (o : Option TwinPort)
      → Ordered a b
      → found_after twin_id id a (found_after twin_id id b o)
        ≡ found_after twin_id id b (found_after twin_id id a o)
  found_after_comm a b o ordered = elim (Bool-cases (is_port twin_id id a)) [
    | inl here ↦ elim (Bool-cases (is_port twin_id id b)) [
      | inl there ↦ rw (here, there) (ap some (both o (one-port twin_id id a b there here)))
      | inr away ↦ rw (here, away) refl
    ]
    | inr away ↦ rw away refl
  ]
    where
      both :
          (o : Option TwinPort)
          → is_port a.twin_id a.id b ≡ true
          → written a (some (written b o)) ≡ written b (some (written a o))
      both none same = refreshed_fresh a b ordered same
      both (some r) same = refreshed_comm a b r ordered.0

  found-swap :
      (xs : List TwinPort) (a b : TwinPort) (ys : List TwinPort) (o : Option TwinPort)
      → Ordered a b
      → found twin_id id (xs ++ a ∷ b ∷ ys) o ≡ found twin_id id (xs ++ b ∷ a ∷ ys) o
  found-swap [] a b ys o h = ap (found twin_id id ys) (sym (found_after_comm a b o h))
  found-swap (x ∷ xs) a b ys o h = found-swap xs a b ys (found_after twin_id id x o) h

  -- Two neighbouring upserts, in whatever sequence of upserts, leave every port as they do in the other
  -- order, where one of the two observations is the newer (by its time, then by its id) and the ports
  -- have one kind if they are one port.
  pub upserts-swap :
      (xs : List TwinPort) (a b : TwinPort) (ys rows : List TwinPort)
      → Ordered a b
      → find_first (is_port twin_id id) (upserts (xs ++ a ∷ b ∷ ys) rows)
        ≡ find_first (is_port twin_id id) (upserts (xs ++ b ∷ a ∷ ys) rows)
  upserts-swap xs a b ys rows h =
      find_first-upserts twin_id id (xs ++ a ∷ b ∷ ys) rows
      ∙ (found-swap xs a b ys (find_first (is_port twin_id id) rows) h
          ∙ sym (find_first-upserts twin_id id (xs ++ b ∷ a ∷ ys) rows))
