-- ===== src/Twins/Histories.antt =====
-- The history of a logical slot in src/hil_controller/twins.py: the assignments in the order in which they
-- were written.
use sbc_mcu_dut_controller.Prelude.{
  ℕ, String, Bool, true, false, ◌&&◌, Option, none, some, List, [], ◌∷◌, ◌++◌, map, ◌≡◌, refl, ◌∙◌,
  ap, sym, arith, ◌<◌, ◌≤◌, if◌then◌else◌, ltb, leb, find_first, select, length, if_ind,
  leb-false→lt, inl, inr, Bool-cases, is_null,
}
use sbc_mcu_dut_controller.Twins.Tables.{Assignment}
use sbc_mcu_dut_controller.Twins.Ingest.{too_early}

module _ {A : Type 0} where
  pub select-append :
      (p : A → Bool) (xs ys : List A) → select p (xs ++ ys) ≡ select p xs ++ select p ys
  select-append p [] ys = refl
  select-append p (x ∷ xs) ys = ground (arith, select-append p xs ys)

  pub select-map :
      (p : A → Bool) (f g : A → A)
      → ((x : A) → p (f x) ≡ p x)
      → ((x : A) → p x ≡ true → f x ≡ g x)
      → (xs : List A) → select p (map f xs) ≡ map g (select p xs)
  select-map p f g same image [] = refl
  select-map p f g same image (x ∷ xs) = elim (Bool-cases (p x)) [
    | inl there ↦
        rw (same x, there, image x there) (ap (◌∷◌ (g x)) (select-map p f g same image xs))
    | inr other ↦ rw (same x, other) (select-map p f g same image xs)
  ]

  pub find_first-select :
      (p q : A → Bool) (xs : List A) → find_first (λ x. p x && q x) xs ≡ find_first q (select p xs)
  find_first-select p q [] = refl
  find_first-select p q (x ∷ xs) = ground (arith, find_first-select p q xs)

-- The open end of an interval is later than any instant.
abbrev ends_after : ℕ → Option ℕ → Bool
ends_after now none = true
ends_after now (some n) = ltb now n

-- The twin of the row is in the slot at the instant.
abbrev pub occupies : ℕ → Assignment → Bool
occupies now a = leb a.assigned_at now && ends_after now a.ended_at

-- Each occupant but the last leaves when the next one comes, and the last one is there.
abbrev pub IsChain : List Assignment → Type 0
IsChain [] = Unit
IsChain (a ∷ []) = a.ended_at ≡ none
IsChain (a ∷ b ∷ rest) =
    (a.ended_at ≡ some b.assigned_at) × (a.assigned_at < b.assigned_at) × IsChain (b ∷ rest)

none_before :
    (now : ℕ) (a : Assignment) (rest : List Assignment)
    → IsChain (a ∷ rest)
    → now < a.assigned_at
    → select (occupies now) (a ∷ rest) ≡ []
none_before now a [] c early = ground arith
none_before now a (b ∷ rest) c early =
    let ih = none_before now b rest c.2 (omega (arith, c.1)) in ground arith

one_more :
    (p : Assignment → Bool) (a : Assignment) (rest : List Assignment)
    → select p rest ≡ []
    → length (select p (a ∷ rest)) ≤ 1
one_more p a rest e = ground (arith, e)

pub one_occupant :
    (now : ℕ) (as' : List Assignment) → IsChain as' → length (select (occupies now) as') ≤ 1
one_occupant now [] c = omega arith
one_occupant now (a ∷ []) c = ground arith
one_occupant now (a ∷ b ∷ rest) c = elim (Bool-cases (ltb now b.assigned_at)) [
  | inl before ↦ one_more (occupies now) a (b ∷ rest) (none_before now b rest c.2 (ground arith))
  | inr after ↦
      let until : ends_after now a.ended_at ≡ ltb now b.assigned_at = ap (ends_after now) c.0 in
      let gone : occupies now a ≡ false = ground arith in rw gone (one_occupant now (b ∷ rest) c.2)
]

-- The UPDATE on the rows of the slot.
abbrev pub shut : (at : ℕ) (observation_id : String) → Assignment → Assignment
shut at observation_id a =
    if is_null a.ended_at
    then record a { ended_at = some at; ended_by_observation = some observation_id }
    else a

abbrev pub is_present : Assignment → Bool
is_present a = is_null a.ended_at

IsChain-empty : (as' : List Assignment) → IsChain as' → find_first is_present as' ≡ none → as' ≡ []
IsChain-empty [] c h = refl
IsChain-empty (a ∷ []) c h = let e : is_present a ≡ true = ap is_null c in ground arith
IsChain-empty (a ∷ b ∷ rest) c h =
    let e : is_present a ≡ false = ap is_null c.0 in
    let ih = IsChain-empty (b ∷ rest) c.2 (ground arith) in cc

module _ (at : ℕ) (observation_id : String) where
  shut-assigned_at : (a : Assignment) → (shut at observation_id a).assigned_at ≡ a.assigned_at
  shut-assigned_at a =
      if_ind (λ (b : Assignment). b.assigned_at ≡ a.assigned_at) (is_present a) (λ _. refl)
        (λ _. refl)

  shut-closed : (a : Assignment) → is_present a ≡ false → shut at observation_id a ≡ a
  shut-closed a e = rw e refl

  abbrev start : Option Assignment → ℕ
  start none = 0
  start (some a) = a.assigned_at

  -- The last occupant leaves when the new one comes.
  longer-IsChain :
      (new : Assignment) (as' : List Assignment) (last : Assignment)
      → new.assigned_at ≡ at
      → new.ended_at ≡ none
      → IsChain as'
      → find_first is_present as' ≡ some last
      → last.assigned_at < at
      → IsChain (map (shut at observation_id) as' ++ new ∷ [])
  longer-IsChain new [] last n m c h l = cc
  longer-IsChain new (a ∷ []) last n m c h l =
      let e : is_present a ≡ true = ap is_null c in
      let k : some a ≡ some last = rw e at h in
      let same : a.assigned_at ≡ last.assigned_at = ap start k in
      rw e (ap some (sym n), omega (arith, n, same, l), m)
  longer-IsChain new (a ∷ b ∷ rest) last n m c h l =
      let e : is_present a ≡ false = ap is_null c.0 in
      let since = shut-assigned_at a in
      let until = shut-assigned_at b in
      (
        ap (λ (x : Assignment). x.ended_at) (shut-closed a e) ∙ (c.0 ∙ ap some (sym until)),
        omega (arith, c.1, since, until),
        longer-IsChain new (b ∷ rest) last n m c.2 (ground arith) l,
      )

  -- A slot's chain after the two statements of an assignment to it.
  pub assigned-IsChain :
      (new : Assignment) (as' : List Assignment) (last : Option Assignment)
      → new.assigned_at ≡ at
      → new.ended_at ≡ none
      → IsChain as'
      → find_first is_present as' ≡ last
      → too_early at last ≡ false
      → IsChain (map (shut at observation_id) as' ++ new ∷ [])
  assigned-IsChain new as' none n m c h l = rw (IsChain-empty as' c h) m
  assigned-IsChain new as' (some last) n m c h l =
      longer-IsChain new as' last n m c h (leb-false→lt at last.assigned_at l)
