-- ===== src/Bisect/Window.antt =====
-- `select_window` of bisect.py: the window holds the two refs at the places that it reports.
use sbc_mcu_dut_controller.Prelude.{
  ℕ, suc, ◌+◌, ◌-◌, ◌≤◌, ◌<◌, String, Bool, true, false, Option, none, some, List, [], ◌∷◌, ◌≡◌,
  refl, ◌∙◌, ◌⊎◌, inl, inr, arith, if◌then◌else◌, leb, str_eq, get_elem?, get_elem?-take,
  get_elem?-drop, take, drop, length, length-take-le, length-drop-le, Bool-cases,
}
use sbc_mcu_dut_controller.Bisect.Version.{Key, version_key}
use sbc_mcu_dut_controller.Bisect.Releases.{
  Release, key_eq, last_index, first_index, find_ref, Selection, cut_window, select_window,
}

pub select_window-cut :
    (releases : List Release) (working_ref broken_ref : String) (sel : Selection)
    → select_window releases working_ref broken_ref ≡ some sel
    → (wi : ℕ) × (bi : ℕ) × (find_ref releases working_ref ≡ some wi)
      × (find_ref releases broken_ref ≡ some bi)
      × (sel ≡ cut_window releases wi bi)
unfolding select_window
select_window-cut releases working_ref broken_ref sel =
    of (find_ref releases working_ref) (find_ref releases broken_ref)
  where
    of :
        (w b : Option ℕ)
        → elim w as (λ _. Option Selection) [
          | none ↦ none
          | some wi ↦ elim b as (λ _. Option Selection) [
            | none ↦ none
            | some bi ↦ some (cut_window releases wi bi)
          ]
        ]
          ≡ some sel
        → (wi : ℕ) × (bi : ℕ) × (w ≡ some wi) × (b ≡ some bi) × (sel ≡ cut_window releases wi bi)
    of none b e = cc
    of (some wi) none e = cc
    of (some wi) (some bi) e = (wi, bi, refl, refl, cc)

length-window-le :
    (releases : List Release) (wi bi : ℕ)
    → length (cut_window releases wi bi).window ≤ length releases
length-window-le releases wi bi =
    let lo : ℕ = if leb wi bi then wi else bi in
    let hi : ℕ = if leb wi bi then bi else wi in
    omega (arith, length-take-le (hi + 1 - lo) (drop lo releases), length-drop-le lo releases)

-- The window and the releases agree at the two refs.
cut_window-ends :
    (releases : List Release) (wi bi : ℕ)
    → let sel : Selection = cut_window releases wi bi in
      (get_elem? sel.window sel.working_idx ≡ get_elem? releases wi)
      × (get_elem? sel.window sel.broken_idx ≡ get_elem? releases bi)
cut_window-ends releases wi bi = elim (Bool-cases (leb wi bi)) [
  | inl le ↦
      let h : wi ≤ bi = ground arith in
      rw (le) (
        at (bi + 1 - wi) wi wi (omega arith) (omega arith),
        at (bi + 1 - wi) wi bi (omega arith) (omega arith),
      )
  | inr gt ↦
      let h : bi ≤ wi = ground arith in
      rw (gt) (
        at (wi + 1 - bi) bi wi (omega arith) (omega arith),
        at (wi + 1 - bi) bi bi (omega arith) (omega arith),
      )
]
  where
    at :
        (n lo i : ℕ)
        → lo ≤ i
        → i - lo < n
        → get_elem? (take n (drop lo releases)) (i - lo) ≡ get_elem? releases i
    at n lo i le lt =
        let e : lo + (i - lo) ≡ i = omega arith in
        get_elem?-take n (drop lo releases) (i - lo) lt ∙ get_elem?-drop lo releases (i - lo) ∙ rw e

-- The row at `j`, counted from `i`, is there and satisfies the test.
abbrev At : (Release → Bool) → ℕ → List Release → ℕ → Type 0
At p i rs j = (x : Release) × (i ≤ j) × (get_elem? rs (j - i) ≡ some x) × (p x ≡ true)

At-cons :
    (p : Release → Bool) (i : ℕ) (r : Release) (rs : List Release) (j : ℕ)
    → At p (suc i) rs j
    → At p i (r ∷ rs) j
At-cons p i r rs j (x, le, at, px) =
    let e : j - i ≡ suc (j - suc i) = omega arith in (x, omega arith, rw e at, px)

At-here :
    (p : Release → Bool) (i : ℕ) (r : Release) (rs : List Release) → p r ≡ true → At p i (r ∷ rs) i
At-here p i r rs pr = let e : i - i ≡ 0 = omega arith in (r, omega arith, rw e refl, pr)

last_index-At :
    (p : Release → Bool) (i : ℕ) (rs : List Release) (j : ℕ)
    → last_index p i rs ≡ some j
    → At p i rs j
unfolding last_index
last_index-At p i [] j = λ e. cc
last_index-At p i (r ∷ rs) j =
    of (last_index p (suc i) rs) (p r) refl (last_index-At p (suc i) rs j)
  where
    of :
        (o : Option ℕ) (b : Bool)
        → p r ≡ b
        → (o ≡ some j → At p (suc i) rs j)
        → elim o as (λ _. Option ℕ) [ some k ↦ some k | none ↦ if b then some i else none ] ≡ some j
        → At p i (r ∷ rs) j
    of (some k) b pb ih e = At-cons p i r rs j (ih e)
    of none true pb ih e = let same : i ≡ j = cc in rw (← same) (At-here p i r rs pb)
    of none false pb ih e = cc

first_index-At :
    (p : Release → Bool) (i : ℕ) (rs : List Release) (j : ℕ)
    → first_index p i rs ≡ some j
    → At p i rs j
unfolding first_index
first_index-At p i [] j = λ e. cc
first_index-At p i (r ∷ rs) j = of (p r) refl (first_index-At p (suc i) rs j)
  where
    of :
        (b : Bool)
        → p r ≡ b
        → (first_index p (suc i) rs ≡ some j → At p (suc i) rs j)
        → (if b then some i else first_index p (suc i) rs) ≡ some j
        → At p i (r ∷ rs) j
    of true pb ih e = let same : i ≡ j = cc in rw (← same) (At-here p i r rs pb)
    of false pb ih e = At-cons p i r rs j (ih e)

-- The release is the one that the ref names: by its tag, or by its version.
abbrev pub Names : String → Release → Type 0
Names ref x =
    (str_eq x.tag ref ≡ true) ⊎ ((k : Key) × (version_key ref ≡ some k) × (key_eq x.key k ≡ true))

abbrev Named : List Release → String → ℕ → Type 0
Named releases ref j = (x : Release) × (get_elem? releases j ≡ some x) × Names ref x

find_ref-Named :
    (releases : List Release) (ref : String) (j : ℕ)
    → find_ref releases ref ≡ some j
    → Named releases ref j
unfolding find_ref
find_ref-Named releases ref j =
    of (last_index (λ r. str_eq r.tag ref) 0 releases) (version_key ref) refl
      (last_index-At (λ r. str_eq r.tag ref) 0 releases j)
  where
    zero_off : j - 0 ≡ j
    zero_off = omega arith

    of :
        (o : Option ℕ) (k : Option Key)
        → version_key ref ≡ k
        → (o ≡ some j → At (λ r. str_eq r.tag ref) 0 releases j)
        → elim o as (λ _. Option ℕ) [
          | some i ↦ some i
          | none ↦ elim k as (λ _. Option ℕ) [
            | none ↦ none
            | some key ↦ first_index (λ r. key_eq r.key key) 0 releases
          ]
        ]
          ≡ some j
        → Named releases ref j
    of (some i) k ek by_tag e =
        let (x, le, found, px) = by_tag e in (x, (rw zero_off at found), inl px)
    of none none ek by_tag e = cc
    of none (some key) ek by_tag e =
        let (x, le, found, px) = first_index-At (λ r. key_eq r.key key) 0 releases j e in
        (x, (rw zero_off at found), inr (key, ek, px))

-- A window that `select_window` answers holds, at the two places that it reports, the releases
-- that the two refs name; and it is no longer than the list.
pub select_window_lem :
    (releases : List Release) (working_ref broken_ref : String) (sel : Selection)
    → select_window releases working_ref broken_ref ≡ some sel
    → ((x : Release) × (get_elem? sel.window sel.working_idx ≡ some x) × Names working_ref x)
      × ((y : Release) × (get_elem? sel.window sel.broken_idx ≡ some y) × Names broken_ref y)
      × (length sel.window ≤ length releases)
select_window_lem releases working_ref broken_ref sel e =
    let (wi, bi, ew, eb, cut) = select_window-cut releases working_ref broken_ref sel e in
    let (x, xat, xn) = find_ref-Named releases working_ref wi ew in
    let (y, yat, yn) = find_ref-Named releases broken_ref bi eb in
    let (wend, bend) = cut_window-ends releases wi bi in
    rw cut ((x, wend ∙ xat, xn), (y, bend ∙ yat, yn), length-window-le releases wi bi)
