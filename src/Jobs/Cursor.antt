-- ===== src/Jobs/Cursor.antt =====
-- The cursor of a client of src/hil_controller/api/jobs.py, in the list of a job's events.
use mathlib.Core.List.{append-nil, append_assoc}
use sbc_mcu_dut_controller.Prelude.{
  ℕ, zero, suc, ◌+◌, ◌≤◌, String, Bool, true, false, List, [], ◌∷◌, ◌++◌, ◌≡◌, ◌⊎◌, inl, inr, refl,
  sym, ap, ◌∙◌, arith, if◌then◌else◌, select, length, take, drop, length-append,
}
use sbc_mcu_dut_controller.Journal.{Event}
use sbc_mcu_dut_controller.Journal.Sequence.{mine, IsNumbered}
use sbc_mcu_dut_controller.Jobs.{last_seq}

-- The events are numbered from `n` on.
abbrev pub Seqs : ℕ → List Event → Type 0
Seqs n [] = Unit
Seqs n (e ∷ es) = (e.seq ≡ n) × Seqs (suc n) es

pub IsNumbered-Seqs :
    (job_id : String) (n : ℕ) (es : List Event)
    → IsNumbered job_id n es
    → Seqs n (select (mine job_id) es)
IsNumbered-Seqs job_id n [] h = tt
IsNumbered-Seqs job_id n (e ∷ es) h =
    of (mine job_id e) h (IsNumbered-Seqs job_id (suc n) es) (IsNumbered-Seqs job_id n es)
  where
    of :
        (b : Bool)
        → (if b then (e.seq ≡ n) × IsNumbered job_id (suc n) es else IsNumbered job_id n es)
        → (IsNumbered job_id (suc n) es → Seqs (suc n) (select (mine job_id) es))
        → (IsNumbered job_id n es → Seqs n (select (mine job_id) es))
        → Seqs n (if b then e ∷ select (mine job_id) es else select (mine job_id) es)
    of true k up same = (k.0, up k.1)
    of false k up same = same k

last_seq-length :
    (n since : ℕ) (e : Event) (es : List Event)
    → Seqs n (e ∷ es)
    → suc (last_seq since (e ∷ es)) ≡ n + length (e ∷ es)
last_seq-length n since e [] h = omega (arith, h.0)
last_seq-length n since e (f ∷ fs) h =
    let ih = last_seq-length (suc n) e.seq f fs h.1 in omega (arith, ih)

pub last_seq-drop :
    (n k since : ℕ) (es : List Event)
    → Seqs n es
    → (drop k es ≡ []) ⊎ (suc (last_seq since (drop k es)) ≡ n + length es)
last_seq-drop n zero since [] h = inl refl
last_seq-drop n zero since (e ∷ es) h = inr (last_seq-length n since e es h)
last_seq-drop n (suc k) since [] h = inl refl
last_seq-drop n (suc k) since (e ∷ es) h = elim (last_seq-drop (suc n) k since es h.1) [
  | inl nothing ↦ inl nothing
  | inr last ↦ inr (omega (arith, last))
]

module _ {A : Type 0} where
  take-drop : (n : ℕ) (xs : List A) → take n xs ++ drop n xs ≡ xs
  take-drop zero xs = refl
  take-drop (suc n) [] = refl
  take-drop (suc n) (x ∷ xs) = ap (◌∷◌ x) (take-drop n xs)

  tail-take-drop : (n : ℕ) (xs : List A) → drop 1 (take (suc n) xs) ++ drop (suc n) xs ≡ drop 1 xs
  tail-take-drop n [] = refl
  tail-take-drop n (x ∷ xs) = take-drop n xs

  take-all : (xs : List A) → take (length xs) xs ≡ xs
  take-all [] = refl
  take-all (x ∷ xs) = ap (◌∷◌ x) (take-all xs)

  take-append : (n : ℕ) (xs ys : List A) → n ≤ length xs → take n (xs ++ ys) ≡ take n xs
  take-append zero xs ys h = refl
  take-append (suc n) [] ys h = absurd (omega arith)
  take-append (suc n) (x ∷ xs) ys h = ap (◌∷◌ x) (take-append n xs ys (omega arith))

  tail-take-one : (xs : List A) → drop 1 (take 1 xs) ≡ []
  tail-take-one [] = refl
  tail-take-one (x ∷ xs) = refl

abbrev pub Extends : List Event → List Event → Type 0
Extends xs ys = (more : List Event) × (ys ≡ xs ++ more)

pub Extends-trans : (xs ys zs : List Event) → Extends xs ys → Extends ys zs → Extends xs zs
Extends-trans xs ys zs (a, p) (b, q) = (a ++ b, q ∙ ap (λ l. l ++ b) p ∙ append_assoc xs a b)

-- The cursor is the number of an event that is there, or 0.
abbrev pub IsCursor : ℕ → List Event → Type 0
IsCursor since xs = (since ≡ 0) ⊎ (suc since ≤ length xs)

pub IsCursor-Extends :
    (since : ℕ) (xs ys : List Event) → Extends xs ys → IsCursor since xs → IsCursor since ys
IsCursor-Extends since xs ys (more, e) (inl z) = inl z
IsCursor-Extends since xs ys (more, e) (inr l) =
    inr (omega (arith, l, length-append xs more, ap (λ (x : List Event). length x) e))

-- What the client has, up to its cursor.
abbrev pub up_to : ℕ → List Event → List Event
up_to since xs = drop 1 (take (suc since) xs)

pub up_to-Extends :
    (since : ℕ) (xs ys : List Event)
    → Extends xs ys
    → IsCursor since xs
    → up_to since ys ≡ up_to since xs
up_to-Extends since xs ys (more, e) (inl z) = rw z (tail-take-one ys ∙ sym (tail-take-one xs))
up_to-Extends since xs ys (more, e) (inr l) = rw e (ap (drop 1) (take-append (suc since) xs more l))

-- One answer brings the client up to its new cursor.
pub answer-up_to :
    (since : ℕ) (xs ys : List Event)
    → Extends xs ys
    → Seqs 0 ys
    → IsCursor since xs
    → (up_to since xs ++ drop (suc since) ys ≡ up_to (last_seq since (drop (suc since) ys)) ys)
      × IsCursor (last_seq since (drop (suc since) ys)) ys
answer-up_to since xs ys grown seqs cursor = of (last_seq-drop 0 (suc since) since ys seqs)
  where
    all : up_to since xs ++ drop (suc since) ys ≡ drop 1 ys
    all =
        ap (λ l. l ++ drop (suc since) ys) (sym (up_to-Extends since xs ys grown cursor))
        ∙ tail-take-drop since ys

    of :
        (drop (suc since) ys ≡ []) ⊎ (suc (last_seq since (drop (suc since) ys)) ≡ 0 + length ys)
        → (up_to since xs ++ drop (suc since) ys ≡ up_to (last_seq since (drop (suc since) ys)) ys)
          × IsCursor (last_seq since (drop (suc since) ys)) ys
    of (inl nothing) =
        let e : last_seq since (drop (suc since) ys) ≡ since = ap (last_seq since) nothing in
        let full : up_to since ys ≡ drop 1 ys =
          sym (append-nil (up_to since ys))
          ∙ ap (λ l. up_to since ys ++ l) (sym nothing)
          ∙ tail-take-drop since ys in
        (
          all ∙ sym full ∙ ap (λ k. up_to k ys) (sym e),
          rw e (IsCursor-Extends since xs ys grown cursor),
        )
    of (inr last) =
        let last : suc (last_seq since (drop (suc since) ys)) ≡ length ys = omega (arith, last) in
        (
          all ∙ sym (ap (drop 1) (ap (λ k. take k ys) last ∙ take-all ys)),
          inr (omega (arith, last)),
        )
