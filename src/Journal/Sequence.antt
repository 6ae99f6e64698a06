-- ===== src/Journal/Sequence.antt =====
-- The numbers of a job's events, as src/hil_controller/db/connection.py counts them.
use sbc_mcu_dut_controller.Prelude.{
  ℕ, suc, ◌+◌, ◌≤◌, String, Bool, true, false, ◌&&◌, ◌||◌, Option, none, some, List, [], ◌∷◌, ◌++◌,
  ◌≡◌, refl, arith, if◌then◌else◌, ◌==◌, str_eq, select, length,
}
use sbc_mcu_dut_controller.Journal.{Event, larger, max_seq, next_seq, is_taken}

abbrev pub mine : String → Event → Bool
mine job_id e = str_eq e.job_id job_id

abbrev pub count : String → List Event → ℕ
count job_id es = length (select (mine job_id) es)

-- The job's events are numbered in order, from `n` on.
abbrev pub IsNumbered : String → ℕ → List Event → Type 0
IsNumbered job_id n [] = Unit
IsNumbered job_id n (e ∷ es) =
    if mine job_id e then (e.seq ≡ n) × IsNumbered job_id (suc n) es else IsNumbered job_id n es

abbrev next_after : ℕ → Option ℕ → ℕ
next_after n none = n
next_after n (some m) = suc m

next_after-larger :
    (n c : ℕ) (o : Option ℕ)
    → next_after (suc n) o ≡ suc n + c
    → next_after n (some (larger n o)) ≡ n + suc c
next_after-larger n c none h = omega arith
next_after-larger n c (some m) h = ground arith

max_seq-count :
    (job_id : String) (n : ℕ) (es : List Event)
    → IsNumbered job_id n es
    → next_after n (max_seq job_id es) ≡ n + count job_id es
unfolding max_seq
max_seq-count job_id n [] h = omega arith
max_seq-count job_id n (e ∷ es) h =
    of (mine job_id e) h (max_seq-count job_id (suc n) es) (max_seq-count job_id n es)
  where
    of :
        (b : Bool)
        → (if b then (e.seq ≡ n) × IsNumbered job_id (suc n) es else IsNumbered job_id n es)
        → (IsNumbered job_id (suc n) es
            → next_after (suc n) (max_seq job_id es) ≡ suc n + count job_id es)
        → (IsNumbered job_id n es → next_after n (max_seq job_id es) ≡ n + count job_id es)
        → next_after n (if b then some (larger e.seq (max_seq job_id es)) else max_seq job_id es)
          ≡ n + length (if b then e ∷ select (mine job_id) es else select (mine job_id) es)
    of true k up same = rw k.0 (next_after-larger n (count job_id es) (max_seq job_id es) (up k.1))
    of false k up same = same k

-- The next number of a numbered job is the number of its events.
pub next_seq-count :
    (job_id : String) (es : List Event)
    → IsNumbered job_id 0 es
    → next_seq job_id es ≡ count job_id es
unfolding next_seq
next_seq-count job_id es h = of (max_seq job_id es) (max_seq-count job_id 0 es h)
  where
    of :
        (o : Option ℕ)
        → next_after 0 o ≡ 0 + count job_id es
        → elim o as (λ _. ℕ) [ none ↦ 0 | some m ↦ suc m ] ≡ count job_id es
    of none k = omega (arith, k)
    of (some m) k = omega (arith, k)

-- A number is free only above those that are given.
pub free-count :
    (job_id : String) (n seq : ℕ) (es : List Event)
    → IsNumbered job_id n es
    → n ≤ seq
    → is_taken job_id seq es ≡ false
    → n + count job_id es ≤ seq
free-count job_id n seq [] h l f = omega arith
free-count job_id n seq (e ∷ es) h l f =
    of (mine job_id e) h f (free-count job_id (suc n) seq es) (free-count job_id n seq es)
  where
    of :
        (b : Bool)
        → (if b then (e.seq ≡ n) × IsNumbered job_id (suc n) es else IsNumbered job_id n es)
        → ((b && e.seq == seq) || is_taken job_id seq es) ≡ false
        → (IsNumbered job_id (suc n) es
            → suc n ≤ seq
            → is_taken job_id seq es ≡ false
            → suc n + count job_id es ≤ seq)
        → (IsNumbered job_id n es
            → n ≤ seq
            → is_taken job_id seq es ≡ false
            → n + count job_id es ≤ seq)
        → n + length (if b then e ∷ select (mine job_id) es else select (mine job_id) es) ≤ seq
    of true k g up same =
        let above : suc n ≤ seq = ground arith in omega (arith, up k.1 above (ground arith))
    of false k g up same = same k l g

-- The next number is free.
pub count-free :
    (job_id : String) (n : ℕ) (es : List Event) (seq : ℕ)
    → IsNumbered job_id n es
    → n + count job_id es ≤ seq
    → is_taken job_id seq es ≡ false
count-free job_id n [] seq h l = refl
count-free job_id n (e ∷ es) seq h l =
    of (mine job_id e) h l (count-free job_id (suc n) es seq) (count-free job_id n es seq)
  where
    of :
        (b : Bool)
        → (if b then (e.seq ≡ n) × IsNumbered job_id (suc n) es else IsNumbered job_id n es)
        → n + length (if b then e ∷ select (mine job_id) es else select (mine job_id) es) ≤ seq
        → (IsNumbered job_id (suc n) es
            → suc n + count job_id es ≤ seq
            → is_taken job_id seq es ≡ false)
        → (IsNumbered job_id n es → n + count job_id es ≤ seq → is_taken job_id seq es ≡ false)
        → ((b && e.seq == seq) || is_taken job_id seq es) ≡ false
    of true k g up same =
        let rest : is_taken job_id seq es ≡ false = up k.1 (omega (arith, g)) in ground arith
    of false k g up same = same k g

-- A row at the end: another job's, or the job's own with the next number.
pub IsNumbered-snoc :
    (job_id : String) (n : ℕ) (es : List Event) (e : Event)
    → IsNumbered job_id n es
    → (mine job_id e ≡ true → e.seq ≡ n + count job_id es)
    → IsNumbered job_id n (es ++ e ∷ [])
IsNumbered-snoc job_id n [] e h k = of (mine job_id e) k
  where
    of : (b : Bool) → (b ≡ true → e.seq ≡ n + 0) → (if b then (e.seq ≡ n) × Unit {0} else Unit {0})
    of true k = (omega (arith, k refl), tt)
    of false k = tt
IsNumbered-snoc job_id n (f ∷ es) e h k =
    of (mine job_id f) h k (IsNumbered-snoc job_id (suc n) es e) (IsNumbered-snoc job_id n es e)
  where
    of :
        (b : Bool)
        → (if b then (f.seq ≡ n) × IsNumbered job_id (suc n) es else IsNumbered job_id n es)
        → (mine job_id e ≡ true
            → e.seq
              ≡ n + length (if b then f ∷ select (mine job_id) es else select (mine job_id) es))
        → (IsNumbered job_id (suc n) es
            → (mine job_id e ≡ true → e.seq ≡ suc n + count job_id es)
            → IsNumbered job_id (suc n) (es ++ e ∷ []))
        → (IsNumbered job_id n es
            → (mine job_id e ≡ true → e.seq ≡ n + count job_id es)
            → IsNumbered job_id n (es ++ e ∷ []))
        → (if b
            then (f.seq ≡ n) × IsNumbered job_id (suc n) (es ++ e ∷ [])
            else IsNumbered job_id n (es ++ e ∷ []))
    of true h k up same = (h.0, up h.1 (λ m. omega (arith, k m)))
    of false h k up same = same h k
