-- ===== src/Journal/Reading.antt =====
-- The events that `get_events_since` of src/hil_controller/db/connection.py reads back.
use sbc_mcu_dut_controller.Prelude.{
  ℕ, zero, suc, ◌-◌, ◌≤◌, String, Bool, true, false, ◌&&◌, List, [], ◌∷◌, ◌≡◌, refl, sym, ap, ◌∙◌,
  arith, if◌then◌else◌, leb, select, drop, All, All-mono,
}
use sbc_mcu_dut_controller.Journal.{Event, insert_event, sort_events, get_events_since}
use sbc_mcu_dut_controller.Journal.Sequence.{mine, IsNumbered}

abbrev wanted : String → ℕ → Event → Bool
wanted job_id first e = mine job_id e && leb first e.seq

drop-nil : (k : ℕ) → drop {A = Event} k [] ≡ []
drop-nil zero = refl
drop-nil (suc k) = refl

drop-step :
    (b : Bool) (first n : ℕ) (e : Event) (picked es : List Event)
    → leb first n ≡ b
    → picked ≡ drop (first - suc n) es
    → (if b then e ∷ picked else picked) ≡ drop (first - n) (e ∷ es)
drop-step true first n e picked es l h =
    let a : first - n ≡ 0 = ground arith in
    let b : first - suc n ≡ 0 = ground arith in rw a (ap (λ xs. e ∷ xs) (h ∙ ap (λ k. drop k es) b))
drop-step false first n e picked es l h =
    let a : first - n ≡ suc (first - suc n) = ground arith in rw a h

wanted-drop :
    (job_id : String) (first n : ℕ) (es : List Event)
    → IsNumbered job_id n es
    → select (wanted job_id first) es ≡ drop (first - n) (select (mine job_id) es)
wanted-drop job_id first n [] h = sym (drop-nil (first - n))
wanted-drop job_id first n (e ∷ es) h =
    of (mine job_id e) h (wanted-drop job_id first (suc n) es) (wanted-drop job_id first n es)
  where
    of :
        (b : Bool)
        → (if b then (e.seq ≡ n) × IsNumbered job_id (suc n) es else IsNumbered job_id n es)
        → (IsNumbered job_id (suc n) es
            → select (wanted job_id first) es ≡ drop (first - suc n) (select (mine job_id) es))
        → (IsNumbered job_id n es
            → select (wanted job_id first) es ≡ drop (first - n) (select (mine job_id) es))
        → (if b && leb first e.seq
            then e ∷ select (wanted job_id first) es
            else select (wanted job_id first) es)
          ≡ drop (first - n) (if b then e ∷ select (mine job_id) es else select (mine job_id) es)
    of true k up same =
        drop-step (leb first e.seq) first n e (select (wanted job_id first) es)
          (select (mine job_id) es) (ap (leb first) (sym k.0)) (up k.1)
    of false k up same = same k

-- The numbers of the selected events are at least `n`, so that a sort keeps their order.
wanted-le :
    (job_id : String) (first n : ℕ) (es : List Event)
    → IsNumbered job_id n es
    → All (λ (e : Event). n ≤ e.seq) (select (wanted job_id first) es)
wanted-le job_id first n [] h = tt
wanted-le job_id first n (e ∷ es) h =
    of (mine job_id e) (leb first e.seq) h (wanted-le job_id first (suc n) es)
      (wanted-le job_id first n es)
  where
    later :
        All (λ (f : Event). suc n ≤ f.seq) (select (wanted job_id first) es)
        → All (λ (f : Event). n ≤ f.seq) (select (wanted job_id first) es)
    later a =
        All-mono (λ (f : Event). suc n ≤ f.seq) (λ (f : Event). n ≤ f.seq) (λ f l. omega arith)
          (select (wanted job_id first) es) a

    of :
        (b c : Bool)
        → (if b then (e.seq ≡ n) × IsNumbered job_id (suc n) es else IsNumbered job_id n es)
        → (IsNumbered job_id (suc n) es
            → All (λ (f : Event). suc n ≤ f.seq) (select (wanted job_id first) es))
        → (IsNumbered job_id n es
            → All (λ (f : Event). n ≤ f.seq) (select (wanted job_id first) es))
        → All
            (λ (f : Event). n ≤ f.seq)
            (if b && c
              then e ∷ select (wanted job_id first) es
              else select (wanted job_id first) es)
    of true true k up same = (omega (arith, k.0), later (up k.1))
    of true false k up same = later (up k.1)
    of false c k up same = same k

insert-head :
    (e : Event) (es : List Event)
    → All (λ (f : Event). e.seq ≤ f.seq) es
    → insert_event e es ≡ e ∷ es
unfolding insert_event
insert-head e [] h = refl
insert-head e (f ∷ fs) h = let l : leb e.seq f.seq ≡ true = ground (arith, h.0) in rw l refl

sort-wanted :
    (job_id : String) (first n : ℕ) (es : List Event)
    → IsNumbered job_id n es
    → sort_events (select (wanted job_id first) es) ≡ select (wanted job_id first) es
unfolding sort_events
sort-wanted job_id first n [] h = refl
sort-wanted job_id first n (e ∷ es) h =
    of (mine job_id e) (leb first e.seq) h (sort-wanted job_id first (suc n) es)
      (sort-wanted job_id first n es) (wanted-le job_id first (suc n) es)
  where
    rest : List Event
    rest = select (wanted job_id first) es

    of :
        (b c : Bool)
        → (if b then (e.seq ≡ n) × IsNumbered job_id (suc n) es else IsNumbered job_id n es)
        → (IsNumbered job_id (suc n) es → sort_events rest ≡ rest)
        → (IsNumbered job_id n es → sort_events rest ≡ rest)
        → (IsNumbered job_id (suc n) es → All (λ (f : Event). suc n ≤ f.seq) rest)
        → sort_events (if b && c then e ∷ rest else rest) ≡ (if b && c then e ∷ rest else rest)
    of true true k up same above =
        ap (insert_event e) (up k.1)
        ∙ insert-head e rest (
            All-mono (λ (f : Event). suc n ≤ f.seq) (λ (f : Event). e.seq ≤ f.seq)
              (λ f l. omega (arith, k.0)) rest (above k.1))
    of true false k up same above = up k.1
    of false c k up same above = same k

-- Of a job whose events are numbered, get_events_since answers all but the first ones, in order: a
-- client that asks from the number after the last event that it has seen misses none and sees none
-- twice.
pub get_events_since-drop :
    (job_id : String) (first : ℕ) (es : List Event)
    → IsNumbered job_id 0 es
    → get_events_since job_id first es ≡ drop first (select (mine job_id) es)
unfolding get_events_since
get_events_since-drop job_id first es h =
    sort-wanted job_id first 0 es h
    ∙ wanted-drop job_id first 0 es h
    ∙ ap (λ k. drop k (select (mine job_id) es)) minus_zero
  where
    minus_zero : first - 0 ≡ first
    minus_zero = omega arith
