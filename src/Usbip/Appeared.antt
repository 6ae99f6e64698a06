-- ===== src/Usbip/Appeared.antt =====
-- The serial device that src/hil_controller/adapters/usbip_bridge.py takes for the lent one.
use sbc_mcu_dut_controller.Prelude.{
  ℕ, String, true, false, ◌||◌, Option, none, some, List, [], ◌∷◌, ◌≡◌, refl, arith, one_of, codes,
  All, eq_refl, Bool-cases, inl, inr, All-mono, if_ind,
}
use sbc_mcu_dut_controller.Usbip.Parse.{precedes, least_of, diff_serial_ports}

precedes_refl : (a : List ℕ) → precedes a a ≡ true
precedes_refl [] = refl
precedes_refl (a ∷ as') = ground (arith, precedes_refl as')

precedes_trans : (a b c : List ℕ) → precedes a b ≡ true → precedes b c ≡ true → precedes a c ≡ true
precedes_trans [] b c h k = refl
precedes_trans (a ∷ as') [] c h k = cc
precedes_trans (a ∷ as') (b ∷ bs) [] h k = cc
precedes_trans (a ∷ as') (b ∷ bs) (c ∷ cs) h k = ground (arith, precedes_trans as' bs cs)

precedes_total : (a b : List ℕ) → precedes a b ≡ false → precedes b a ≡ true
precedes_total [] b h = cc
precedes_total (a ∷ as') [] h = refl
precedes_total (a ∷ as') (b ∷ bs) h = ground (arith, precedes_total as' bs)

-- A device of the later listing that was in the earlier one, or sorts after the one found.
abbrev IsPassed : (before : List String) → String → String → Type 0
IsPassed before p s = (one_of s before || precedes (codes p) (codes s)) ≡ true

-- What the two listings say of the answer.
abbrev pub IsFound : (before after : List String) → Option String → Type 0
IsFound before after none = All (λ s. one_of s before ≡ true) after
IsFound before after (some p) =
    (one_of p after ≡ true) × (one_of p before ≡ false) × All (IsPassed before p) after

module _ (before : List String) where
  known-IsPassed : (p s : String) → one_of s before ≡ true → IsPassed before p s
  known-IsPassed p s h = rw h refl

  earlier-IsPassed :
      (p q s : String)
      → precedes (codes p) (codes q) ≡ true
      → IsPassed before q s
      → IsPassed before p s
  earlier-IsPassed p q s h k = elim (Bool-cases (one_of s before)) [
    | inl known ↦ rw known refl
    | inr new ↦ let k' = rw new at k in rw new (precedes_trans (codes p) (codes q) (codes s) h k')
  ]

  least_of-IsFound :
      (s : String) (after : List String) (rest : Option String)
      → one_of s before ≡ false
      → IsFound before after rest
      → IsFound before (s ∷ after) (least_of s rest)
  least_of-IsFound s after none new h = (
    rw (eq_refl s) refl,
    new,
    (
      rw new (precedes_refl (codes s)),
      All-mono (λ x. one_of x before ≡ true) (IsPassed before s) (known-IsPassed s) after h,
    ),
  )
  least_of-IsFound s after (some t) new h =
      if_ind (IsFound before (s ∷ after)) (precedes (codes s) (codes t))
        (λ first. (
          rw (eq_refl s) refl,
          new,
          (
            rw new (precedes_refl (codes s)),
            All-mono (IsPassed before t) (IsPassed before s) (λ x k. earlier-IsPassed s t x first k)
                after h.2,
          ),
        ))
        (λ later.
          (listed s t after h.0, h.1, (rw new (precedes_total (codes s) (codes t) later), h.2)))
    where
      listed :
          (s t : String) (after : List String) → one_of t after ≡ true → one_of t (s ∷ after) ≡ true
      listed s t after h = ground arith

  known-IsFound :
      (s : String) (after : List String) (rest : Option String)
      → one_of s before ≡ true
      → IsFound before after rest
      → IsFound before (s ∷ after) rest
  known-IsFound s after none known h = (known, h)
  known-IsFound s after (some p) known h =
      let (there, new, all) = h in (ground arith, new, (rw known refl, all))

  -- The device found is in the later listing and not in the earlier one, and is the first of these in the
  -- order of `sorted`; where none is found there is none.
  diff_serial_ports-IsFound :
      (after : List String) → IsFound before after (diff_serial_ports before after)
  unfolding diff_serial_ports
  diff_serial_ports-IsFound [] = tt
  diff_serial_ports-IsFound (s ∷ after) =
      let ih = diff_serial_ports-IsFound after in
      if_ind (IsFound before (s ∷ after)) (one_of s before)
        (λ known. known-IsFound s after (diff_serial_ports before after) known ih)
        (λ new. least_of-IsFound s after (diff_serial_ports before after) new ih)
