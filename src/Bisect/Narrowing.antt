-- ===== src/Bisect/Narrowing.antt =====
-- What one round of the search of bisect.py keeps.
use native.Mathlib.Nat.{pow-suc}
use sbc_mcu_dut_controller.Prelude.{
  ℕ, zero, suc, ◌+◌, ◌*◌, ◌/◌, ◌^◌, ◌≤◌, ◌<◌, Bool, true, false, some, List, [], ◌∷◌, ◌++◌, ◌≡◌,
  ◌≢◌, refl, inl, inr, arith, if◌then◌else◌, leb, get_elem?, get_elem?-some, get_elem?-lt, length,
  length-append, Bool-cases, leb-false→lt,
}
use sbc_mcu_dut_controller.Bisect.Releases.{Release}
use sbc_mcu_dut_controller.Bisect.Search.{
  Verdict, pass, fail, infra, Outcome, ok, is_pass, Tested, Ends, gap, narrow,
}

-- Half of a gap above one is smaller, and a power of two halves with it.
halved :
    (good bad : ℕ)
    → 1 < gap good bad
    → let mid : ℕ = (good + bad) / 2 in
      (gap mid bad < gap good bad)
      × (gap good mid < gap good bad)
      × (2 * gap mid bad ≤ gap good bad + 1)
      × (2 * gap good mid ≤ gap good bad + 1)
halved good bad h = omega arith

module _ {S : Type 0} (window : List Release) (test_fn : Release → S → Outcome Verdict × S)
    (v : Release → Verdict) (answers : (r : Release) (s : S) → (test_fn r s).0 ≡ ok (v r)) where
  -- The release at `good` passes, and the one at `bad` does not.
  pub record Bracket (good bad : ℕ) : Type 0 where
    pub working : Release
    pub working_at : get_elem? window good ≡ some working
    pub passes : v working ≡ pass
    pub broken : Release
    pub broken_at : get_elem? window bad ≡ some broken
    pub fails : v broken ≢ pass

  -- What the loop leaves when it starts on `good` and `bad` with `n` releases tested.
  pub record Narrowed (good bad n k : ℕ) (r : Outcome Ends) : Type 0 where
    pub ends : Ends
    pub answered : r ≡ ok ends
    pub bracket : Bracket ends.good ends.bad
    pub adjacent : gap ends.good ends.bad ≤ 1
    pub inside : gap ends.good ends.bad ≤ gap good bad
    pub tests : length ends.tested ≤ n + k

  -- A round moves one end to the middle, on the side that its verdict asks for.
  Bracket-next :
      (good bad mid : ℕ) (rel : Release)
      → Bracket good bad
      → get_elem? window mid ≡ some rel
      → Bracket (if is_pass (v rel) then mid else good) (if is_pass (v rel) then bad else mid)
  Bracket-next good bad mid rel b m = by_verdict (v rel) refl
    where
      by_verdict :
          (x : Verdict)
          → v rel ≡ x
          → Bracket (if is_pass x then mid else good) (if is_pass x then bad else mid)
      by_verdict pass e = record {
        working = rel;
        working_at = m;
        passes = e;
        broken = b.broken;
        broken_at = b.broken_at;
        fails = b.fails;
      }
      by_verdict fail e = record {
        working = b.working;
        working_at = b.working_at;
        passes = b.passes;
        broken = rel;
        broken_at = m;
        fails = λ p. cc;
      }
      by_verdict infra e = record {
        working = b.working;
        working_at = b.working_at;
        passes = b.passes;
        broken = rel;
        broken_at = m;
        fails = λ p. cc;
      }

  gap-next :
      (good bad : ℕ) (passed : Bool)
      → leb (gap good bad) 1 ≡ false
      → let mid : ℕ = (good + bad) / 2 in
        let g : ℕ = gap (if passed then mid else good) (if passed then bad else mid) in
        (g < gap good bad) × (2 * g ≤ gap good bad + 1)
  gap-next good bad true wide =
      let h = halved good bad (leb-false→lt (gap good bad) 1 wide) in (h.0, h.2)
  gap-next good bad false wide =
      let h = halved good bad (leb-false→lt (gap good bad) 1 wide) in (h.1, h.3)

  -- A round whose gap is above one costs one test and halves the power of two.
  Narrowed-back :
      (good bad g b k : ℕ) (tested : List Tested) (t : Tested) (r : Outcome Ends)
      → gap g b ≤ gap good bad
      → Narrowed g b (length (tested ++ t ∷ [])) k r
      → Narrowed good bad (length tested) (suc k) r
  Narrowed-back good bad g b k tested t r le x = record {
    ends = x.ends;
    answered = x.answered;
    bracket = x.bracket;
    adjacent = x.adjacent;
    inside = omega (arith, x.inside);
    tests = omega (arith, x.tests, length-append tested (t ∷ []));
  }

  mid-lt_window :
      (good bad : ℕ)
      → Bracket good bad
      → (rel : Release) × (get_elem? window ((good + bad) / 2) ≡ some rel)
  mid-lt_window good bad b = get_elem?-some window ((good + bad) / 2) (
      omega (
        arith,
        get_elem?-lt window good b.working b.working_at,
        get_elem?-lt window bad b.broken b.broken_at,
      ))

  Narrowed-here :
      (good bad k : ℕ) (tested : List Tested)
      → Bracket good bad
      → leb (gap good bad) 1 ≡ true
      → Narrowed good bad
          (length tested)
          k
          (ok (record { good = good; bad = bad; tested = tested }))
  Narrowed-here good bad k tested b close = record {
    ends = record { good = good; bad = bad; tested = tested };
    answered = refl;
    bracket = b;
    adjacent = ground arith;
    inside = omega arith;
    tests = omega arith;
  }

  pub narrow-Narrowed :
      (fuel k good bad : ℕ) (tested : List Tested) (s : S)
      → gap good bad < fuel
      → gap good bad ≤ 2 ^ k
      → Bracket good bad
      → Narrowed good bad (length tested) k (narrow window test_fn fuel good bad tested s).0
  unfolding narrow
  narrow-Narrowed zero k good bad tested s f p b = absurd (omega arith)
  narrow-Narrowed (suc fuel) zero good bad tested s f p b =
      let close : leb (gap good bad) 1 ≡ true = ground arith in
      rw close (Narrowed-here good bad zero tested b close)
  narrow-Narrowed (suc fuel) (suc k) good bad tested s f p b =
      elim (Bool-cases (leb (gap good bad) 1)) [
        | inl close ↦ rw close (Narrowed-here good bad (suc k) tested b close)
        | inr wide ↦
            let (rel, at) = mid-lt_window good bad b in
            let mid : ℕ = (good + bad) / 2 in
            let passed : Bool = is_pass (v rel) in
            let (less, half) = gap-next good bad passed wide in
            rw (wide, at, answers rel s)
              (Narrowed-back good bad (if passed then mid else good) (if passed then bad else mid) k
                tested _ _ (omega arith)
                (narrow-Narrowed fuel k (if passed then mid else good) (if passed then bad else mid)
                  (tested ++ record { tag = rel.tag; verdict = v rel } ∷ []) (test_fn rel s).1
                  (omega arith) (omega (arith, pow-suc 2 k)) (Bracket-next good bad mid rel b at)))
      ]
