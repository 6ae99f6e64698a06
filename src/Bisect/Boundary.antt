-- ===== src/Bisect/Boundary.antt =====
-- The search of bisect.py ends between a passing and a failing release.
use sbc_mcu_dut_controller.Prelude.{
  ℕ, suc, ◌^◌, ◌≤◌, ◌<◌, some, List, [], ◌≡◌, ◌≢◌, refl, inl, inr, arith, ltb, ◌==◌, get_elem?,
  length, Bool-cases,
}
use sbc_mcu_dut_controller.Bisect.Releases.{Release}
use sbc_mcu_dut_controller.Bisect.Search.{
  Verdict, pass, Outcome, ok, raise, Ends, Report, gap, report, bisect,
}
use sbc_mcu_dut_controller.Bisect.Narrowing.{Narrowed, narrow-Narrowed}

-- The report names two neighbouring releases of the window: `last_good`, which passes, and
-- `first_broken`, which does not; and it took at most `k` tests.
pub record IsBoundary (window : List Release) (v : Release → Verdict) (k : ℕ) (r : Report)
    : Type 0 where
  pub good : ℕ
  pub bad : ℕ
  pub adjacent : gap good bad ≡ 1
  pub working : Release
  pub working_at : get_elem? window good ≡ some working
  pub passes : v working ≡ pass
  pub last_good : r.last_good ≡ working.tag
  pub broken : Release
  pub broken_at : get_elem? window bad ≡ some broken
  pub fails : v broken ≢ pass
  pub first_broken : r.first_broken ≡ broken.tag
  pub tests : length r.tested ≤ k

-- A passing and a failing release do not stand at one index.
gap-pos :
    (window : List Release) (v : Release → Verdict) (g b : ℕ) (x y : Release)
    → get_elem? window g ≡ some x
    → get_elem? window b ≡ some y
    → v x ≡ pass
    → v y ≢ pass
    → 0 < gap g b
gap-pos window v g b x y hx hy px ny = elim (Bool-cases (g == b)) [
  | inr other ↦ ground arith
  | inl same ↦ let e : g ≡ b = ground arith in let xy : x ≡ y = cc in absurd (ny (cc))
]

-- With endpoints that are a passing and a failing release of the window, and a bench whose answer
-- depends on the release alone, `bisect` returns a boundary: two neighbouring releases of which the
-- one passes and the other does not. A window of at most 2 ^ k steps takes at most k tests.
pub bisect-IsBoundary :
    {S : Type 0} (window : List Release) (test_fn : Release → S → Outcome Verdict × S)
    (v : Release → Verdict)
    → ((r : Release) (s : S) → (test_fn r s).0 ≡ ok (v r))
    → (working_idx broken_idx k : ℕ) (working broken : Release) (s : S)
    → get_elem? window working_idx ≡ some working
    → get_elem? window broken_idx ≡ some broken
    → v working ≡ pass
    → v broken ≢ pass
    → gap working_idx broken_idx ≤ 2 ^ k
    → (r : Report) × ((bisect window test_fn working_idx broken_idx s).0 ≡ ok r)
      × IsBoundary window v k r
unfolding bisect
bisect-IsBoundary {S} window test_fn v answers wi bi k working broken s hw hb pw nb small =
    let n =
      narrow-Narrowed window test_fn v answers (suc (gap wi bi)) k wi bi [] s (omega arith) small
        (record {
          working = working;
          working_at = hw;
          passes = pw;
          broken = broken;
          broken_at = hb;
          fails = nb;
        }) in
    reported _ _ n
  where
    reported :
        (o : Outcome Ends) (s' : S)
        → Narrowed window test_fn v answers wi bi 0 k o
        → (r : Report) × ((report window test_fn (ltb wi bi) (o, s')).0 ≡ ok r)
          × IsBoundary window v k r
    reported (raise e) s' n = cc (n.answered)
    reported (ok ends) s' n =
        let same : ends ≡ n.ends = cc (n.answered) in
        let b = n.bracket in
        rw same (
          record {
            first_broken = b.broken.tag;
            last_good = b.working.tag;
            tested = n.ends.tested;
            forward = ltb wi bi;
          },
          ground (arith, b.broken_at, b.working_at),
          record {
            good = n.ends.good;
            bad = n.ends.bad;
            adjacent = omega (
              arith,
              n.adjacent,
              gap-pos window v n.ends.good n.ends.bad b.working b.broken b.working_at b.broken_at
                  b.passes b.fails,
            );
            working = b.working;
            working_at = b.working_at;
            passes = b.passes;
            last_good = refl;
            broken = b.broken;
            broken_at = b.broken_at;
            fails = b.fails;
            first_broken = refl;
            tests = omega (arith, n.tests);
          },
        )
