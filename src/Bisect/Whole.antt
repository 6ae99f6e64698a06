-- ===== src/Bisect/Whole.antt =====
-- A whole run of bisect.py: the candidates, the window, the oracle's checks and the search.
use sbc_mcu_dut_controller.Prelude.{
  ℕ, ◌^◌, ◌≤◌, ◌<◌, String, Bool, true, false, Option, none, some, List, [], ◌∷◌, ◌≡◌, ◌≢◌, refl,
  arith, if◌then◌else◌, get_elem?, get_elem?-lt, length,
}
use sbc_mcu_dut_controller.Bisect.Releases.{
  Release, GhRelease, Selection, parse_releases, select_window,
}
use sbc_mcu_dut_controller.Bisect.Search.{
  Verdict, pass, fail, infra, Outcome, ok, raise, gap, Report, no_ref, needs_key, out_of_range,
}
use sbc_mcu_dut_controller.Bisect.Runner.{
  BisectConfig, lacks_key, test_version, then_search, then_broken, search_window, run_on, run,
}
use sbc_mcu_dut_controller.Bisect.Boundary.{IsBoundary, bisect-IsBoundary}
use sbc_mcu_dut_controller.Bisect.Verdicts.{test_version_steady}
use sbc_mcu_dut_controller.Bisect.Window.{select_window_lem}

module _ {S : Type 0} (cfg : BisectConfig) (run_once : Release → S → Option Verdict × S)
    (v : Release → Verdict) (real : (r : Release) → v r ≢ infra)
    (answers : (r : Release) (s : S) → (run_once r s).0 ≡ some (v r))
    (runs : 0 < cfg.verify_times) where
  steady : (r : Release) (s : S) → (test_version cfg run_once r s).0 ≡ ok (v r)
  steady r = test_version_steady cfg run_once r (v r) (real r) (answers r) runs

  -- What a report says of the window that it was found in.
  abbrev Found : List Release → ℕ → Report → Selection → Type 0
  Found releases k report sel =
      (select_window releases cfg.working_ref cfg.broken_ref ≡ some sel)
      × IsBoundary sel.window v k report

  searched :
      (window : List Release) (wi bi k : ℕ) (working broken : Release) (s : S) (report : Report)
      → get_elem? window wi ≡ some working
      → get_elem? window bi ≡ some broken
      → gap wi bi ≤ 2 ^ k
      → (then_broken cfg run_once window wi bi broken (test_version cfg run_once working s)).0
        ≡ ok report
      → IsBoundary window v k report
  searched window wi bi k working broken s report hw hb small = first _ _ (steady working s)
    where
      second :
          (o : Outcome Verdict) (s' : S)
          → v working ≡ pass
          → o ≡ ok (v broken)
          → (then_search cfg run_once window wi bi (o, s')).0 ≡ ok report
          → IsBoundary window v k report
      second (raise e) s' pw ob e' = cc
      second (ok pass) s' pw ob e' = cc
      second (ok infra) s' pw ob e' = cc
      second (ok fail) s' pw ob e' =
          let (r, er, b) =
            bisect-IsBoundary window (test_version cfg run_once) v steady wi bi k working broken s'
              hw hb pw (λ p. cc) small in
          let same : r ≡ report = cc in rw same at b

      first :
          (o : Outcome Verdict) (s' : S)
          → o ≡ ok (v working)
          → (then_broken cfg run_once window wi bi broken (o, s')).0 ≡ ok report
          → IsBoundary window v k report
      first (raise e) s' ow e' = cc
      first (ok fail) s' ow e' = cc
      first (ok infra) s' ow e' = cc
      first (ok pass) s' ow e' = second _ _ (cc) (steady broken s') e'

  -- Both ends of the window are there.
  opened :
      (sel : Selection) (s : S) (report : Report) (w b : Option Release) (x y : Release)
      → w ≡ some x
      → b ≡ some y
      → (elim w as (λ _. Outcome Report × S) [
        | none ↦ (raise out_of_range, s)
        | some working ↦ elim b as (λ _. Outcome Report × S) [
          | none ↦ (raise out_of_range, s)
          | some broken ↦
              then_broken cfg run_once sel.window sel.working_idx sel.broken_idx broken
                (test_version cfg run_once working s)
        ]
      ]).0
        ≡ ok report
      → (then_broken cfg run_once sel.window sel.working_idx sel.broken_idx y
          (test_version cfg run_once x s)).0
        ≡ ok report
  opened sel s report none b x y ew eb h = cc
  opened sel s report (some a) none x y ew eb h = cc
  opened sel s report (some a) (some c) x y ew eb h =
      let ax : x ≡ a = cc in let cy : y ≡ c = cc in rw (ax, cy) h

  in_window :
      (releases : List Release) (k : ℕ) (sel : Selection) (s : S) (report : Report)
      → length releases ≤ 2 ^ k
      → select_window releases cfg.working_ref cfg.broken_ref ≡ some sel
      → (search_window cfg run_once sel s).0 ≡ ok report
      → IsBoundary sel.window v k report
  unfolding search_window
  in_window releases k sel s report small e h =
      let (in_working, in_broken, le) =
        select_window_lem releases cfg.working_ref cfg.broken_ref sel e in
      let (x, xat, xn) = in_working in
      let (y, yat, yn) = in_broken in
      searched sel.window sel.working_idx sel.broken_idx k x y s report xat yat
        (omega (
          arith,
          get_elem?-lt sel.window sel.working_idx x xat,
          get_elem?-lt sel.window sel.broken_idx y yat,
        ))
        (opened sel s report _ _ x y xat yat h)

-- Where each run on the bench gives its release one verdict, raises no httpx error and is no failure
-- of the bench, and at least one test is asked for, a run that returns a report has found it in the
-- window between the two refs: it names two neighbouring releases, of which `last_good` passes and
-- `first_broken` does not, after at most `k` tests of releases besides the two ends, for a list of
-- at most 2 ^ k candidates.
pub run-IsBoundary :
    {S : Type 0} (cfg : BisectConfig) (run_once : Release → S → Option Verdict × S)
    (v : Release → Verdict)
    → ((r : Release) → v r ≢ infra)
    → ((r : Release) (s : S) → (run_once r s).0 ≡ some (v r))
    → 0 < cfg.verify_times
    → (fnmatch : String → String → Bool) (gh_json : List GhRelease) (k : ℕ) (s : S)
      (report : Report)
    → length (parse_releases fnmatch cfg.asset_glob gh_json) ≤ 2 ^ k
    → (run cfg run_once fnmatch gh_json s).0 ≡ ok report
    → (sel : Selection) × (select_window
          (parse_releases fnmatch cfg.asset_glob gh_json)
          cfg.working_ref
          cfg.broken_ref
        ≡ some sel)
      × IsBoundary sel.window v k report
unfolding run
run-IsBoundary {S} cfg run_once v real answers runs fnmatch gh_json k s report =
    checked (lacks_key cfg) (parse_releases fnmatch cfg.asset_glob gh_json)
  where
    Result : List Release → Type 0
    Result releases =
        (sel : Selection) × (select_window releases cfg.working_ref cfg.broken_ref ≡ some sel)
        × IsBoundary sel.window v k report

    windowed :
        (releases : List Release) (o : Option Selection)
        → select_window releases cfg.working_ref cfg.broken_ref ≡ o
        → length releases ≤ 2 ^ k
        → (elim o as (λ _. Outcome Report × S) [
          | none ↦ (raise no_ref, s)
          | some sel ↦ search_window cfg run_once sel s
        ]).0
          ≡ ok report
        → Result releases
    windowed releases none e small h = cc
    windowed releases (some sel) e small h =
        (sel, e, in_window cfg run_once v real answers runs releases k sel s report small e h)

    checked :
        (lacks : Bool) (releases : List Release)
        → length releases ≤ 2 ^ k
        → (if lacks then (raise needs_key, s) else run_on cfg run_once releases s).0 ≡ ok report
        → Result releases
    checked true releases small h = cc
    checked false [] small h = cc
    checked false (r ∷ rs) small h =
        windowed (r ∷ rs) (select_window (r ∷ rs) cfg.working_ref cfg.broken_ref) refl small h
