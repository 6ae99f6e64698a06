-- ===== src/Bisect/Runner.antt =====
-- `BisectRunner.classify`, `test_version`, `_check_secrets` and `run` of bisect.py. One flash and
-- test of a release on the bench, `_run_once` (submit the job, wait for it, classify its log), is
-- HTTP against the controller: a function of the release and of the bench's state, which gives no verdict
-- where an httpx error escapes it. What GitHub
-- answers is an argument.
use sbc_mcu_dut_controller.Prelude.{
  ℕ, zero, suc, ◌+◌, String, Bool, true, false, not, ◌&&◌, Option, none, some, List, [], ◌∷◌, ◌++◌,
  if◌then◌else◌, ltb, str_eq, get_elem?, length, any,
}
use text.Mathlib.Text.{find?}
use sbc_mcu_dut_controller.Bisect.Version.{is_cloud_broker, is_real_io_key}
use sbc_mcu_dut_controller.Bisect.Releases.{
  Release, GhRelease, parse_releases, Selection, select_window,
}
use sbc_mcu_dut_controller.Bisect.Search.{
  Verdict, pass, fail, infra, bad_oracle, both_passed, infra_persists, inconsistent, http_error,
  no_releases, no_ref, needs_key, out_of_range, out_of_fuel, Outcome, ok, raise, Report, bisect,
}

abbrev contains : String → String → Bool
contains needle log = elim (find? log needle) [ some _ ↦ true | none ↦ false ]

unfoldable pub classify : String → Verdict
classify log =
    if contains "CHECKIN_VERDICT ok=true" log
    then pass
    else if contains "CHECKIN_VERDICT ok=false" log
    then fail
    else infra

abbrev pub same_verdict : Verdict → Verdict → Bool
same_verdict pass pass = true
same_verdict fail fail = true
same_verdict infra infra = true
same_verdict _ _ = false

-- `len(set(results)) != 1` raises; else `results[0]`.
unfoldable pub judge : List Verdict → Outcome Verdict
judge [] = raise inconsistent
judge (v ∷ vs) = if any (λ u. not (same_verdict v u)) vs then raise inconsistent else ok v

pub record Stage : Type 0 where
  pub type : String
  pub io_url : Option String

pub record BisectConfig : Type 0 where
  pub working_ref : String
  pub broken_ref : String
  pub asset_glob : String
  -- secrets.get("IO_KEY", "")
  pub io_key : String
  pub stages : List Stage
  pub verify_times : ℕ
  pub infra_retries : ℕ

-- `_check_secrets` raises at the first such stage.
unfoldable pub lacks_key : BisectConfig → Bool
unfolding is_cloud_broker is_real_io_key
lacks_key cfg =
    any
      (λ (st : Stage).
        str_eq st.type "write_secrets_msc"
        && (is_cloud_broker (elim st.io_url [ some u ↦ u | none ↦ "" ])
            && not (is_real_io_key cfg.io_key)))
      cfg.stages

module _ {S : Type 0} (cfg : BisectConfig) (run_once : Release → S → Option Verdict × S) where
  -- `while len(results) < verify_times`
  unfoldable pub collect : ℕ → Release → List Verdict → ℕ → S → Outcome (List Verdict) × S
  collect zero release results infra_left s = (raise out_of_fuel, s)
  collect (suc fuel) release results infra_left s =
      if ltb (length results) cfg.verify_times
      then (let (v, s') = run_once release s in
          elim v as (λ _. Outcome (List Verdict) × S) [
            | none ↦ (raise http_error, s')
            | some verdict ↦ elim verdict as (λ _. Outcome (List Verdict) × S) [
              | infra ↦ elim infra_left as (λ _. Outcome (List Verdict) × S) [
                | zero ↦ (raise infra_persists, s')
                | suc left ↦ collect fuel release results left s'
              ]
              | pass ↦ collect fuel release (results ++ pass ∷ []) infra_left s'
              | fail ↦ collect fuel release (results ++ fail ∷ []) infra_left s'
            ]
          ])
      else (ok results, s)

  abbrev pub judged : Outcome (List Verdict) × S → Outcome Verdict × S
  judged (raise e, s) = (raise e, s)
  judged (ok results, s) = (judge results, s)

  -- Each round adds a result or uses up a retry.
  unfoldable pub test_version : Release → S → Outcome Verdict × S
  unfolding collect judge
  test_version release s =
      judged (collect (suc (cfg.verify_times + cfg.infra_retries)) release [] cfg.infra_retries s)

  -- The oracle's two checks: the working ref must pass, and the broken ref must fail.
  abbrev pub then_search : List Release → ℕ → ℕ → Outcome Verdict × S → Outcome Report × S
  then_search window wi bi (raise e, s) = (raise e, s)
  then_search window wi bi (ok pass, s) = (raise both_passed, s)
  then_search window wi bi (ok infra, s) = (raise both_passed, s)
  then_search window wi bi (ok fail, s) = bisect window test_version wi bi s

  abbrev pub then_broken : List Release → ℕ → ℕ → Release → Outcome Verdict × S → Outcome Report × S
  then_broken window wi bi broken (raise e, s) = (raise e, s)
  then_broken window wi bi broken (ok fail, s) = (raise bad_oracle, s)
  then_broken window wi bi broken (ok infra, s) = (raise bad_oracle, s)
  then_broken window wi bi broken (ok pass, s) = then_search window wi bi (test_version broken s)

  unfoldable pub search_window : Selection → S → Outcome Report × S
  unfolding test_version bisect
  search_window sel s = elim (get_elem? sel.window sel.working_idx) as (λ _. Outcome Report × S) [
    | none ↦ (raise out_of_range, s)
    | some working ↦ elim (get_elem? sel.window sel.broken_idx) as (λ _. Outcome Report × S) [
      | none ↦ (raise out_of_range, s)
      | some broken ↦
          then_broken sel.window sel.working_idx sel.broken_idx broken (test_version working s)
    ]
  ]

  -- The candidates that GitHub's answer holds, then the window, then the search.
  unfoldable pub run_on : List Release → S → Outcome Report × S
  unfolding select_window search_window
  run_on [] s = (raise no_releases, s)
  run_on (r ∷ rs) s =
      elim (select_window (r ∷ rs) cfg.working_ref cfg.broken_ref) as (λ _. Outcome Report × S) [
        | none ↦ (raise no_ref, s)
        | some sel ↦ search_window sel s
      ]

  unfoldable pub run : (String → String → Bool) → List GhRelease → S → Outcome Report × S
  unfolding lacks_key run_on parse_releases
  run fnmatch gh_json s =
      if lacks_key cfg
      then (raise needs_key, s)
      else run_on (parse_releases fnmatch cfg.asset_glob gh_json) s
