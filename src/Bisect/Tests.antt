-- ===== src/Bisect/Tests.antt =====
-- A list of four releases whose third one broke.
use sbc_mcu_dut_controller.Prelude.{
  Option, if◌then◌else◌, ℕ, ◌+◌, ◌≤◌, ◌^◌, String, Bool, true, false, none, some, List, [], ◌∷◌,
  ◌≡◌, refl, ◌≢◌, ◌⊎◌, length, ltb, arith,
}
use mathlib.Core.List.{Perm}
use sbc_mcu_dut_controller.Bisect.Version.{
  version_key, search_key, match_here, beta_suffix, number, literal, digit_run, is_cloud_broker,
  normalised, after_scheme, io_suffix, is_real_io_key,
}
use sbc_mcu_dut_controller.Bisect.Releases.{
  Release, GhRelease, key_leb, insert_release, sort_releases, candidate, candidates, parse_releases,
  last_index, find_ref, Selection, select_window,
}
use sbc_mcu_dut_controller.Bisect.Sorted.{IsSorted, Parsed, parse_releases_lem}
use sbc_mcu_dut_controller.Bisect.Search.{
  Verdict, pass, fail, infra, infra_persists, inconsistent, http_error, Outcome, ok, raise, Report,
  narrow, bisect,
}
use sbc_mcu_dut_controller.Bisect.Boundary.{IsBoundary, bisect-IsBoundary}
use sbc_mcu_dut_controller.Bisect.Runner.{
  BisectConfig, lacks_key, collect, judge, test_version, search_window, run_on, run,
}
use sbc_mcu_dut_controller.Bisect.Verdicts.{test_version_lem}
use sbc_mcu_dut_controller.Bisect.Whole.{run-IsBoundary}

abbrev any_name : String → String → Bool
any_name name pattern = true

abbrev published : String → GhRelease
published tag = record {
  tag_name = some tag;
  name = none;
  assets = record { name = "fw.uf2"; browser_download_url = "https://x/fw.uf2" } ∷ [];
}

-- GitHub answers the newest first.
abbrev answer : List GhRelease
answer =
    published "1.0.0"
    ∷ published "1.0.0-beta.9"
    ∷ published "1.0.0-beta.10"
    ∷ published "1.0.0-beta.8"
    ∷ []

abbrev version_at : String → ℕ → Release
version_at tag beta = record {
  tag = tag;
  key = record { x = 1; y = 0; z = 0; beta = beta };
  asset_url = "https://x/fw.uf2";
  asset_name = "fw.uf2";
}

abbrev four : List Release
four =
    version_at "1.0.0-beta.8" 8
    ∷ version_at "1.0.0-beta.9" 9
    ∷ version_at "1.0.0-beta.10" 10
    ∷ version_at "1.0.0" 1_000_000
    ∷ []

-- The numbers of the betas are compared as numbers, and the final release comes last.
sorted_answer : parse_releases any_name "*" answer ≡ four
unfolding parse_releases candidates candidate sort_releases insert_release key_leb version_key
    search_key match_here beta_suffix number literal digit_run
sorted_answer = refl

offline_key : version_key "v2.1.3-offline-beta.4" ≡ some (record { x = 2; y = 1; z = 3; beta = 4 })
unfolding version_key search_key match_here beta_suffix number literal digit_run
offline_key = refl

broker_with_port : is_cloud_broker "mqtts://IO.Adafruit.com:8883/x" ≡ true
unfolding is_cloud_broker normalised after_scheme io_suffix literal
broker_with_port = refl

own_broker : is_cloud_broker "mqtt://notadafruit.com" ≡ false
unfolding is_cloud_broker normalised after_scheme io_suffix literal
own_broker = refl

blank_key : is_real_io_key " Placeholder " ≡ false
unfolding is_real_io_key normalised
blank_key = refl

-- Betas 8 and 9 pass, what follows fails.
abbrev verdict_of : Release → Verdict
verdict_of r = elim (ltb r.key.beta 10) [ true ↦ pass | false ↦ fail ]

abbrev test_fn : Release → ℕ → Outcome Verdict × ℕ
test_fn r n = (ok (verdict_of r), n + 1)

abbrev run_once : Release → ℕ → Option Verdict × ℕ
run_once r n = (some (verdict_of r), n + 1)

abbrev cfg : BisectConfig
cfg = record {
  working_ref = "1.0.0-beta.8";
  broken_ref = "1.0.0";
  asset_glob = "*";
  io_key = "";
  stages = [];
  verify_times = 2;
  infra_retries = 1;
}

bisect_example :
    (r : Report) × ((bisect four test_fn 0 3 0).0 ≡ ok r) × IsBoundary four verdict_of 2 r
bisect_example =
    bisect-IsBoundary four test_fn verdict_of (λ r s. refl) 0 3 2 (version_at "1.0.0-beta.8" 8)
      (version_at "1.0.0" 1_000_000) 0 refl refl refl (λ e. cc) (omega arith)

verdict_of-real : (r : Release) → verdict_of r ≢ infra
verdict_of-real r = ground arith

abbrev found : Report
found = record {
  first_broken = "1.0.0-beta.10";
  last_good = "1.0.0-beta.9";
  tested =
      record { tag = "1.0.0-beta.9"; verdict = pass }
      ∷ record { tag = "1.0.0-beta.10"; verdict = fail }
      ∷ [];
  forward = true;
}

run-found : (run cfg run_once any_name answer 0).0 ≡ ok found
unfolding run lacks_key run_on parse_releases candidates candidate sort_releases insert_release
    key_leb version_key search_key match_here beta_suffix number literal digit_run select_window
    find_ref last_index search_window test_version collect judge bisect narrow
run-found = refl

answer-length : length (parse_releases any_name cfg.asset_glob answer) ≤ 2 ^ 2
unfolding parse_releases candidates candidate sort_releases insert_release key_leb version_key
    search_key match_here beta_suffix number literal digit_run
answer-length = omega arith

run_example :
    (sel : Selection) × (select_window
        (parse_releases any_name cfg.asset_glob answer)
        cfg.working_ref
        cfg.broken_ref
      ≡ some sel)
    × IsBoundary sel.window verdict_of 2 found
run_example =
    run-IsBoundary cfg run_once verdict_of verdict_of-real (λ r s. refl) (omega arith) any_name
      answer 2 0 found answer-length run-found

parse_example :
    IsSorted (parse_releases any_name "*" answer)
    × (rs : List Release) × Parsed any_name "*" answer rs
    × Perm (parse_releases any_name "*" answer) rs
parse_example = parse_releases_lem any_name "*" answer

abbrev middle : Selection
middle = record {
  window = version_at "1.0.0-beta.9" 9 ∷ version_at "1.0.0-beta.10" 10 ∷ [];
  working_idx = 1;
  broken_idx = 0;
}

-- The controller answers the second submission with an error.
abbrev flaky : Release → ℕ → Option Verdict × ℕ
flaky r n = (if ltb n 1 then some (verdict_of r) else none, n + 1)

escapes : (test_version cfg flaky (version_at "1.0.0-beta.8" 8) 0).0 ≡ raise http_error
unfolding test_version collect judge
escapes = refl

test_version_example :
    ((test_version cfg flaky (version_at "1.0.0-beta.8" 8) 0).0 ≡ raise http_error)
    ⊎ ((test_version cfg flaky (version_at "1.0.0-beta.8" 8) 0).0 ≡ raise infra_persists)
    ⊎ ((test_version cfg flaky (version_at "1.0.0-beta.8" 8) 0).0 ≡ raise inconsistent)
    ⊎ ((v : Verdict) × ((test_version cfg flaky (version_at "1.0.0-beta.8" 8) 0).0 ≡ ok v)
        × (v ≢ infra))
test_version_example = test_version_lem cfg flaky (version_at "1.0.0-beta.8" 8) 0
