-- ===== src/Bisect/Search.antt =====
-- `Verdict` and `bisect` of bisect.py. `test_fn` acts on a state `S` (the bench) and may raise.
use sbc_mcu_dut_controller.Prelude.{
  ℕ, zero, suc, ◌+◌, ◌-◌, ◌/◌, String, Bool, true, false, none, some, List, [], ◌∷◌, ◌++◌,
  if◌then◌else◌, ltb, leb, get_elem?,
}
use sbc_mcu_dut_controller.Bisect.Releases.{Release}

pub data Verdict : Type 0 where
  pass fail infra : Verdict

-- `v == Verdict.PASS`
abbrev pub is_pass : Verdict → Bool
is_pass pass = true
is_pass _ = false

pub data BisectError : Type 0 where
  -- `http_error` is an httpx error of a run, which escapes
  bad_oracle both_passed infra_persists inconsistent http_error no_releases no_ref needs_key :
      BisectError
  -- an index outside the window (an IndexError), or fuel used up, which the source does not have
  out_of_range out_of_fuel : BisectError

pub data Outcome {ℓ} (A : Type ℓ) : Type ℓ where
  ok : A → Outcome A
  raise : BisectError → Outcome A

pub record Tested : Type 0 where
  pub tag : String
  pub verdict : Verdict

-- The loop's variables when it ends.
pub record Ends : Type 0 where
  pub good : ℕ
  pub bad : ℕ
  pub tested : List Tested

pub record Report : Type 0 where
  pub first_broken : String
  pub last_good : String
  pub tested : List Tested
  pub forward : Bool

-- abs(bad - good)
abbrev pub gap : ℕ → ℕ → ℕ
gap good bad = (bad - good) + (good - bad)

module _ {S : Type 0} (window : List Release) (test_fn : Release → S → Outcome Verdict × S) where
  -- `while abs(bad - good) > 1`
  unfoldable pub narrow : ℕ → ℕ → ℕ → List Tested → S → Outcome Ends × S
  narrow zero good bad tested s = (raise out_of_fuel, s)
  narrow (suc fuel) good bad tested s =
      if leb (gap good bad) 1
      then (ok (record { good = good; bad = bad; tested = tested }), s)
      else let mid : ℕ = (good + bad) / 2 in
        elim (get_elem? window mid) as (λ _. Outcome Ends × S) [
          | none ↦ (raise out_of_range, s)
          | some rel ↦
              let (v, s') = test_fn rel s in
              elim v as (λ _. Outcome Ends × S) [
                | raise e ↦ (raise e, s')
                | ok verdict ↦
                    narrow fuel (if is_pass verdict then mid else good)
                      (if is_pass verdict then bad else mid)
                      (tested ++ record { tag = rel.tag; verdict = verdict } ∷ []) s'
              ]
        ]

  abbrev pub report : Bool → Outcome Ends × S → Outcome Report × S
  report forward (raise e, s) = (raise e, s)
  report forward (ok ends, s) = elim (get_elem? window ends.bad) as (λ _. Outcome Report × S) [
    | none ↦ (raise out_of_range, s)
    | some broken ↦ elim (get_elem? window ends.good) as (λ _. Outcome Report × S) [
      | none ↦ (raise out_of_range, s)
      | some working ↦ (
        ok (record {
          first_broken = broken.tag;
          last_good = working.tag;
          tested = ends.tested;
          forward = forward;
        }),
        s,
      )
    ]
  ]

  -- The gap falls in each round, so it bounds the rounds.
  unfoldable pub bisect : ℕ → ℕ → S → Outcome Report × S
  unfolding narrow
  bisect working_idx broken_idx s =
      report (ltb working_idx broken_idx)
        (narrow (suc (gap working_idx broken_idx)) working_idx broken_idx [] s)
