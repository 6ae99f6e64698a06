-- ===== src/Bisect/Verdicts.antt =====
-- What `test_version` and `run` of bisect.py answer.
use sbc_mcu_dut_controller.Prelude.{
  Option, none, some, ℕ, zero, suc, ◌+◌, ◌-◌, ◌≤◌, ◌<◌, false, not, List, [], ◌∷◌, ◌++◌, ◌≡◌, ◌≢◌,
  ◌⊎◌, refl, inl, inr, arith, ltb, length, length-append, any, All, All-append, Bool-cases, ltb→lt,
  ltb-false→le,
}
use sbc_mcu_dut_controller.Bisect.Releases.{Release}
use sbc_mcu_dut_controller.Bisect.Search.{
  Verdict, pass, fail, infra, infra_persists, inconsistent, http_error, Outcome, ok, raise,
}
use sbc_mcu_dut_controller.Bisect.Runner.{
  same_verdict, judge, BisectConfig, collect, judged, test_version,
}

module _ {S : Type 0} (cfg : BisectConfig) (run_once : Release → S → Option Verdict × S) where
  -- How the collection of verdicts ends: a run raised, the retries are used up, or all of the runs gave
  -- one.
  abbrev Settled : Outcome (List Verdict) → Type 0
  Settled o =
      (o ≡ raise http_error)
      ⊎ (o ≡ raise infra_persists)
      ⊎ ((vs : List Verdict) × (o ≡ ok vs)
          × All (λ v. v ≢ infra) vs
          × (length vs ≡ cfg.verify_times))

  collect-Settled :
      (fuel : ℕ) (release : Release) (results : List Verdict) (left : ℕ) (s : S)
      → (cfg.verify_times - length results) + left < fuel
      → length results ≤ cfg.verify_times
      → All (λ v. v ≢ infra) results
      → Settled (collect cfg run_once fuel release results left s).0
  unfolding collect
  collect-Settled zero release results left s f l a = absurd (omega arith)
  collect-Settled (suc fuel) release results left s f l a =
      elim (Bool-cases (ltb (length results) cfg.verify_times)) [
        | inr full ↦ rw full (
            inr (
              inr (
                results,
                refl,
                a,
                omega (arith, ltb-false→le (length results) cfg.verify_times full),
              )))
        | inl more ↦ rw more (
            round (run_once release s).0 (run_once release s).1 left f (ltb→lt _ _ more)
              (collect-Settled fuel release))
      ]
    where
      round :
          (v : Option Verdict) (s' : S) (left : ℕ)
          → (cfg.verify_times - length results) + left < suc fuel
          → length results < cfg.verify_times
          → ((results : List Verdict) (left : ℕ) (s : S)
              → (cfg.verify_times - length results) + left < fuel
              → length results ≤ cfg.verify_times
              → All (λ v. v ≢ infra) results
              → Settled (collect cfg run_once fuel release results left s).0)
          → Settled
              (elim v as (λ _. Outcome (List Verdict) × S) [
                | none ↦ (raise http_error, s')
                | some verdict ↦ elim verdict as (λ _. Outcome (List Verdict) × S) [
                  | infra ↦ elim left as (λ _. Outcome (List Verdict) × S) [
                    | zero ↦ (raise infra_persists, s')
                    | suc left ↦ collect cfg run_once fuel release results left s'
                  ]
                  | pass ↦ collect cfg run_once fuel release (results ++ pass ∷ []) left s'
                  | fail ↦ collect cfg run_once fuel release (results ++ fail ∷ []) left s'
                ]
              ]).0
      round none s' left f m ih = inl refl
      round (some infra) s' zero f m ih = inr (inl refl)
      round (some infra) s' (suc left) f m ih = ih results left s' (omega arith) (omega arith) a
      round (some pass) s' left f m ih =
          ih (results ++ pass ∷ []) left s' (omega (arith, length-append results (pass ∷ [])))
            (omega (arith, length-append results (pass ∷ [])))
            (All-append (λ v. v ≢ infra) results (pass ∷ []) a (λ e. cc, tt))
      round (some fail) s' left f m ih =
          ih (results ++ fail ∷ []) left s' (omega (arith, length-append results (fail ∷ [])))
            (omega (arith, length-append results (fail ∷ [])))
            (All-append (λ v. v ≢ infra) results (fail ∷ []) a (λ e. cc, tt))

  judge-cases :
      (vs : List Verdict)
      → All (λ v. v ≢ infra) vs
      → (judge vs ≡ raise inconsistent) ⊎ ((v : Verdict) × (judge vs ≡ ok v) × (v ≢ infra))
  unfolding judge
  judge-cases [] a = inl refl
  judge-cases (v ∷ vs) a = elim (Bool-cases (any (λ u. not (same_verdict v u)) vs)) [
    | inl mixed ↦ inl (rw mixed)
    | inr agreed ↦ inr (v, rw agreed, a.0)
  ]

  -- `test_version` always comes to an end, by one of four: an httpx error of a run escapes it, the
  -- retries are used up, the runs disagree (or none was asked for), or a verdict, which is never INFRA.
  pub test_version_lem :
      (release : Release) (s : S)
      → let o : Outcome Verdict = (test_version cfg run_once release s).0 in
        (o ≡ raise http_error)
        ⊎ (o ≡ raise infra_persists)
        ⊎ (o ≡ raise inconsistent)
        ⊎ ((v : Verdict) × (o ≡ ok v) × (v ≢ infra))
  unfolding test_version
  test_version_lem release s = of _ _ (
      collect-Settled (suc (cfg.verify_times + cfg.infra_retries)) release [] cfg.infra_retries s
        (omega arith) (omega arith) tt)
    where
      of :
          (o : Outcome (List Verdict)) (s' : S)
          → Settled o
          → ((judged cfg run_once (o, s')).0 ≡ raise http_error)
            ⊎ ((judged cfg run_once (o, s')).0 ≡ raise infra_persists)
            ⊎ ((judged cfg run_once (o, s')).0 ≡ raise inconsistent)
            ⊎ ((v : Verdict) × ((judged cfg run_once (o, s')).0 ≡ ok v) × (v ≢ infra))
      of (raise e) s' (inl p) = inl (cc)
      of (raise e) s' (inr (inl p)) = inr (inl (cc))
      of (raise e) s' (inr (inr (vs, p, a, l))) = cc
      of (ok vs) s' (inl p) = cc
      of (ok vs) s' (inr (inl p)) = cc
      of (ok vs) s' (inr (inr (us, p, a, l))) =
          let same : vs ≡ us = cc in inr (inr (rw same (judge-cases us a)))

  -- A release that answers the same each time.
  module _ (release : Release) (x : Verdict) (real : x ≢ infra)
      (answers : (s : S) → (run_once release s).0 ≡ some x) where
    collect_steady :
        (fuel : ℕ) (results : List Verdict) (left : ℕ) (s : S)
        → cfg.verify_times - length results < fuel
        → length results ≤ cfg.verify_times
        → All (λ v. v ≡ x) results
        → (vs : List Verdict) × ((collect cfg run_once fuel release results left s).0 ≡ ok vs)
          × All (λ v. v ≡ x) vs
          × (length vs ≡ cfg.verify_times)
    unfolding collect
    collect_steady zero results left s f l a = absurd (omega arith)
    collect_steady (suc fuel) results left s f l a =
        elim (Bool-cases (ltb (length results) cfg.verify_times)) [
          | inr full ↦
              rw full (
                results,
                refl,
                a,
                omega (arith, ltb-false→le (length results) cfg.verify_times full),
              )
          | inl more ↦
              rw (more, answers s)
                (round x refl (
                  collect_steady fuel (results ++ x ∷ []) left (run_once release s).1
                    (omega (
                      arith,
                      length-append results (x ∷ []),
                      ltb→lt (length results) cfg.verify_times more,
                    ))
                    (omega (
                      arith,
                      length-append results (x ∷ []),
                      ltb→lt (length results) cfg.verify_times more,
                    ))
                    (All-append (λ v. v ≡ x) results (x ∷ []) a (refl, tt))))
        ]
      where
        round :
            (v : Verdict)
            → v ≡ x
            → ((vs : List Verdict) × ((collect cfg run_once fuel release
                    (results ++ v ∷ [])
                    left
                    (run_once release s).1).0
                  ≡ ok vs)
                × All (λ v. v ≡ x) vs
                × (length vs ≡ cfg.verify_times))
            → (vs : List Verdict) × ((elim v as (λ _. Outcome (List Verdict) × S) [
              | infra ↦ elim left as (λ _. Outcome (List Verdict) × S) [
                | zero ↦ (raise infra_persists, (run_once release s).1)
                | suc left ↦ collect cfg run_once fuel release results left (run_once release s).1
              ]
              | pass ↦
                  collect cfg run_once fuel release
                    (results ++ pass ∷ [])
                    left
                    (run_once release s).1
              | fail ↦
                  collect cfg run_once fuel release
                    (results ++ fail ∷ [])
                    left
                    (run_once release s).1
            ]).0
                ≡ ok vs)
              × All (λ v. v ≡ x) vs
              × (length vs ≡ cfg.verify_times)
        round infra e ih = absurd (real (cc))
        round pass e ih = ih
        round fail e ih = ih

    All-agree :
        (vs : List Verdict) → All (λ v. v ≡ x) vs → any (λ u. not (same_verdict x u)) vs ≡ false
    All-agree [] a = refl
    All-agree (v ∷ vs) a = ground (arith, All-agree vs a.1)

    judge_steady : (vs : List Verdict) → All (λ v. v ≡ x) vs → 0 < length vs → judge vs ≡ ok x
    unfolding judge
    judge_steady [] a h = absurd (omega arith)
    judge_steady (v ∷ vs) a h = rw (a.0, All-agree vs a.1)

    -- A release whose every run gives one verdict is given that verdict.
    pub test_version_steady :
        0 < cfg.verify_times → (s : S) → (test_version cfg run_once release s).0 ≡ ok x
    unfolding test_version
    test_version_steady h s =
        let (vs, e, a, l) =
          collect_steady (suc (cfg.verify_times + cfg.infra_retries)) [] cfg.infra_retries s
            (omega arith) (omega arith) tt in
        of _ _ e (judge_steady vs a (omega arith))
      where
        of :
            (o : Outcome (List Verdict)) (s' : S) {vs : List Verdict}
            → o ≡ ok vs
            → judge vs ≡ ok x
            → (judged cfg run_once (o, s')).0 ≡ ok x
        of (raise e) s' p j = cc
        of (ok us) s' p j = cc
