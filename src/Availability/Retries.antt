-- ===== src/Availability/Retries.antt =====
-- src/hil_controller/availability.py: when `next_retry` lets a probe run.
use sbc_mcu_dut_controller.Prelude.{
  ℕ, ◌≤◌, ◌<◌, String, true, false, Option, none, some, ◌≡◌, ◌↔◌, ◌≢◌, inl, inr, ap, sym, ◌∙◌,
  arith, eq_iff, Bool-cases,
}
use sbc_mcu_dut_controller.Availability.{retry_now, not_applicable, is_self_healable, next_retry}

-- The time of the next attempt has come, or none was set.
abbrev pub IsDue : Option ℕ → ℕ → Type 0
IsDue none now = Unit
IsDue (some t) now = t ≤ now

-- An attempt is left, or a steady interval goes on after the burst.
abbrev pub HasAttempt : (attempts max_attempts : ℕ) → Option ℕ → Type 0
HasAttempt attempts max_attempts none = attempts < max_attempts
HasAttempt attempts max_attempts (some s) = Unit

of_action :
    (attempts max now : ℕ) (after steady : Option ℕ)
    → ((next_retry (some "temporary") attempts after now max steady).action ≡ retry_now)
      ↔ (HasAttempt attempts max steady × IsDue after now)
unfolding next_retry is_self_healable
of_action attempts max now none none = ground arith
of_action attempts max now none (some s) = ground arith
of_action attempts max now (some t) none = ground arith
of_action attempts max now (some t) (some s) = ground arith

-- The outcome of `next_retry` for an outage that heals by itself: what it waits for, and what it
-- leaves.
not_temporary :
    (kind : Option String) (attempts max now : ℕ) (after steady : Option ℕ)
    → is_self_healable kind ≡ false
    → (next_retry kind attempts after now max steady).action ≡ not_applicable
unfolding next_retry is_self_healable
not_temporary kind attempts max now after steady h = ground arith

kind_of : (kind : Option String) → is_self_healable kind ≡ true → kind ≡ some "temporary"
unfolding is_self_healable
kind_of none h = cc
kind_of (some k) h = ap some ((eq_iff k "temporary").0 h)

retry-not_applicable : retry_now ≢ not_applicable
retry-not_applicable h = cc

-- `next_retry` lets a probe run exactly when the outage is temporary, an attempt of the burst is left
-- or a steady interval is set, and the time of the next attempt has come or was never set.
pub next_retry_iff :
    (kind : Option String) (attempts : ℕ) (after : Option ℕ) (now max : ℕ) (steady : Option ℕ)
    → ((next_retry kind attempts after now max steady).action ≡ retry_now)
      ↔ ((kind ≡ some "temporary") × HasAttempt attempts max steady × IsDue after now)
next_retry_iff kind attempts after now max steady = (forth, back)
  where
    back :
        (kind ≡ some "temporary") × HasAttempt attempts max steady × IsDue after now
        → (next_retry kind attempts after now max steady).action ≡ retry_now
    back h = rw h.0 ((of_action attempts max now after steady).1 (h.1, h.2))

    forth :
        (next_retry kind attempts after now max steady).action ≡ retry_now
        → (kind ≡ some "temporary") × HasAttempt attempts max steady × IsDue after now
    forth h = elim (Bool-cases (is_self_healable kind)) [
      | inl t ↦
          let e : kind ≡ some "temporary" = kind_of kind t in
          let r : HasAttempt attempts max steady × IsDue after now =
            (of_action attempts max now after steady).0
              (ap (λ k. (next_retry k attempts after now max steady).action) (sym e) ∙ h) in
          (e, r.0, r.1)
      | inr f ↦
          absurd (retry-not_applicable (sym h ∙ not_temporary kind attempts max now after steady f))
    ]
