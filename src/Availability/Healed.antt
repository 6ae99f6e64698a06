-- ===== src/Availability/Healed.antt =====
-- src/hil_controller/availability_reconciler.py: the passes of the reconciler, one after the other, over
-- a device that comes back.
use mathlib.Core.Path.{subst}
use sbc_mcu_dut_controller.Prelude.{
  ℕ, ◌+◌, ◌≤◌, String, true, false, ◌&&◌, Option, none, some, List, [], ◌∷◌, ◌++◌, ◌≡◌, refl, sym,
  ap, ◌⊎◌, inl, inr, arith, leb, str_eq, sql_eq, All, All-mono, if_ind, &&-true, eq_iff,
}
use sbc_mcu_dut_controller.Store.{Device, Db}
use sbc_mcu_dut_controller.Availability.{retry_now, next_retry, backoff, micros}
use sbc_mcu_dut_controller.Availability.Retries.{IsDue, next_retry_iff}
use sbc_mcu_dut_controller.Availability.Reconciler.{
  ProbeReply, present, absent, raised, parse_iso, Settings, is_temporary, delay_after, decide_retry,
  write_for, reconcile_once,
}
use sbc_mcu_dut_controller.Availability.Pointwise.{effect, IsPeer}
use sbc_mcu_dut_controller.Availability.Ids.{Distinct, is_retry, of_id}
use sbc_mcu_dut_controller.Availability.Passes.{
  Pass, passes, pass-Holds, passes-Holds, passes-append,
}

-- The longest wait that a pass sets, with a steady interval.
abbrev pub longest : Settings → (steady_s : ℕ) → ℕ
longest set steady_s = micros steady_s + backoff set.window_s set.max_attempts

abbrev IsAvailable : Device → Type 0
IsAvailable d = d.status ≡ some "available"

-- The device is available, or its next probe is due at the time.
abbrev Ready : ℕ → Device → Type 0
Ready time d =
    (d.status ≡ some "available") ⊎ ((is_temporary d ≡ true) × IsDue (parse_iso d.retry_after) time)

available-temporary : (d : Device) → d.status ≡ some "available" → is_temporary d ≡ false
available-temporary d h = rw h refl

temporary-kind :
    (kind : Option String) → sql_eq kind (some "temporary") ≡ true → kind ≡ some "temporary"
temporary-kind none h = cc
temporary-kind (some k) h = ap some ((eq_iff k "temporary").0 h)

delay_after-longest :
    (set : Settings) (s attempts : ℕ)
    → set.steady_retry_s ≡ some s
    → delay_after set attempts ≤ longest set s
unfolding delay_after
delay_after-longest set s attempts h = rw h (
    if_ind (λ n. n ≤ longest set s) (leb set.max_attempts (attempts + 1)) (λ _. omega arith)
      (λ _. omega arith))

module _ (set : Settings) (s : ℕ) (steady : set.steady_retry_s ≡ some s) (p : Pass) where
  abbrev after_pass : Device → Device
  after_pass d = effect p.probe p.checked_at set p.now d

  written-Ready :
      (time : ℕ)
      → p.now + longest set s ≤ time
      → (r : ProbeReply) (d : Device) → is_temporary d ≡ true
      → Ready time (write_for p.probe p.checked_at set p.now r d d)
  unfolding write_for parse_iso
  written-Ready time l present d t = inl refl
  written-Ready time l absent d t =
      inr (t, omega (arith, l, delay_after-longest set s d.retry_attempts steady))
  written-Ready time l raised d t =
      inr (t, omega (arith, l, delay_after-longest set s d.retry_attempts steady))

  effect-Ready :
      (time : ℕ)
      → p.now + longest set s ≤ time
      → (d : Device) → Ready time d
      → Ready time (after_pass d)
  effect-Ready time l d ready =
      if_ind {A = Device} (Ready time)
        (is_temporary d && is_retry ((decide_retry p.probe p.checked_at set p.now d).action))
        (λ c. written-Ready time l (p.probe d) d (&&-true _ _ c).0) (λ _. ready)

  retries :
      (d : Device)
      → is_temporary d ≡ true
      → IsDue (parse_iso d.retry_after) p.now
      → (is_temporary d && is_retry ((decide_retry p.probe p.checked_at set p.now d).action)) ≡ true
  unfolding decide_retry
  retries d t due =
      let kind : d.unavailable_kind ≡ some "temporary" =
        temporary-kind d.unavailable_kind (&&-true _ _ t).1 in
      let go : (next_retry d.unavailable_kind d.retry_attempts (parse_iso d.retry_after) p.now
            set.max_attempts set.steady_retry_s).action
          ≡ retry_now =
        (next_retry_iff d.unavailable_kind d.retry_attempts (parse_iso d.retry_after) p.now
            set.max_attempts set.steady_retry_s).1
          (kind, rw steady tt, due) in
      rw (t, go) refl

  effect-available :
      (d : Device) → d.status ≡ some "available" → (after_pass d).status ≡ some "available"
  effect-available d h = rw (available-temporary d h) h

  effect-heals :
      (d : Device) → Ready p.now d → p.probe d ≡ present → (after_pass d).status ≡ some "available"
  unfolding write_for
  effect-heals d (inl h) k = effect-available d h
  effect-heals d (inr r) k = rw (retries d r.0 r.1, k) refl

-- With a steady interval, a device in a temporary outage that is due at some pass, whose probe finds
-- it then, is available after that pass and after every later one, whatever the probes of the earlier
-- passes answered and whatever others write to other devices while a pass probes, provided that they
-- keep the ids distinct and that each of the earlier passes was at least the longest wait before it.
pub passes-available :
    (set : Settings) (s : ℕ) (id : String) (before : List Pass) (heal : Pass) (later : List Pass)
    (db : Db) (d : Device)
    → set.steady_retry_s ≡ some s
    → Distinct db.devices
    → of_id id db.devices ≡ some d
    → is_temporary d ≡ true
    → IsDue (parse_iso d.retry_after) heal.now
    → All (λ (p : Pass). p.now + longest set s ≤ heal.now) before
    → All (λ (p : Pass). IsPeer id p.meanwhile) before
    → IsPeer id heal.meanwhile
    → All (λ (p : Pass). IsPeer id p.meanwhile) later
    → ((row : Device) → str_eq row.id id ≡ true → heal.probe row ≡ present)
    → (e : Device) × (of_id id (passes set (before ++ heal ∷ later) db).devices ≡ some e)
      × (e.status ≡ some "available")
unfolding passes
passes-available set s id before heal later db d steady distinct h t due gaps peers peer laters
      finds =
    let first =
      passes-Holds set id (Ready heal.now) before peers
        (All-mono (λ (p : Pass). p.now + longest set s ≤ heal.now)
          (λ (p : Pass).
            (d : Device)
            → Ready heal.now d
            → Ready heal.now (effect p.probe p.checked_at set p.now d))
          (λ p gap. effect-Ready set s steady p heal.now gap) before gaps)
        db (distinct, (d, h, inr (t, due))) in
    let second =
      pass-Holds set id (Ready heal.now) IsAvailable heal peer
        (λ d named ready. effect-heals set s steady heal d ready (finds d named))
        (passes set before db) first in
    let third =
      passes-Holds set id IsAvailable later laters (all_keep later)
        (reconcile_once heal.probe heal.checked_at set heal.now heal.meanwhile
          (passes set before db))
        second in
    subst
      (λ (end : Db). (e : Device) × (of_id id end.devices ≡ some e) × (e.status ≡ some "available"))
      (sym (passes-append set id before (heal ∷ later) db)) third.1
  where
    all_keep :
        (ps : List Pass)
        → All
            (λ (p : Pass).
              (d : Device) → IsAvailable d → IsAvailable (effect p.probe p.checked_at set p.now d))
            ps
    all_keep [] = tt
    all_keep (p ∷ ps) = (λ d a. effect-available set s steady p d a, all_keep ps)
