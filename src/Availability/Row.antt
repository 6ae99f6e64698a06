-- ===== src/Availability/Row.antt =====
-- The row of one device after a pass of src/hil_controller/availability_reconciler.py.
use sbc_mcu_dut_controller.Prelude.{
  ℕ, suc, ◌+◌, String, Bool, true, false, ◌&&◌, Option, none, some, List, ◌≡◌, ◌≢◌, ◌⊎◌, inl, inr,
  refl, arith, if_ind, sql_eq, ap, eq_iff, &&-true,
}
use sbc_mcu_dut_controller.Store.{Stamp, at, Device, Db}
use sbc_mcu_dut_controller.Availability.{next_retry}
use sbc_mcu_dut_controller.Availability.Reconciler.{
  ProbeReply, present, absent, raised, parse_iso, Settings, is_temporary, delay_after, decide_retry,
  write_for, reconcile_once,
}
use sbc_mcu_dut_controller.Availability.Pointwise.{effect, IsPeer, visit_all-effect}
use sbc_mcu_dut_controller.Availability.Ids.{Distinct, is_retry, of_id}

-- The outage is temporary, and next_retry says to probe now.
abbrev pub is_due : Settings → (now : ℕ) → Device → Bool
is_due set now d =
    is_temporary d
    && is_retry (
        (next_retry d.unavailable_kind d.retry_attempts (parse_iso d.retry_after) now
          set.max_attempts set.steady_retry_s).action)

-- The columns after the pass, by the probe's reply.
abbrev pub IsVisited : Settings → (now : ℕ) → ProbeReply → (before after : Device) → Type 0
IsVisited set now reply d e =
    ((is_due set now d ≡ false) × (e ≡ d))
    ⊎ ((is_due set now d ≡ true)
        × (reply ≡ present)
        × (e.status ≡ some "available")
        × (e.unavailable_kind ≡ none)
        × (e.unavailable_reason ≡ none)
        × (e.retry_attempts ≡ 0)
        × (e.retry_after ≡ none))
    ⊎ ((is_due set now d ≡ true)
        × (reply ≢ present)
        × (e.status ≡ some "unavailable")
        × (e.unavailable_kind ≡ some "temporary")
        × (e.unavailable_reason ≡ d.unavailable_reason)
        × (e.retry_attempts ≡ suc d.retry_attempts)
        × (e.retry_after ≡ some (at (now + delay_after set d.retry_attempts))))

known : (o : Option String) (s : String) → sql_eq o (some s) ≡ true → o ≡ some s
known none s h = cc
known (some t) s h = ap some ((eq_iff t s).0 h)

module _ (probe : Device → ProbeReply) (checked_at : Device → Stamp) (set : Settings)
    (now : ℕ) where
  written-IsVisited :
      (reply : ProbeReply) (d : Device)
      → is_due set now d ≡ true
      → IsVisited set now reply d (write_for probe checked_at set now reply d d)
  unfolding write_for
  written-IsVisited present d due = inr (inl (due, refl, refl, refl, refl, refl, refl))
  written-IsVisited absent d due =
      let t = &&-true _ _ (&&-true _ _ due).0 in
      inr (
        inr (
          due,
          λ h. cc,
          known d.status "unavailable" t.0,
          known d.unavailable_kind "temporary" t.1,
          refl,
          omega arith,
          refl,
        ))
  written-IsVisited raised d due =
      let t = &&-true _ _ (&&-true _ _ due).0 in
      inr (
        inr (
          due,
          λ h. cc,
          known d.status "unavailable" t.0,
          known d.unavailable_kind "temporary" t.1,
          refl,
          omega arith,
          refl,
        ))

  effect-IsVisited :
      (d : Device) → IsVisited set now (probe d) d (effect probe checked_at set now d)
  unfolding decide_retry
  effect-IsVisited d =
      if_ind {A = Device} (IsVisited set now (probe d) d) (is_due set now d)
        (λ due. written-IsVisited (probe d) d due) (λ not_due. inl (not_due, refl))

-- The row of a device after a pass: it is as it was where its outage is not a temporary one that is due;
-- it is available with its retry state cleared where the probe finds the device; and otherwise, a
-- probe that raises included, it stays in its outage with one attempt more and the next probe postponed
-- by the delay; provided that the ids are distinct and that others, while the pass probes, write no row
-- of the device.
pub reconcile_once-IsVisited :
    (probe : Device → ProbeReply) (checked_at : Device → Stamp) (set : Settings) (now : ℕ)
    (id : String) (meanwhile : Device → List Device → List Device)
    → IsPeer id meanwhile
    → (db : Db) (d : Device) → Distinct db.devices
    → of_id id db.devices ≡ some d
    → (e : Device) × (of_id id (reconcile_once probe checked_at set now meanwhile db).devices
        ≡ some e)
      × IsVisited set now (probe d) d e
unfolding reconcile_once
reconcile_once-IsVisited probe checked_at set now id meanwhile peer db d distinct h = (
  effect probe checked_at set now d,
  visit_all-effect probe checked_at set now id meanwhile peer db.devices d distinct h db.devices h,
  effect-IsVisited probe checked_at set now d,
)
