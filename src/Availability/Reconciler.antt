-- ===== src/Availability/Reconciler.antt =====
-- src/hil_controller/availability_reconciler.py: `reconcile_once`. The probe of a device answers, or
-- raises, which counts as a failed attempt. `checked_at` is the value of `now_iso()` in the UPDATE of
-- a device.
use sbc_mcu_dut_controller.Prelude.{
  ℕ, ◌+◌, String, Bool, ◌&&◌, Option, none, some, List, [], ◌∷◌, map, if◌then◌else◌, leb, str_eq,
  sql_eq, select,
}
use sbc_mcu_dut_controller.Store.{Stamp, at, malformed, Device, Db}
use sbc_mcu_dut_controller.Availability.{retry_now, RetryDecision, next_retry, backoff, micros}

pub data ProbeReply : Type 0 where
  present absent raised : ProbeReply

-- `_parse_iso`: a text that does not parse counts as no time.
unfoldable pub parse_iso : Option Stamp → Option ℕ
parse_iso none = none
parse_iso (some (at t)) = some t
parse_iso (some (malformed _)) = none

pub record Settings : Type 0 where
  pub max_attempts : ℕ
  pub window_s : ℕ
  pub steady_retry_s : Option ℕ

-- `status = 'unavailable' AND unavailable_kind = 'temporary'`
abbrev pub is_temporary : Device → Bool
is_temporary d =
    sql_eq d.status (some "unavailable") && sql_eq d.unavailable_kind (some "temporary")

-- The columns that the UPDATE of a healed device writes.
abbrev pub healed : Stamp → Device → Device
healed now d = record d {
  status = some "available";
  unavailable_kind = none;
  unavailable_reason = none;
  unavailable_since = none;
  retry_attempts = 0;
  retry_after = none;
  last_checked_at = some now;
}

unfoldable pub delay_after : Settings → (attempts : ℕ) → ℕ
delay_after set attempts = elim set.steady_retry_s [
  | none ↦ backoff set.window_s set.max_attempts
  | some s ↦
      if leb set.max_attempts (attempts + 1)
      then micros s
      else backoff set.window_s set.max_attempts
]

-- The columns that the UPDATE of a device that is still absent writes.
abbrev pub postponed : (retry_after : ℕ) → Stamp → Device → Device
postponed retry_after now d = record d {
  retry_attempts = d.retry_attempts + 1;
  retry_after = some (at retry_after);
  last_checked_at = some now;
}

-- UPDATE devices SET … WHERE id = ?
unfoldable pub update_device : String → (Device → Device) → List Device → List Device
update_device id f devices = map (λ d. if str_eq d.id id then f d else d) devices

module _ (probe : Device → ProbeReply) (checked_at : Device → Stamp) (set : Settings)
    (now : ℕ) where
  unfoldable pub decide_retry : Device → RetryDecision
  decide_retry d =
      next_retry d.unavailable_kind d.retry_attempts (parse_iso d.retry_after) now set.max_attempts
        set.steady_retry_s

  -- What the pass writes to a device that is due.
  unfoldable pub write_for : ProbeReply → Device → Device → Device
  write_for present row d = healed (checked_at row) d
  write_for absent row d = postponed (now + delay_after set row.retry_attempts) (checked_at row) d
  write_for raised row d = postponed (now + delay_after set row.retry_attempts) (checked_at row) d

  -- `meanwhile row` is what others write to the devices after the query, by the time that the probe of
  -- the row has answered, and since the UPDATE of the row before it.
  module _ (meanwhile : Device → List Device → List Device) where
    -- The body of the loop, for one row of the query.
    unfoldable pub visit : Device → List Device → List Device
    unfolding decide_retry update_device write_for
    visit row devices = elim ((decide_retry row).action) as (λ _. List Device) [
      | retry_now ↦ update_device row.id (write_for (probe row) row) (meanwhile row devices)
      | _ ↦ devices
    ]

    unfoldable pub visit_all : List Device → List Device → List Device
    unfolding visit
    visit_all [] devices = devices
    visit_all (row ∷ rows) devices = visit_all rows (visit row devices)

    unfoldable pub reconcile_once : Db → Db
    unfolding visit_all
    reconcile_once db = record db {
      devices = visit_all (select is_temporary db.devices) db.devices;
    }
