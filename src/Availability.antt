-- ===== src/Availability.antt =====
-- src/hil_controller/availability.py: the decisions about an outage. Instants and spans are in
-- microseconds, the resolution of datetime and timedelta; the retry settings are in seconds.
pub mod Reconciler
pub mod Retries
pub mod Ids
pub mod Pointwise
pub mod Row
pub mod Passes
pub mod Healed
pub mod Tests
use sbc_mcu_dut_controller.Prelude.{
  ℕ, ◌+◌, ◌-◌, ◌*◌, ◌/◌, ◌%◌, String, Bool, true, false, not, ◌&&◌, Option, none, some,
  if◌then◌else◌, ltb, leb, ◌==◌, str_eq, truthy, or_else, is_null,
}
use sbc_mcu_dut_controller.Store.{Stamp, Device}

-- `RetryDecision.action`
pub data Action : Type 0 where
  retry_now wait give_up not_applicable : Action

pub record RetryDecision : Type 0 where
  pub action : Action
  pub wait_until : Option ℕ
  pub attempts_remaining : ℕ

unfoldable pub is_self_healable : Option String → Bool
is_self_healable none = false
is_self_healable (some kind) = str_eq kind "temporary"

abbrev pub micros : ℕ → ℕ
micros s = s * 1_000_000

-- A quotient of seconds as a timedelta: to the nearest microsecond, ties to even.
abbrev pub nearest : ℕ → ℕ → ℕ
nearest a b =
    let q : ℕ = a / b in
    let r : ℕ = a % b in if ltb (2 * r) b then q else if ltb b (2 * r) then q + 1 else q + q % 2

unfoldable pub backoff : ℕ → ℕ → ℕ
backoff window_s max_attempts =
    nearest (micros window_s) (if leb 1 max_attempts then max_attempts else 1)

-- `remaining <= 0` is `max_attempts <= retry_attempts`, and `max(0, remaining)` is the difference
-- on the natural numbers.
unfoldable pub next_retry :
    (kind : Option String)
    → (retry_attempts : ℕ) (retry_after : Option ℕ) (now max_attempts : ℕ)
    → (steady_retry_s : Option ℕ) → RetryDecision
unfolding is_self_healable
next_retry kind retry_attempts retry_after now max_attempts steady_retry_s =
    let remaining : ℕ = max_attempts - retry_attempts in
    if not (is_self_healable kind)
    then record { action = not_applicable; wait_until = none; attempts_remaining = 0 }
    else if leb max_attempts retry_attempts && is_null steady_retry_s
    then record { action = give_up; wait_until = none; attempts_remaining = 0 }
    else elim retry_after [
      | none ↦ record { action = retry_now; wait_until = none; attempts_remaining = remaining }
      | some t ↦
          if ltb now t
          then record { action = wait; wait_until = some t; attempts_remaining = remaining }
          else record { action = retry_now; wait_until = none; attempts_remaining = remaining }
    ]

-- The record of `GET /v1/targets`. `host_hw` is the host's merged hardware view, of which the
-- record reads the model.
pub record TargetRecord : Type 0 where
  pub target : String
  pub model : String
  pub device_id : String
  pub host_id : Option String
  pub available : Bool
  pub status : String
  pub kind : Option String
  pub reason : Option String
  pub retry_after : Option Stamp

abbrev text_or : Option String → String → String
text_or o d = if truthy o then elim o [ some s ↦ s | none ↦ d ] else d

unfoldable pub target_record : Device → (host_model : Option String) → TargetRecord
target_record d host_model =
    let status : String = text_or d.status "available" in
    let available : Bool = str_eq status "available" in
    let is_sbc : Bool = str_eq d.kind "sbc" in
    let model : String = if is_sbc && truthy host_model then text_or host_model "" else d.model in
    record {
      target = text_or d.build_target model;
      model = model;
      device_id = d.id;
      host_id = d.host_id;
      available = available;
      status = status;
      kind = if available then none else d.unavailable_kind;
      reason = if available then none else d.unavailable_reason;
      retry_after = if available then none else d.retry_after;
    }
