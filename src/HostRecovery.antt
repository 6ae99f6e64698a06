-- ===== src/HostRecovery.antt =====
-- src/hil_controller/host_recovery.py: a host whose USB stack is wedged, or that is off the network,
-- as the tables show it, and the pass that reboots the wedged ones. `now` is the value of `now_iso()`
-- in a call, and `later` that of `retry_after`.
pub mod Shell
pub mod Power
pub mod Cleared
pub mod Recovered
pub mod Tests
use sbc_mcu_dut_controller.Prelude.{
  ℕ, zero, suc, ◌/◌, ◌%◌, String, Bool, true, false, not, ◌&&◌, ◌||◌, Option, none, some, List, [],
  ◌∷◌, ◌++◌, map, if◌then◌else◌, ltb, leb, ◌==◌, str_eq, one_of, truthy, or_else, sql_eq, coalesce,
  codes, str_of, lower, ◌<>◌, select, length,
}
use sbc_mcu_dut_controller.Store.{Stamp, Host, Device, Job, Db}

abbrev pub wedged_reason_prefix : String
wedged_reason_prefix = "host USB stack wedged"

abbrev pub unreachable_reason_prefix : String
unreachable_reason_prefix = "host unreachable"

abbrev pub active_states : List String
active_states = "assigned" ∷ "preparing" ∷ "flashing" ∷ "running" ∷ []

-- `if detail: reason += f" ({detail})"`
abbrev pub with_detail : String → String
with_detail detail = if truthy (some detail) then " (" <> detail <> ")" else ""

unfoldable pub wedged_reason : (host_id detail : String) (reboot_eta_s : ℕ) → String
wedged_reason host_id detail reboot_eta_s =
    wedged_reason_prefix
    <> " — "
    <> host_id
    <> " reboot required, back ~"
    <> str_of reboot_eta_s
    <> "s"
    <> with_detail detail

unfoldable pub unreachable_reason : (host_id detail : String) (reboot_eta_s : ℕ) → String
unreachable_reason host_id detail reboot_eta_s =
    unreachable_reason_prefix
    <> " — "
    <> host_id
    <> " unreachable, back ~"
    <> str_of reboot_eta_s
    <> "s"
    <> with_detail detail

-- `host_id=? OR hub_host_id=?`
abbrev pub on_host : String → Device → Bool
on_host host_id d = sql_eq d.host_id (some host_id) || sql_eq d.hub_host_id (some host_id)

-- The columns that the UPDATE of `_flag_host_devices` writes.
abbrev pub flagged : (reason : String) (now later : Stamp) → Device → Device
flagged reason now later d = record d {
  status = some "unavailable";
  unavailable_kind = some "temporary";
  unavailable_reason = some reason;
  unavailable_since = coalesce d.unavailable_since (some now);
  retry_after = some later;
  retry_attempts = 0;
  last_checked_at = some now;
}

-- UPDATE devices SET … WHERE p
abbrev pub update_devices : (Device → Bool) → (Device → Device) → Db → Db
update_devices p f db = record db { devices = map (λ d. if p d then f d else d) db.devices }

abbrev pub update_hosts : (String → Bool) → (Host → Host) → Db → Db
update_hosts p f db = record db { hosts = map (λ (h : Host). if p h.id then f h else h) db.hosts }

unfoldable pub flag_host_devices : (host_id reason : String) (now later : Stamp) → Db → Db
flag_host_devices host_id reason now later db =
    update_devices (on_host host_id) (flagged reason now later) db

unfoldable pub mark_host_wedged :
    (host_id detail : String) (reboot_eta_s : ℕ) (now later : Stamp) → Db → Db
unfolding flag_host_devices
mark_host_wedged host_id detail reboot_eta_s now later db =
    update_hosts (λ id. str_eq id host_id) (λ h. record h { status = "reboot_required" })
      (flag_host_devices host_id (wedged_reason host_id detail reboot_eta_s) now later db)

unfoldable pub mark_host_unreachable :
    (host_id detail : String) (reboot_eta_s : ℕ) (now later : Stamp) → Db → Db
unfolding flag_host_devices
mark_host_unreachable host_id detail reboot_eta_s now later db =
    flag_host_devices host_id (unreachable_reason host_id detail reboot_eta_s) now later db

unfoldable pub host_active_job_count : String → Db → ℕ
host_active_job_count host_id db =
    length
      (select (λ j. sql_eq j.assigned_host (some host_id) && one_of j.state active_states) db.jobs)

unfoldable pub list_reboot_required_hosts : Db → List String
list_reboot_required_hosts db =
    map (λ (h : Host). h.id) (select (λ h. str_eq h.status "reboot_required") db.hosts)

-- `text LIKE prefix || '%'`, for a prefix without wildcards: SQLite's LIKE ignores the case of ASCII
-- letters.
abbrev pub like_codes : (prefix text : List ℕ) → Bool
like_codes [] s = true
like_codes (p ∷ ps) [] = false
like_codes (p ∷ ps) (c ∷ cs) = lower p == lower c && like_codes ps cs

abbrev pub like_prefix : String → Option String → Bool
like_prefix prefix none = false
like_prefix prefix (some text) = like_codes (codes prefix) (codes text)

-- The columns that the UPDATE of a recovered device writes.
abbrev pub cleared : Stamp → Device → Device
cleared now d = record d {
  status = some "available";
  unavailable_kind = none;
  unavailable_reason = none;
  unavailable_since = none;
  retry_attempts = 0;
  retry_after = none;
  last_checked_at = some now;
}

-- The rows that a recovery of the host clears.
abbrev pub is_wedge_flagged : String → Device → Bool
is_wedge_flagged host_id d =
    on_host host_id d && like_prefix wedged_reason_prefix d.unavailable_reason

unfoldable pub clear_host_recovered : String → Stamp → Db → Db
clear_host_recovered host_id now db =
    update_hosts (λ id. str_eq id host_id)
      (λ h. record h { status = "available"; last_seen_at = some now })
      (update_devices (is_wedge_flagged host_id) (cleared now) db)

pub data RebootReply : Type 0 where
  rebooted not_rebooted raised : RebootReply

-- `now host_id` is the value of `now_iso()` in the recovery of the host, and `meanwhile host_id` what
-- others write while its reboot is awaited.
module _ (reboot_fn : String → RebootReply) (meanwhile : String → Db → Db) (enabled : Bool)
    (now : String → Stamp) where
  -- `ok`: a reboot that raises counts as one that did not complete.
  abbrev pub ok : String → Bool
  ok host_id = elim (reboot_fn host_id) [ rebooted ↦ true | _ ↦ false ]

  -- `if ok`: `recovered` and the tables after it.
  abbrev pub if_ok : Bool → String → List String × Db → List String × Db
  if_ok true host_id (recovered, db) =
      (recovered ++ host_id ∷ [], clear_host_recovered host_id (now host_id) db)
  if_ok false host_id acc = acc

  -- The reboot, where neither `continue` is reached.
  abbrev pub reboot_if : Bool → String → List String × Db → List String × Db
  reboot_if true host_id (recovered, db) =
      if_ok (ok host_id) host_id (recovered, meanwhile host_id db)
  reboot_if false host_id acc = acc

  -- The loop's body, for one host.
  unfoldable pub recover_host : String → List String × Db → List String × Db
  unfolding host_active_job_count clear_host_recovered
  recover_host host_id acc =
      reboot_if (host_active_job_count host_id acc.1 == 0 && enabled) host_id acc

  unfoldable pub recover_each : List String → List String × Db → List String × Db
  unfolding recover_host
  recover_each [] acc = acc
  recover_each (host_id ∷ hosts) acc = recover_each hosts (recover_host host_id acc)

  unfoldable pub recover_wedged_hosts : Db → List String × Db
  unfolding recover_each list_reboot_required_hosts
  recover_wedged_hosts db = recover_each (list_reboot_required_hosts db) ([], db)
