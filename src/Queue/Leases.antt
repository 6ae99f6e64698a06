-- ===== src/Queue/Leases.antt =====
-- src/hil_controller/queue/leases.py: the durable claims on devices and hubs. Each function opens
-- its own connection and runs one transaction, so a call is a step from one database to the next;
-- on an exception the transaction is rolled back and the database comes back as it was. `now` is
-- the value of `_now_iso()` in the call.
pub mod Exclusive
pub mod Holders
pub mod Acquire
pub mod Sweep
pub mod Locks
pub mod Refined
pub mod LockTests
pub mod Tests
use sbc_mcu_dut_controller.Prelude.{
  ℕ, suc, ◌-◌, String, Bool, true, false, not, ◌&&◌, ◌||◌, Option, none, some, List, [], ◌∷◌, ◌++◌,
  map, if◌then◌else◌, ltb, ◌==◌, str_eq, one_of, truthy, or_else, sql_eq, is_null, coalesce,
  find_first, select, any, length, take,
}
use mathlib.Core.List.{reverse}
use sbc_mcu_dut_controller.Store.{Stamp, Device, Job, Lease, Db}

abbrev pub valid_kinds : List String
valid_kinds = "exclusive_device" ∷ "exclusive_hub" ∷ []

abbrev pub active_job_states : List String
active_job_states = "queued" ∷ "assigned" ∷ "preparing" ∷ "flashing" ∷ "running" ∷ []

pub data LeaseError : Type 0 where
  -- raised as ValueError
  bad_kind device_required hub_required : LeaseError
  -- the blocking lease's id and kind
  lease_conflict : ℕ → String → LeaseError

pub data Outcome {ℓ} (A : Type ℓ) : Type ℓ where
  ok : A → Outcome A
  raise : LeaseError → Outcome A

-- `released_at IS NULL`
abbrev pub is_active : Lease → Bool
is_active l = is_null l.released_at

-- SELECT COALESCE(hub_host_id, host_id) FROM devices WHERE id=?
unfoldable pub resolve_hub_host : List Device → String → Option String
resolve_hub_host devices device_id = elim (find_first (λ d. str_eq d.id device_id) devices) [
  | none ↦ none
  | some d ↦ coalesce d.hub_host_id d.host_id
]

-- The rows that block an exclusive_device lease on `device_id` behind `hub`.
abbrev pub blocks_device : String → Option String → Lease → Bool
blocks_device device_id hub l =
    is_active l
    && (sql_eq l.device_id (some device_id)
        || (str_eq l.kind "exclusive_hub" && sql_eq l.hub_host_id hub))

-- The rows that block an exclusive_hub lease on `hub`.
abbrev pub blocks_hub : String → Lease → Bool
blocks_hub hub l = is_active l && sql_eq l.hub_host_id (some hub)

-- INSERT INTO device_leases
unfoldable pub insert_lease : Lease → Db → Db
insert_lease l db = record db { leases = db.leases ++ l ∷ []; lease_seq = l.id }

-- `if conflict: raise …`, then the INSERT and the commit
unfoldable pub insert_unless : Option Lease → Lease → Db → Outcome Lease × Db
unfolding insert_lease
insert_unless (some conflict) new db = (raise (lease_conflict conflict.id conflict.kind), db)
insert_unless none new db = (ok new, insert_lease new db)

-- The row that either INSERT writes.
abbrev pub new_lease :
    Stamp
    → (kind : String) (device_id hub_host_id job_id : Option String) (expires_at : Option Stamp)
    → Db
    → Lease
new_lease now kind device_id hub_host_id job_id expires_at db = record {
  id = suc db.lease_seq;
  device_id = device_id;
  hub_host_id = hub_host_id;
  job_id = job_id;
  kind = kind;
  acquired_at = now;
  expires_at = expires_at;
  released_at = none;
}

-- The branch of `acquire` for kind == "exclusive_device", below BEGIN IMMEDIATE.
unfoldable pub acquire_device :
    Stamp
    → String
    → (hub_host_id job_id : Option String) (expires_at : Option Stamp) → Db
    → Outcome Lease × Db
unfolding insert_unless resolve_hub_host
acquire_device now device_id hub_host_id job_id expires_at db =
    let hub : Option String =
      if truthy hub_host_id then hub_host_id else resolve_hub_host db.devices device_id in
    insert_unless (find_first (blocks_device device_id hub) db.leases)
      (new_lease now "exclusive_device" (some device_id) hub job_id expires_at db) db

-- The branch for kind == "exclusive_hub".
unfoldable pub acquire_hub :
    Stamp → String → (job_id : Option String) (expires_at : Option Stamp) → Db → Outcome Lease × Db
unfolding insert_unless
acquire_hub now hub_host_id job_id expires_at db =
    insert_unless (find_first (blocks_hub hub_host_id) db.leases)
      (new_lease now "exclusive_hub" none (some hub_host_id) job_id expires_at db) db

-- The text behind an argument that the guards have found truthy.
abbrev pub text_of : Option String → String
text_of none = ""
text_of (some s) = s

-- The three guards at the head of `acquire`.
unfoldable pub argument_error : String → Option String → Option String → Option LeaseError
argument_error kind device_id hub_host_id =
    if not (one_of kind valid_kinds)
    then some bad_kind
    else if str_eq kind "exclusive_device" && not (truthy device_id)
    then some device_required
    else if str_eq kind "exclusive_hub" && not (truthy hub_host_id)
    then some hub_required
    else none

-- A guard that fails raises before the database is opened.
unfoldable pub checked : Option LeaseError → Db → Outcome Lease × Db → Outcome Lease × Db
checked (some e) db rest = (raise e, db)
checked none db rest = rest

unfoldable pub acquire :
    Stamp
    → (kind : String) (device_id hub_host_id job_id : Option String) (expires_at : Option Stamp)
    → Db
    → Outcome Lease × Db
unfolding argument_error checked acquire_device acquire_hub
acquire now kind device_id hub_host_id job_id expires_at db =
    checked (argument_error kind device_id hub_host_id) db (
      if str_eq kind "exclusive_device"
      then acquire_device now (text_of device_id) hub_host_id job_id expires_at db
      else acquire_hub now (text_of hub_host_id) job_id expires_at db)

-- `id=? AND released_at IS NULL`
abbrev pub is_open : ℕ → Lease → Bool
is_open lease_id l = l.id == lease_id && is_active l

abbrev pub close : Stamp → Lease → Lease
close now l = record l { released_at = some now }

abbrev pub extend_to : Option Stamp → Lease → Lease
extend_to expires_at l = record l { expires_at = expires_at }

-- UPDATE device_leases SET … WHERE p, and its rowcount
unfoldable pub update_leases : (Lease → Bool) → (Lease → Lease) → Db → ℕ × Db
update_leases p f db = (
  length (select p db.leases),
  record db { leases = map (λ l. if p l then f l else l) db.leases },
)

unfoldable pub release : Stamp → ℕ → Db → Bool × Db
unfolding update_leases
release now lease_id db =
    let (n, db') = update_leases (is_open lease_id) (close now) db in (ltb 0 n, db')

unfoldable pub renew : ℕ → Option Stamp → Db → Bool × Db
unfolding update_leases
renew lease_id expires_at db =
    let (n, db') = update_leases (is_open lease_id) (extend_to expires_at) db in (ltb 0 n, db')

-- ORDER BY id DESC LIMIT 1, over rows in ascending order of id
unfoldable pub get_active_for_job : String → Db → Option Lease
get_active_for_job job_id db =
    find_first (λ l. sql_eq l.job_id (some job_id) && is_active l) (reverse db.leases)

unfoldable pub list_active : Db → List Lease
list_active db = select is_active db.leases

unfoldable pub list_all : ℕ → Db → List Lease
list_all limit db = take limit (reverse db.leases)

-- `id IN (SELECT id FROM jobs WHERE state IN (…))`
abbrev pub job_is_active : List Job → String → Bool
job_is_active jobs job_id = any (λ j. str_eq j.id job_id && one_of j.state active_job_states) jobs

abbrev pub is_orphan : List Job → Lease → Bool
is_orphan jobs l =
    is_active l && elim l.job_id [ none ↦ true | some j ↦ not (job_is_active jobs j) ]

unfoldable pub startup_sweep : Stamp → Db → ℕ × Db
unfolding update_leases
startup_sweep now db = update_leases (is_orphan db.jobs) (close now) db
