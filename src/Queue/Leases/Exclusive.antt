-- ===== src/Queue/Leases/Exclusive.antt =====
-- The exclusion that the leases of queue/leases.py give, on every interleaving of the operations.
use sbc_mcu_dut_controller.Prelude.{
  ℕ, String, Bool, true, false, ◌&&◌, ◌||◌, Option, none, some, List, ◌≡◌, refl, ◌∙◌, inl, inr,
  arith, if◌then◌else◌, str_eq, sql_eq, find_first, Apart, Apart-snoc, Apart-map, All-mono,
  find_first-none→All, Option-cases,
}
use sbc_mcu_dut_controller.Store.{Stamp, Device, Host, Job, Lease, Db}
use sbc_mcu_dut_controller.Queue.Leases.{
  LeaseError, new_lease, argument_error, checked, is_active, blocks_device, blocks_hub,
  acquire_device, acquire_hub, acquire, insert_unless, is_open, close, extend_to, text_of,
  update_leases, release, renew, startup_sweep, is_orphan,
}

-- Two leases that may not be active together: both on one device, or one of them on a whole hub
-- and both on that hub.
abbrev pub overlaps : Lease → Lease → Bool
overlaps l m =
    sql_eq l.device_id m.device_id
    || (sql_eq l.hub_host_id m.hub_host_id
        && (str_eq l.kind "exclusive_hub" || str_eq m.kind "exclusive_hub"))

abbrev pub clashes : Lease → Lease → Bool
clashes l m = is_active l && (is_active m && overlaps l m)

-- No two rows clash.
abbrev pub IsExclusive : List Lease → Type 0
IsExclusive ls = Apart clashes ls

-- A row clashes with the row of a new device lease exactly where the query finds it.
pub clashes-device :
    (l : Lease) (device_id : String) (hub job_id : Option String) (now : Stamp)
    (expires_at : Option Stamp) (db : Db)
    → clashes l (new_lease now "exclusive_device" (some device_id) hub job_id expires_at db)
      ≡ blocks_device device_id hub l
clashes-device l device_id hub job_id now expires_at db = ground arith

pub clashes-hub :
    (l : Lease) (hub : String) (job_id : Option String) (now : Stamp) (expires_at : Option Stamp)
    (db : Db)
    → clashes l (new_lease now "exclusive_hub" none (some hub) job_id expires_at db)
      ≡ blocks_hub hub l
clashes-hub l hub job_id now expires_at db = elim (Option-cases l.device_id) [
  | inl e ↦ ground arith
  | inr (d, e) ↦ ground arith
]

insert_unless-IsExclusive :
    (blocks : Lease → Bool) (new : Lease) (db : Db)
    → ((l : Lease) → blocks l ≡ false → clashes l new ≡ false)
    → (found : Option Lease) → find_first blocks db.leases ≡ found
    → IsExclusive db.leases
    → IsExclusive (insert_unless found new db).1.leases
unfolding insert_unless
insert_unless-IsExclusive blocks new db free (some l) found e = e
insert_unless-IsExclusive blocks new db free none found e = Apart-snoc clashes db.leases new e (
    All-mono (λ l. blocks l ≡ false) (λ l. clashes l new ≡ false) free db.leases
      (find_first-none→All blocks db.leases found))

-- `acquire` keeps the exclusion, whatever its arguments and whether it succeeds or raises.
pub acquire-IsExclusive :
    (now : Stamp) (kind : String) (device_id hub_host_id job_id : Option String)
    (expires_at : Option Stamp) (db : Db)
    → IsExclusive db.leases
    → IsExclusive (acquire now kind device_id hub_host_id job_id expires_at db).1.leases
unfolding acquire
acquire-IsExclusive now kind device_id hub_host_id job_id expires_at db e =
    branches (argument_error kind device_id hub_host_id) (str_eq kind "exclusive_device")
  where
    branches :
        (bad : Option LeaseError) (on_device : Bool)
        → IsExclusive
            (checked bad db (
              if on_device
              then acquire_device now (text_of device_id) hub_host_id job_id expires_at db
              else acquire_hub now (text_of hub_host_id) job_id expires_at db)).1.leases
    branches (some bad) on_device = e
    branches none true =
        insert_unless-IsExclusive _ _ db
          (λ l h. clashes-device l (text_of device_id) _ job_id now expires_at db ∙ h) _ refl e
    branches none false =
        insert_unless-IsExclusive _ _ db
          (λ l h. clashes-hub l (text_of hub_host_id) job_id now expires_at db ∙ h) _ refl e

update_leases-IsExclusive :
    (p : Lease → Bool) (f : Lease → Lease)
    → ((l m : Lease)
        → clashes l m ≡ false
        → clashes (if p l then f l else l) (if p m then f m else m) ≡ false)
    → (db : Db) → IsExclusive db.leases
    → IsExclusive (update_leases p f db).1.leases
unfolding update_leases
update_leases-IsExclusive p f keeps db e =
    Apart-map clashes (λ l. if p l then f l else l) keeps db.leases e

-- Closing a row creates no clash.
clashes_closed :
    (p : Lease → Bool) (now : Stamp) (l m : Lease)
    → clashes l m ≡ false
    → clashes (if p l then close now l else l) (if p m then close now m else m) ≡ false
clashes_closed p now l m h = ground arith

clashes_renewed :
    (p : Lease → Bool) (until : Option Stamp) (l m : Lease)
    → clashes l m ≡ false
    → clashes (if p l then extend_to until l else l) (if p m then extend_to until m else m) ≡ false
clashes_renewed p until l m h = ground arith

release-IsExclusive :
    (now : Stamp) (id : ℕ) (db : Db)
    → IsExclusive db.leases
    → IsExclusive (release now id db).1.leases
unfolding release
release-IsExclusive now id db e =
    update_leases-IsExclusive (is_open id) (close now) (clashes_closed (is_open id) now) db e

renew-IsExclusive :
    (id : ℕ) (until : Option Stamp) (db : Db)
    → IsExclusive db.leases
    → IsExclusive (renew id until db).1.leases
unfolding renew
renew-IsExclusive id until db e =
    update_leases-IsExclusive (is_open id) (extend_to until) (clashes_renewed (is_open id) until) db
      e

startup_sweep-IsExclusive :
    (now : Stamp) (db : Db) → IsExclusive db.leases → IsExclusive (startup_sweep now db).1.leases
unfolding startup_sweep
startup_sweep-IsExclusive now db e =
    update_leases-IsExclusive (is_orphan db.jobs) (close now)
      (clashes_closed (is_orphan db.jobs) now) db e

-- One call of a function of leases.py, or a transaction of another part that leaves device_leases
-- alone.
pub data Step (db : Db) : Db → Type 0 where
  acquires :
      (now : Stamp) (kind : String) (device_id hub_host_id job_id : Option String)
      (expires_at : Option Stamp)
      → Step db (acquire now kind device_id hub_host_id job_id expires_at db).1
  releases : (now : Stamp) (id : ℕ) → Step db (release now id db).1
  renews : (id : ℕ) (until : Option Stamp) → Step db (renew id until db).1
  sweeps : (now : Stamp) → Step db (startup_sweep now db).1
  elsewhere :
      (hosts : List Host) (devices : List Device) (jobs : List Job)
      → Step db (record db { hosts = hosts; devices = devices; jobs = jobs })

pub data Reach (start : Db) : Db → Type 0 where
  here : Reach start start
  next : {db db' : Db} → Reach start db → Step db db' → Reach start db'

pub Reach-trans : {a b c : Db} → Reach a b → Reach b c → Reach a c
Reach-trans r here = r
Reach-trans r (next q s) = next (Reach-trans r q) s

pub Step-IsExclusive : {db db' : Db} → Step db db' → IsExclusive db.leases → IsExclusive db'.leases
Step-IsExclusive {db} (acquires now kind d h j x) e = acquire-IsExclusive now kind d h j x db e
Step-IsExclusive {db} (releases now id) e = release-IsExclusive now id db e
Step-IsExclusive {db} (renews id until) e = renew-IsExclusive id until db e
Step-IsExclusive {db} (sweeps now) e = startup_sweep-IsExclusive now db e
Step-IsExclusive (elsewhere hosts devices jobs) e = e

pub Reach-IsExclusive :
    {start db : Db} → IsExclusive start.leases → Reach start db → IsExclusive db.leases
Reach-IsExclusive e here = e
Reach-IsExclusive e (next r s) = Step-IsExclusive s (Reach-IsExclusive e r)
