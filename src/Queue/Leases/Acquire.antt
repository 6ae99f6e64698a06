-- ===== src/Queue/Leases/Acquire.antt =====
-- What a call of `acquire` in queue/leases.py promises its caller, and what `release` gives back.
use sbc_mcu_dut_controller.Prelude.{
  ℕ, String, Bool, true, false, Option, none, some, List, [], ◌∷◌, ◌++◌, map, ◌≡◌, refl, ◌↔◌, ◌⊎◌,
  sym, ◌∙◌, inl, inr, arith, if◌then◌else◌, str_eq, truthy, find_first, find_first-none→All,
  All→find_first-none, All, All-append, All-mono, Bool-cases,
}
use sbc_mcu_dut_controller.Store.{Stamp, Device, Lease, Db}
use sbc_mcu_dut_controller.Queue.Leases.{
  Outcome, ok, raise, is_active, blocks_device, blocks_hub, LeaseError, new_lease, argument_error,
  checked, insert_unless, acquire_device, acquire_hub, acquire, is_open, close, text_of, release,
  resolve_hub_host,
}
use sbc_mcu_dut_controller.Queue.Leases.Exclusive.{clashes, clashes-device, clashes-hub}

abbrev Unchanged : Db → LeaseError → Outcome Lease × Db → Type 0
Unchanged db e r = r.0 ≡ raise e → r.1 ≡ db

insert_unless-Unchanged :
    (db : Db) (e : LeaseError) (new : Lease) (found : Option Lease)
    → Unchanged db e (insert_unless found new db)
unfolding insert_unless
insert_unless-Unchanged db e new none h = cc
insert_unless-Unchanged db e new (some l) h = refl

-- A call of `acquire` that raises, for a bad argument or for a conflict, leaves every table as it
-- was.
acquire_raises-Unchanged :
    (now : Stamp) (kind : String) (device_id hub_host_id job_id : Option String)
    (expires_at : Option Stamp) (db : Db) (e : LeaseError)
    → (acquire now kind device_id hub_host_id job_id expires_at db).0 ≡ raise e
    → (acquire now kind device_id hub_host_id job_id expires_at db).1 ≡ db
unfolding acquire acquire_device acquire_hub
acquire_raises-Unchanged now kind device_id hub_host_id job_id expires_at db e =
    branches (argument_error kind device_id hub_host_id) (str_eq kind "exclusive_device")
  where
    branches :
        (bad : Option LeaseError) (on_device : Bool)
        → Unchanged db e (
            checked bad db (
              if on_device
              then acquire_device now (text_of device_id) hub_host_id job_id expires_at db
              else acquire_hub now (text_of hub_host_id) job_id expires_at db))
    branches (some bad) on_device = λ _. refl
    branches none true = insert_unless-Unchanged db e _ _
    branches none false = insert_unless-Unchanged db e _ _

-- A row that a release closes blocks nobody.
closed_device_free :
    (device_id : String) (hub : Option String) (now : Stamp) (l : Lease)
    → blocks_device device_id hub (close now l) ≡ false
closed_device_free device_id hub now l = refl

-- Rows that do not block, or that the release closes, do not block after it.
free_after_release :
    (blocks : Lease → Bool) (now : Stamp)
    → ((l : Lease) → blocks (close now l) ≡ false)
    → (id : ℕ) (ls : List Lease) → All (λ l. (blocks l ≡ false) ⊎ (is_open id l ≡ true)) ls
    → All (λ l. blocks l ≡ false) (map (λ l. if is_open id l then close now l else l) ls)
free_after_release blocks now closed id [] f = tt
free_after_release blocks now closed id (l ∷ ls) f = (
  elim (Bool-cases (is_open id l)) [
    | inl yes_l ↦ rw yes_l (closed l)
    | inr no_l ↦ rw no_l (ground arith)
  ],
  free_after_release blocks now closed id ls f.1,
)

-- The insertion of a fresh row, its release, and the same insertion once more.
module _ (blocks : Lease → Bool) (now : Stamp)
    (closed : (l : Lease) → blocks (close now l) ≡ false) where
  find-release-none :
      (new : Lease) (db : Db)
      → is_active new ≡ true
      → find_first blocks db.leases ≡ none
      → find_first blocks (release now new.id (insert_unless none new db).1).1.leases ≡ none
  unfolding insert_unless release
  find-release-none new db active free = All→find_first-none blocks _ (
      free_after_release blocks now closed new.id (db.leases ++ new ∷ []) (
        All-append (λ l. (blocks l ≡ false) ⊎ (is_open new.id l ≡ true)) db.leases (new ∷ [])
          (All-mono (λ l. blocks l ≡ false) _ (λ l h. inl h) db.leases
            (find_first-none→All blocks db.leases free))
          (ground arith, tt)))

insert_again :
    (blocks : List Device → Lease → Bool) (now : Stamp)
    → ((devices : List Device) (l : Lease) → blocks devices (close now l) ≡ false)
    → (new : Lease) (again : Db → Lease) (db : Db) (l : Lease) → is_active new ≡ true
    → (found : Option Lease) → find_first (blocks db.devices) db.leases ≡ found
    → (insert_unless found new db).0 ≡ ok l
    → let db' : Db = (release now l.id (insert_unless found new db).1).1 in
      (m : Lease) × ((insert_unless (find_first (blocks db'.devices) db'.leases) (again db') db').0
        ≡ ok m)
unfolding insert_unless release
insert_again blocks now closed new again db l active (some c) free h = cc
insert_again blocks now closed new again db l active none free h =
    let e : l ≡ new = cc in
    rw e (
      rw (find-release-none (blocks db.devices) now (closed db.devices) new db active free)
        (again (release now new.id (insert_unless none new db).1).1, refl))

-- A lease that was acquired and then released can be acquired again with the same arguments: the
-- release takes effect, and nothing that the first acquire wrote stands in the way.
acquire-release-acquire :
    (first freed again : Stamp) (kind : String) (device_id hub_host_id job_id : Option String)
    (expires_at : Option Stamp) (db : Db) (l : Lease)
    → (acquire first kind device_id hub_host_id job_id expires_at db).0 ≡ ok l
    → let db' : Db =
        (release freed l.id (acquire first kind device_id hub_host_id job_id expires_at db).1).1 in
      (m : Lease) × ((acquire again kind device_id hub_host_id job_id expires_at db').0 ≡ ok m)
unfolding acquire release
acquire-release-acquire first freed again kind device_id hub_host_id job_id expires_at db l =
    branches (argument_error kind device_id hub_host_id) (str_eq kind "exclusive_device")
  where
    hub_of : List Device → Option String
    hub_of devices =
        if truthy hub_host_id then hub_host_id else resolve_hub_host devices (text_of device_id)

    attempt : Option LeaseError → Bool → Stamp → Db → Outcome Lease × Db
    attempt bad on_device now db = checked bad db (
        if on_device
        then acquire_device now (text_of device_id) hub_host_id job_id expires_at db
        else acquire_hub now (text_of hub_host_id) job_id expires_at db)

    branches :
        (bad : Option LeaseError) (on_device : Bool)
        → (attempt bad on_device first db).0 ≡ ok l
        → (m : Lease) × ((attempt bad on_device again
              (release freed l.id (attempt bad on_device first db).1).1).0
            ≡ ok m)
    branches (some bad) on_device = λ h. cc
    branches none true =
        insert_again (λ devices. blocks_device (text_of device_id) (hub_of devices)) freed
          (λ devices x. refl) _
          (λ db'.
            new_lease again "exclusive_device" (some (text_of device_id)) (hub_of db'.devices)
              job_id expires_at db')
          db l refl _ refl
    branches none false =
        insert_again (λ _. blocks_hub (text_of hub_host_id)) freed (λ devices x. refl) _
          (λ db'.
            new_lease again "exclusive_hub" none (some (text_of hub_host_id)) job_id expires_at db')
          db l refl _ refl

insert_unless-ok_iff :
    (blocks : Lease → Bool) (new : Lease) (db : Db)
    → ((l : Lease) → clashes l new ≡ blocks l)
    → (found : Option Lease) → find_first blocks db.leases ≡ found
    → ((insert_unless found new db).0 ≡ ok new) ↔ All (λ l. clashes l new ≡ false) db.leases
unfolding insert_unless
insert_unless-ok_iff blocks new db same (some c) e = (
  λ h. cc,
  λ free. cc (
    e,
    All→find_first-none blocks db.leases
        (All-mono (λ l. clashes l new ≡ false) _ (λ l h. sym (same l) ∙ h) db.leases free),
  ),
)
insert_unless-ok_iff blocks new db same none e = (
  λ h.
      All-mono (λ l. blocks l ≡ false) _ (λ l f. same l ∙ f) db.leases
        (find_first-none→All blocks db.leases e),
  λ free. refl,
)

-- A lease on a device whose id is not empty is granted exactly when no row clashes with it: no active lease of the same
-- device, and no active exclusive_hub lease of its hub. The hub is the one given, or the device's
-- own where none is given.
acquire_device_iff :
    (now : Stamp) (device_id : String) (hub_host_id job_id : Option String)
    (expires_at : Option Stamp) (db : Db)
    → truthy (some device_id) ≡ true
    → let hub : Option String =
        if truthy hub_host_id then hub_host_id else resolve_hub_host db.devices device_id in
      let new : Lease =
        new_lease now "exclusive_device" (some device_id) hub job_id expires_at db in
      ((acquire now "exclusive_device" (some device_id) hub_host_id job_id expires_at db).0
        ≡ ok new)
      ↔ All (λ l. clashes l new ≡ false) db.leases
unfolding acquire
acquire_device_iff now device_id hub_host_id job_id expires_at db given = rw given (
    insert_unless-ok_iff _ _ db (λ l. clashes-device l device_id _ job_id now expires_at db) _ refl)

-- A lease on a hub whose id is not empty is granted exactly when no row clashes with it: no active
-- lease of any kind on that hub.
acquire_hub_iff :
    (now : Stamp) (hub_host_id : String) (device_id job_id : Option String)
    (expires_at : Option Stamp) (db : Db)
    → truthy (some hub_host_id) ≡ true
    → let new : Lease =
        new_lease now "exclusive_hub" none (some hub_host_id) job_id expires_at db in
      ((acquire now "exclusive_hub" device_id (some hub_host_id) job_id expires_at db).0 ≡ ok new)
      ↔ All (λ l. clashes l new ≡ false) db.leases
unfolding acquire
acquire_hub_iff now hub_host_id device_id job_id expires_at db given =
    rw given
      (insert_unless-ok_iff _ _ db (λ l. clashes-hub l hub_host_id job_id now expires_at db) _ refl)
