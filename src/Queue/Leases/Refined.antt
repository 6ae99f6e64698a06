-- ===== src/Queue/Leases/Refined.antt =====
-- queue/leases.py against the lock manager that it stands for.
use sbc_mcu_dut_controller.Prelude.{
  ℕ, String, Bool, true, false, not, Option, none, some, List, [], ◌∷◌, ◌++◌, map, ◌≡◌, refl, ap,
  ◌∙◌, arith, if◌then◌else◌, ltb, ◌==◌, str_eq, is_null, find_first, any, select, length,
}
use sbc_mcu_dut_controller.Store.{Stamp, Job, Lease, Db}
use sbc_mcu_dut_controller.Queue.Leases.{
  Outcome, LeaseError, argument_error, text_of, acquire_device, acquire_hub, checked, insert_unless,
  is_active, is_open, close, extend_to, is_orphan,
}
use sbc_mcu_dut_controller.Queue.Leases.Exclusive.{clashes, clashes-device, clashes-hub}
use sbc_mcu_dut_controller.Queue.Leases.Locks.{
  Grant, Locks, Call, acquires, releases, renews, sweeps, elsewhere, Answer, conflicts, asked,
  grant_unless, answer_unless, found, swept, extended, wanted_by, lock, lock_all, grant_of, grants,
  locks_of, answer_of, serve, serve_all,
}

-- A call answers as the lock manager does, and leaves what the lock manager leaves.
abbrev Refines : Answer × Db → Answer × Locks → Type 0
Refines r s = (r.0 ≡ s.0) × (locks_of r.1 ≡ s.1)

any-grants :
    (new : Lease) (ls : List Lease)
    → is_active new ≡ true
    → any (λ h. conflicts h (grant_of new)) (grants ls) ≡ any (λ l. clashes l new) ls
any-grants new [] a = refl
any-grants new (l ∷ ls) a = let ih = any-grants new ls a in ground arith

any-find_first :
    (blocks clash : Lease → Bool)
    → ((l : Lease) → clash l ≡ blocks l)
    → (ls : List Lease) → any clash ls ≡ not (is_null (find_first blocks ls))
any-find_first blocks clash same [] = refl
any-find_first blocks clash same (l ∷ ls) =
    let ih = any-find_first blocks clash same ls in let here = same l in ground arith

grants-snoc :
    (ls : List Lease) (new : Lease)
    → is_active new ≡ true
    → grants (ls ++ new ∷ []) ≡ grants ls ++ grant_of new ∷ []
grants-snoc [] new a = ground arith
grants-snoc (l ∷ ls) new a = let ih = grants-snoc ls new a in ground arith

module _ (now : Stamp) (id : ℕ) where
  grants-release :
      (ls : List Lease)
      → grants (map (λ l. if is_open id l then close now l else l) ls)
        ≡ select (λ (g : Grant). not (g.id == id)) (grants ls)
  grants-release [] = refl
  grants-release (l ∷ ls) = let ih = grants-release ls in ground arith

  grants-renew :
      (until : Option Stamp) (ls : List Lease)
      → grants (map (λ l. if is_open id l then extend_to until l else l) ls)
        ≡ map (extended id until) (grants ls)
  grants-renew until [] = refl
  grants-renew until (l ∷ ls) = let ih = grants-renew until ls in ground arith

  any-open :
      (ls : List Lease)
      → ltb 0 (length (select (is_open id) ls)) ≡ any (λ (g : Grant). g.id == id) (grants ls)
  any-open [] = refl
  any-open (l ∷ ls) = let ih = any-open ls in ground arith

module _ (now : Stamp) (jobs : List Job) where
  grants-sweep :
      (ls : List Lease)
      → grants (map (λ l. if is_orphan jobs l then close now l else l) ls)
        ≡ select (wanted_by jobs) (grants ls)
  grants-sweep [] = refl
  grants-sweep (l ∷ ls) = let ih = grants-sweep ls in ground arith

  length-orphans :
      (ls : List Lease)
      → length (select (is_orphan jobs) ls)
        ≡ length (select (λ g. not (wanted_by jobs g)) (grants ls))
  length-orphans [] = refl
  length-orphans (l ∷ ls) = let ih = length-orphans ls in ground arith

insert_unless-Refines :
    (blocks : Lease → Bool) (new : Lease) (db : Db)
    → is_active new ≡ true
    → ((l : Lease) → clashes l new ≡ blocks l)
    → let r : Outcome Lease × Db = insert_unless (find_first blocks db.leases) new db in
      let g : Grant = grant_of new in
      Refines
        (answer_of r.0, r.1)
        (grant_unless (any (λ h. conflicts h g) (grants db.leases)) g (locks_of db))
unfolding insert_unless
insert_unless-Refines blocks new db a same = of (find_first blocks db.leases) clash
  where
    g : Grant
    g = grant_of new

    clash :
        any (λ h. conflicts h g) (grants db.leases) ≡ not (is_null (find_first blocks db.leases))
    clash = any-grants new db.leases a ∙ any-find_first blocks (λ l. clashes l new) same db.leases

    of :
        (o : Option Lease)
        → any (λ h. conflicts h g) (grants db.leases) ≡ not (is_null o)
        → Refines
            (answer_of (insert_unless o new db).0, (insert_unless o new db).1)
            (grant_unless (any (λ h. conflicts h g) (grants db.leases)) g (locks_of db))
    of (some c) e = rw e (refl, refl)
    of none e = rw e (refl, rw (grants-snoc db.leases new a) refl)

acquire-Refines :
    (now : Stamp) (kind : String) (device_id hub_host_id job_id : Option String)
    (expires_at : Option Stamp) (db : Db)
    → Refines
        (serve now (acquires kind device_id hub_host_id job_id expires_at) db)
        (lock (acquires kind device_id hub_host_id job_id expires_at) (locks_of db))
unfolding serve lock
acquire-Refines now kind device_id hub_host_id job_id expires_at db =
    branches (argument_error kind device_id hub_host_id) (str_eq kind "exclusive_device")
  where
    branches :
        (bad : Option LeaseError) (on_device : Bool)
        → let r : Outcome Lease × Db = checked bad db (
            if on_device
            then acquire_device now (text_of device_id) hub_host_id job_id expires_at db
            else acquire_hub now (text_of hub_host_id) job_id expires_at db) in
          let g : Grant = asked on_device device_id hub_host_id job_id expires_at (locks_of db) in
          Refines
            (answer_of r.0, r.1)
            (answer_unless bad
              (locks_of db)
              (grant_unless (any (λ h. conflicts h g) (grants db.leases)) g (locks_of db)))
    branches (some bad) on_device = (refl, refl)
    branches none true =
        insert_unless-Refines _ _ db refl
          (λ l. clashes-device l (text_of device_id) _ job_id now expires_at db)
    branches none false =
        insert_unless-Refines _ _ db refl
          (λ l. clashes-hub l (text_of hub_host_id) job_id now expires_at db)

-- Each call of a function of leases.py answers as the lock manager does on the grants in force, and
-- leaves the grants that it leaves: the closed rows and the times of the calls make no difference.
serve-Refines : (now : Stamp) (c : Call) (db : Db) → Refines (serve now c db) (lock c (locks_of db))
unfolding serve lock
serve-Refines now (acquires kind d h j x) db = acquire-Refines now kind d h j x db
serve-Refines now (releases id) db =
    (ap found (any-open now id db.leases), rw (grants-release now id db.leases) refl)
serve-Refines now (renews id until) db =
    (ap found (any-open now id db.leases), rw (grants-renew now id until db.leases) refl)
serve-Refines now sweeps db =
    (ap swept (length-orphans now db.jobs db.leases), rw (grants-sweep now db.jobs db.leases) refl)
serve-Refines now (elsewhere hosts devices jobs) db = (refl, refl)

-- Any sequence of calls, each at any time, has the answers of the lock manager and ends in its state.
pub serve_all-lock_all :
    (cs : List (Stamp × Call)) (db : Db)
    → let calls : List Call = map (λ c. c.1) cs in
      ((serve_all cs db).0 ≡ (lock_all calls (locks_of db)).0)
      × (locks_of (serve_all cs db).1 ≡ (lock_all calls (locks_of db)).1)
unfolding serve_all lock_all
serve_all-lock_all [] db = (refl, refl)
serve_all-lock_all ((now, c) ∷ cs) db =
    let one = serve-Refines now c db in
    let rest = serve_all-lock_all cs (serve now c db).1 in
    let after : lock_all (map (λ c. c.1) cs) (locks_of (serve now c db).1)
        ≡ lock_all (map (λ c. c.1) cs) (lock c (locks_of db)).1 =
      ap (lock_all (map (λ c. c.1) cs)) one.1 in
    (
      rw one.0 (ap (λ answers. (lock c (locks_of db)).0 ∷ answers) (rest.0 ∙ ap (λ r. r.0) after)),
      rest.1 ∙ ap (λ r. r.1) after,
    )
