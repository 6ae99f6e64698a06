-- ===== src/Queue/Leases/Sweep.antt =====
-- What `startup_sweep`, `release` and `get_active_for_job` of queue/leases.py leave active.
use mathlib.Core.List.{reverse-append}
use sbc_mcu_dut_controller.Prelude.{
  ℕ, ◌+◌, String, Bool, true, false, Option, none, some, List, [], ◌∷◌, map, ◌≡◌, refl, inl, inr,
  arith, Bool-cases, if◌then◌else◌, str_eq, eq_refl, select, length,
}
use sbc_mcu_dut_controller.Store.{Stamp, Job, Lease, Db}
use sbc_mcu_dut_controller.Queue.Leases.{
  Outcome, ok, LeaseError, is_active, checked, argument_error, insert_unless, acquire_device,
  acquire_hub, acquire, text_of, is_open, close, release, startup_sweep, is_orphan, job_is_active,
  list_active, get_active_for_job,
}

-- The lease belongs to a job in one of the active states.
abbrev pub has_active_job : List Job → Lease → Bool
has_active_job jobs l = elim l.job_id [ none ↦ false | some j ↦ job_is_active jobs j ]

module _ (jobs : List Job) (now : Stamp) where
  active_after_sweep :
      (ls : List Lease)
      → select is_active (map (λ l. if is_orphan jobs l then close now l else l) ls)
        ≡ select (has_active_job jobs) (select is_active ls)
  active_after_sweep [] = refl
  active_after_sweep (l ∷ ls) = ground (arith, active_after_sweep ls)

  count_after_sweep :
      (ls : List Lease)
      → length (select (is_orphan jobs) ls)
          + length (select (has_active_job jobs) (select is_active ls))
        ≡ length (select is_active ls)
  count_after_sweep [] = omega arith
  count_after_sweep (l ∷ ls) = ground (arith, count_after_sweep ls)

-- After the sweep the active leases are those that were active before and whose job is in an
-- active state, in the same order; the number that it returns is the number of the others.
startup_sweep_lem :
    (now : Stamp) (db : Db)
    → (list_active (startup_sweep now db).1 ≡ select (has_active_job db.jobs) (list_active db))
      × ((startup_sweep now db).0 + length (list_active (startup_sweep now db).1)
          ≡ length (list_active db))
unfolding startup_sweep list_active
startup_sweep_lem now db =
    let kept = active_after_sweep db.jobs now db.leases in
    (kept, rw kept (count_after_sweep db.jobs now db.leases))

module _ (first again : Stamp) (id : ℕ) where
  none_open :
      (ls : List Lease)
      → select (is_open id) (map (λ l. if is_open id l then close first l else l) ls) ≡ []
  none_open [] = refl
  none_open (l ∷ ls) = ground (arith, none_open ls)

  close_again :
      (ls : List Lease)
      → let closed : List Lease = map (λ l. if is_open id l then close first l else l) ls in
        map (λ l. if is_open id l then close again l else l) closed ≡ closed
  close_again [] = refl
  close_again (l ∷ ls) = elim (Bool-cases (is_open id l)) [
    | inl open_l ↦ rw open_l (ground (arith, close_again ls))
    | inr shut ↦ rw (shut, shut) (ground (arith, close_again ls))
  ]

-- A second release of a lease updates no row: it returns False and changes nothing.
release-release :
    (first again : Stamp) (id : ℕ) (db : Db)
    → release again id (release first id db).1 ≡ (false, (release first id db).1)
unfolding release
release-release first again id db =
    rw (none_open first again id db.leases, close_again first again id db.leases)

insert_unless-newest :
    (found : Option Lease) (new l : Lease) (job_id : String) (db : Db)
    → new.job_id ≡ some job_id
    → is_active new ≡ true
    → (insert_unless found new db).0 ≡ ok l
    → get_active_for_job job_id (insert_unless found new db).1 ≡ some l
unfolding insert_unless get_active_for_job
insert_unless-newest (some c) new l job_id db j a h = cc
insert_unless-newest none new l job_id db j a h =
    rw (reverse-append db.leases (new ∷ [])) (ground (arith, eq_refl job_id))

-- The lease that a job has just acquired is the one that the job's extend endpoint finds.
acquire-get_active_for_job :
    (now : Stamp) (kind : String) (device_id hub_host_id : Option String) (job_id : String)
    (expires_at : Option Stamp) (db : Db) (l : Lease)
    → (acquire now kind device_id hub_host_id (some job_id) expires_at db).0 ≡ ok l
    → get_active_for_job job_id
        (acquire now kind device_id hub_host_id (some job_id) expires_at db).1
      ≡ some l
unfolding acquire
acquire-get_active_for_job now kind device_id hub_host_id job_id expires_at db l =
    branches (argument_error kind device_id hub_host_id) (str_eq kind "exclusive_device")
  where
    branches :
        (bad : Option LeaseError) (on_device : Bool)
        → let r : Outcome Lease × Db = checked bad db (
            if on_device
            then acquire_device now (text_of device_id) hub_host_id (some job_id) expires_at db
            else acquire_hub now (text_of hub_host_id) (some job_id) expires_at db) in
          r.0 ≡ ok l → get_active_for_job job_id r.1 ≡ some l
    branches (some bad) on_device = λ h. cc
    branches none true = insert_unless-newest _ _ l job_id db refl refl
    branches none false = insert_unless-newest _ _ l job_id db refl refl
