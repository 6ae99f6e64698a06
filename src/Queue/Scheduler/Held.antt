-- ===== src/Queue/Scheduler/Held.antt =====
-- The lease that `_run_job` of src/hil_controller/queue/scheduler.py holds while its worker runs.
use sbc_mcu_dut_controller.Prelude.{
  ℕ, String, Bool, true, false, Option, none, some, List, [], ◌∷◌, map, ◌≡◌, refl, ap, ◌∙◌, arith,
  if◌then◌else◌, if_ind, str_eq, truthy, find_first, any, All,
}
use sbc_mcu_dut_controller.Store.{Stamp, Job, Lease, Db}
use sbc_mcu_dut_controller.Queue.Leases.{release, update_leases, is_open, close}
use sbc_mcu_dut_controller.Queue.Leases.Exclusive.{
  IsExclusive, acquires, releases, Reach, here, next, Reach-trans, Reach-IsExclusive,
}
use sbc_mcu_dut_controller.Queue.Scheduler.{
  Request, interactive_window_expiry, Sched, WorkReply, finished, pop, put, take_lease, give_back,
  with_lease, run_job,
}

module _ (job_id : String) (request : Request) (now : ℕ) (leased_at released_at : Stamp) where
  take_lease-Reach :
      (device_id : Option String) (db : Db)
      → Reach db (take_lease job_id request now leased_at released_at device_id db).1
  unfolding take_lease
  take_lease-Reach device_id db =
      if_ind {A = Option ℕ × Db} (λ r. Reach db r.1) (truthy device_id)
        (λ _. next here (
          acquires leased_at "exclusive_device" device_id none (some job_id)
            (interactive_window_expiry request now)))
        (λ _. here)

  give_back-Reach :
      (release_raises : Bool) (lease : Option ℕ) (db : Db)
      → Reach db (give_back job_id request now leased_at released_at release_raises lease db)
  give_back-Reach release_raises none db = here
  give_back-Reach true (some lease_id) db = here
  give_back-Reach false (some lease_id) db = next here (releases released_at lease_id)

  with_lease-Reach :
      (work : Db → WorkReply × Db)
      → ((db : Db) → Reach db (work db).1)
      → (release_raises : Bool) (taken : Option ℕ × Db) (active : List String)
      → Reach taken.1
          (with_lease job_id request now leased_at released_at work release_raises taken
            active).1.db
  with_lease-Reach work w release_raises taken active =
      Reach-trans (w taken.1) (give_back-Reach release_raises taken.0 (work taken.1).1)

-- A job's run is a sequence of calls of the lease functions, whatever its worker does with the tables
-- by such calls: it keeps the leases exclusive.
run_job-IsExclusive :
    (job_id : String) (request : Request) (now : ℕ) (leased_at released_at : Stamp)
    (work : Db → WorkReply × Db) (release_raises : Bool)
    → ((db : Db) → Reach db (work db).1)
    → (s : Sched) → IsExclusive s.db.leases
    → IsExclusive
        (run_job job_id request now leased_at released_at work release_raises s).1.db.leases
unfolding run_job
run_job-IsExclusive job_id request now leased_at released_at work release_raises w s e =
    of (find_first (λ (j : Job). str_eq j.id job_id) s.db.jobs)
  where
    of :
        (row : Option Job)
        → IsExclusive
            (elim row as (λ _. WorkReply × Sched) [
              | none ↦ (finished, s)
              | some row ↦
                  with_lease job_id request now leased_at released_at work release_raises
                    (take_lease job_id request now leased_at released_at row.assigned_device s.db)
                    s.active
            ]).1.db.leases
    of none = e
    of (some row) = Reach-IsExclusive e (
        Reach-trans
          (take_lease-Reach job_id request now leased_at released_at row.assigned_device s.db)
          (with_lease-Reach job_id request now leased_at released_at work w release_raises
            (take_lease job_id request now leased_at released_at row.assigned_device s.db)
            s.active))

pub shut-All :
    (released_at : Stamp) (id : ℕ) (ls : List Lease)
    → All
        (λ l. is_open id l ≡ false)
        (map (λ l. if is_open id l then close released_at l else l) ls)
shut-All released_at id [] = tt
shut-All released_at id (l ∷ ls) = (ground arith, shut-All released_at id ls)

popped :
    (job_id : String) (active : List String)
    → any (λ j. str_eq j job_id) (pop job_id active) ≡ false
popped job_id [] = refl
popped job_id (j ∷ active) = ground (arith, popped job_id active)

-- The lease is closed, and the job is not among the active ones.
abbrev pub Ended : (job_id : String) (lease_id : ℕ) → Sched → Type 0
Ended job_id lease_id s =
    All (λ l. is_open lease_id l ≡ false) s.db.leases
    × (any (λ j. str_eq j job_id) s.active ≡ false)

with_lease-Ended :
    (job_id : String) (request : Request) (now : ℕ) (leased_at released_at : Stamp)
    (work : Db → WorkReply × Db) (lease : Option ℕ) (db : Db) (active : List String) (lease_id : ℕ)
    → lease ≡ some lease_id
    → Ended job_id lease_id
        (with_lease job_id request now leased_at released_at work false (lease, db) active).1
unfolding release update_leases
with_lease-Ended job_id request now leased_at released_at work none db active lease_id h = cc
with_lease-Ended job_id request now leased_at released_at work (some n) db active lease_id h =
    let e : lease_id ≡ n = cc in
    rw e ((shut-All released_at n (work db).1.leases, popped job_id (put job_id active)))

-- However the worker ends, by a return, an exception or a cancellation, and whatever it did to the
-- tables, the lease that the job took is released when the job's run is over, provided that the
-- release itself does not raise, and the job has left the active ones.
pub run_job-released :
    (job_id : String) (request : Request) (now : ℕ) (leased_at released_at : Stamp)
    (work : Db → WorkReply × Db) (s : Sched) (row : Job) (lease_id : ℕ)
    → find_first (λ (j : Job). str_eq j.id job_id) s.db.jobs ≡ some row
    → (take_lease job_id request now leased_at released_at row.assigned_device s.db).0
      ≡ some lease_id
    → Ended job_id lease_id (run_job job_id request now leased_at released_at work false s).1
unfolding run_job
run_job-released job_id request now leased_at released_at work s row lease_id found taken =
    of (find_first (λ (j : Job). str_eq j.id job_id) s.db.jobs) found
  where
    of :
        (o : Option Job)
        → o ≡ some row
        → Ended job_id lease_id
            (elim o as (λ _. WorkReply × Sched) [
              | none ↦ (finished, s)
              | some row ↦
                  with_lease job_id request now leased_at released_at work false
                    (take_lease job_id request now leased_at released_at row.assigned_device s.db)
                    s.active
            ]).1
    of none h = cc
    of (some r) h =
        let e : r ≡ row = cc in
        let t : Option ℕ × Db =
          take_lease job_id request now leased_at released_at r.assigned_device s.db in
        with_lease-Ended job_id request now leased_at released_at work t.0 t.1 s.active lease_id (
          ap
            (λ (r : Job).
              (take_lease job_id request now leased_at released_at r.assigned_device s.db).0)
            e
          ∙ taken)
