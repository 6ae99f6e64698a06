-- ===== src/Fingerprint/Held.antt =====
-- The lease on the hub under `learn` of src/hil_controller/adapters/usb_fingerprint.py.
use mathlib.Core.Path.{subst}
use mathlib.Core.List.{append-nil, append_assoc}
use sbc_mcu_dut_controller.Prelude.{
  ◌∷◌, [], arith, any, ap, sym, ◌∙◌, suc, ◌++◌, All-append, ℕ, String, Bool, true, false, Option,
  none, some, List, ◌≡◌, refl, ◌⊎◌, inl, inr, if◌then◌else◌, str_eq, truthy, find_first, All,
  length, if_ind,
}
use sbc_mcu_dut_controller.Store.{Stamp, Device, Lease, Db}
use sbc_mcu_dut_controller.Queue.Leases.{
  is_active, insert_unless, insert_lease, acquire_hub, argument_error, checked, LeaseError, Outcome,
  ok, raise, acquire, release, update_leases, text_of, is_open,
}
use sbc_mcu_dut_controller.Queue.Scheduler.Held.{shut-All}
use sbc_mcu_dut_controller.Fingerprint.{
  Called, UsbId, Result, Bench, World, M, awaits, power_and_capture, with_hub, learn_row, learn,
}
use sbc_mcu_dut_controller.Fingerprint.Learn.{Keeps-power_and_capture}

-- Nothing was awaited and nothing learnt.
abbrev pub Untouched : Bench → Bench → Type 0
Untouched start end = (end.calls ≡ start.calls) × (end.usb_ids ≡ start.usb_ids)

-- The lease is open.
abbrev pub holds : ℕ → Db → Bool
holds id db = any (is_open id) db.leases

-- The whole hub of the device was leased, the lease was open at every call since then, and it is closed
-- at the end.
abbrev pub Leased : World → Option String → Device → Bench → Bench → Type 0
Leased world job_id d start end =
    (l : Lease) × ((acquire (world.clock (length start.calls)) "exclusive_hub" none
        (if truthy d.hub_host_id then d.hub_host_id else d.host_id) job_id none start.db).0
      ≡ ok l)
    × ((made : List Called) × (end.calls ≡ start.calls ++ made)
        × All (λ (c : Called). holds l.id c.db ≡ true) made)
    × All (λ m. is_open l.id m ≡ false) end.db.leases

any-append :
    (p : Lease → Bool) (ls : List Lease) (l : Lease) → p l ≡ true → any p (ls ++ l ∷ []) ≡ true
any-append p [] l h = rw h refl
any-append p (m ∷ ls) l h = let ih = any-append p ls l h in ground arith

insert_unless-holds :
    (found : Option Lease) (new l : Lease) (db : Db)
    → is_active new ≡ true
    → (insert_unless found new db).0 ≡ ok l
    → (l.id ≡ new.id) × (holds l.id (insert_unless found new db).1 ≡ true)
unfolding insert_unless insert_lease
insert_unless-holds (some c) new l db a h = cc
insert_unless-holds none new l db a h =
    let same : new ≡ l = cc in
    (
      ap (λ (m : Lease). m.id) (sym same),
      subst
          (λ (m : Lease).
            holds m.id (record db { leases = db.leases ++ new ∷ []; lease_seq = new.id }) ≡ true)
          same (any-append (is_open new.id) db.leases new (ground arith)),
    )

-- A lease that acquire gives has the next id, and is open then.
acquire-holds :
    (now : Stamp) (hub job_id : Option String) (db : Db) (l : Lease)
    → (acquire now "exclusive_hub" none hub job_id none db).0 ≡ ok l
    → (l.id ≡ suc db.lease_seq)
      × (holds l.id (acquire now "exclusive_hub" none hub job_id none db).1 ≡ true)
unfolding acquire acquire_hub checked
acquire-holds now hub job_id db l = of (argument_error "exclusive_hub" none hub)
  where
    of :
        (bad : Option LeaseError)
        → (checked bad db (acquire_hub now (text_of hub) job_id none db)).0 ≡ ok l
        → (l.id ≡ suc db.lease_seq)
          × (holds l.id (checked bad db (acquire_hub now (text_of hub) job_id none db)).1 ≡ true)
    of (some e) h = cc
    of none h = insert_unless-holds _ _ l db refl h

module _ (world : World) where
  -- Since `start` the lease was open at every call, and is.
  abbrev IsHeld : Bench → ℕ → Bench → Type 0
  IsHeld start id s =
      (holds id s.db ≡ true)
      × ((made : List Called) × (s.calls ≡ start.calls ++ made)
          × All (λ (c : Called). holds id c.db ≡ true) made)

  -- What the others do leaves the lease open.
  abbrev pub LeavesOpen : ℕ → Type 0
  LeavesOpen id = (n : ℕ) (db : Db) → holds id db ≡ true → holds id (world.meanwhile n db) ≡ true

  body-IsHeld :
      (start : Bench) (id : ℕ)
      → LeavesOpen id
      → (device_id port_path : String) (channel : Option ℕ) (job_id : Option String)
        (include_reset_cycle : Bool) (s : Bench)
      → IsHeld start id s
      → IsHeld start id
          (power_and_capture world device_id port_path channel job_id include_reset_cycle s).1
  unfolding awaits
  body-IsHeld start id left =
      Keeps-power_and_capture world (IsHeld start id)
        (λ c s (now, (made, e, each)). (
          left (length s.calls) s.db now,
          (
            made ++ record { call = c; db = s.db } ∷ [],
            ap (λ l. l ++ record { call = c; db = s.db } ∷ []) e
                ∙ append_assoc start.calls made (record { call = c; db = s.db } ∷ []),
            All-append (λ (c : Called). holds id c.db ≡ true) made _ each (now, tt),
          ),
        ))
        (λ device_id role job_id now es s p. p)

  with_hub-Leased :
      (s : Bench) (m : M (List UsbId)) (r : Outcome Lease × Db)
      → ((l : Lease) → r.0 ≡ ok l → IsHeld s l.id (m (record s { db = r.1 })).1)
      → let end : Bench = (with_hub world r false m s).1 in
        Untouched s end
        ⊎ ((l : Lease) × (r.0 ≡ ok l)
            × ((made : List Called) × (end.calls ≡ s.calls ++ made)
                × All (λ (c : Called). holds l.id c.db ≡ true) made)
            × All (λ m. is_open l.id m ≡ false) end.db.leases)
  unfolding release update_leases
  with_hub-Leased s m (raise e, db) held = inl (refl, refl)
  with_hub-Leased s m (ok l, db) held = inr (
    l,
    refl,
    (held l refl).1,
    shut-All (world.clock (length (m (record s { db = db })).1.calls)) l.id
        (m (record s { db = db })).1.db.leases,
  )

  -- A run of learn drives the hub only under the exclusive lease of the device's hub:
  -- either it awaits nothing and learns nothing, or it got that lease, which is open at every call of the
  -- hub and of the scan, and, however the run ends, by a return, an exception of the hub or the scan, or
  -- a cancellation, closed then; provided that nobody else closes it and that the release itself does
  -- not raise.
  pub learn-Leased :
      (device_id : String) (job_id : Option String) (include_reset_cycle : Bool) (s : Bench)
      → LeavesOpen (suc s.db.lease_seq)
      → let end : Bench = (learn world device_id job_id include_reset_cycle false s).1 in
        Untouched s end
        ⊎ ((d : Device) × (find_first (λ (d : Device). str_eq d.id device_id) s.db.devices ≡ some d)
            × Leased world job_id d s end)
  unfolding learn
  learn-Leased device_id job_id include_reset_cycle s left =
      of (find_first (λ (d : Device). str_eq d.id device_id) s.db.devices) refl
    where
      row : Option Device
      row = find_first (λ (d : Device). str_eq d.id device_id) s.db.devices

      hub : Device → Option String
      hub d = if truthy d.hub_host_id then d.hub_host_id else d.host_id

      leased : Device → Outcome Lease × Db
      leased d =
          acquire (world.clock (length s.calls)) "exclusive_hub" none (hub d) job_id none s.db

      held :
          (d : Device) (l : Lease)
          → (leased d).0 ≡ ok l
          → IsHeld s l.id
              (power_and_capture world d.id
                (text_of d.hub_port_path)
                d.solenoid_channel
                job_id
                include_reset_cycle
                (record s { db = (leased d).1 })).1
      held d l e =
          let (same, now) = acquire-holds (world.clock (length s.calls)) (hub d) job_id s.db l e in
          body-IsHeld s l.id (subst LeavesOpen (sym same) left) d.id (text_of d.hub_port_path)
            d.solenoid_channel job_id include_reset_cycle (record s { db = (leased d).1 })
            (now, ([], sym (append-nil s.calls), tt))

      of :
          (o : Option Device)
          → row ≡ o
          → let end : Bench = (learn_row world o job_id include_reset_cycle false s).1 in
            Untouched s end ⊎ ((d : Device) × (row ≡ some d) × Leased world job_id d s end)
      of none e = inl (refl, refl)
      of (some d) e =
          if_ind {A = Result (List UsbId) × Bench}
            (λ r. Untouched s r.1 ⊎ ((d : Device) × (row ≡ some d) × Leased world job_id d s r.1))
            (truthy d.hub_port_path)
            (λ _.
              elim (with_hub-Leased s
                (power_and_capture world d.id (text_of d.hub_port_path) d.solenoid_channel job_id
                  include_reset_cycle)
                (leased d) (held d)) [ inl u ↦ inl u | inr h ↦ inr (d, e, h) ])
            (λ _. inl (refl, refl))
