-- ===== src/Fingerprint/Learn.antt =====
-- What `learn` of src/hil_controller/adapters/usb_fingerprint.py keeps.
use sbc_mcu_dut_controller.Prelude.{
  ℕ, String, Bool, true, false, Option, none, some, List, if◌then◌else◌, str_eq, truthy, find_first,
  length, if_ind,
}
use sbc_mcu_dut_controller.Store.{Stamp, Device, Lease, Db}
use sbc_mcu_dut_controller.Queue.Leases.{Outcome, ok, raise, acquire, text_of}
use sbc_mcu_dut_controller.Queue.Leases.Exclusive.{
  IsExclusive, acquires, releases, Reach, here, next, Reach-trans, Reach-IsExclusive,
}
use sbc_mcu_dut_controller.Fingerprint.{
  UsbId, Entry, upsert, HubCall, all_off, scan, sleep, port_on, port_off, Result, got, raises,
  Bench, World, M, continue, ◌>>=◌, ◌>>◌, awaits, captured_at, upserted, on_channel, reset_cycle,
  single_capture, power_and_capture, let_go, with_hub, learn_row, learn,
}
use sbc_mcu_dut_controller.Fingerprint.Upsert.{AreUnique, upsert-AreUnique}

-- A property of the controller's state that every awaited call and every _upsert keeps.
module _ (world : World) (P : Bench → Type 0)
    (await : (c : HubCall) (s : Bench) → P s → P (awaits world c s).1)
    (write : (device_id role : String) (job_id : Option String) (now : Stamp) (es : List Entry)
        (s : Bench)
      → P s
      → P (record s { usb_ids = (upsert device_id role job_id now es s.usb_ids).1 })) where
  abbrev Keeps : {A : Type 0} → M A → Type 0
  Keeps m = (s : Bench) → P s → P (m s).1

  Keeps-bind :
      {A B : Type 0} (m : M A) (f : A → M B) → Keeps m → ((a : A) → Keeps (f a)) → Keeps (m >>= f)
  unfolding ◌>>=◌
  Keeps-bind m f km kf s p = of (m s).0 (km s p)
    where
      of : (r : Result _) → P (m s).1 → P (continue r f (m s).1).1
      of (got a) q = kf a (m s).1 q
      of (raises e) q = q

  Keeps-then : {B : Type 0} (m : M (List Entry)) (k : M B) → Keeps m → Keeps k → Keeps (m >> k)
  Keeps-then m k km kk = Keeps-bind m (λ _. k) km (λ _. kk)

  Keeps-captured_at : (port_path : String) → Keeps (captured_at world port_path)
  Keeps-captured_at port_path = Keeps-bind (awaits world scan) _ (await scan) (λ _ s p. p)

  Keeps-on_channel :
      (channel : Option ℕ) (m : ℕ → M (List Entry))
      → ((c : ℕ) → Keeps (m c))
      → Keeps (on_channel world channel m)
  Keeps-on_channel none m k s p = p
  Keeps-on_channel (some c) m k s p = k c s p

  module _ (device_id port_path : String) (channel : Option ℕ) (job_id : Option String) where
    Keeps-upserted :
        (role : String) (es : List Entry) → Keeps (upserted world device_id role job_id es)
    Keeps-upserted role es s p = write device_id role job_id _ es s p

    Keeps-reset_cycle : Keeps (reset_cycle world device_id port_path channel job_id)
    Keeps-reset_cycle = Keeps-bind _ _ (Keeps-captured_at port_path) λ first.
        Keeps-bind _ _ (Keeps-upserted "bootloader" first) λ _.
          Keeps-then _ _
            (Keeps-on_channel channel _ λ c.
              Keeps-then _ _ (await (port_off c))
                (Keeps-then _ _ (await sleep) (Keeps-then _ _ (await (port_on c)) (await sleep))))
            (Keeps-bind _ _ (Keeps-captured_at port_path)
              λ second. Keeps-bind _ _ (Keeps-upserted "runtime" second) λ _ s p. p)

    Keeps-single_capture : Keeps (single_capture world device_id port_path channel job_id)
    Keeps-single_capture =
        Keeps-bind (captured_at world port_path) _ (Keeps-captured_at port_path)
          (Keeps-upserted "unknown")

    pub Keeps-power_and_capture :
        (include_reset_cycle : Bool)
        → Keeps (power_and_capture world device_id port_path channel job_id include_reset_cycle)
    unfolding power_and_capture
    Keeps-power_and_capture include_reset_cycle = Keeps-then _ _ (await all_off) (
        Keeps-then _ _ (await sleep) (
          Keeps-then _ _ (λ s p. Keeps-captured_at port_path s p)
            (Keeps-then _ _ (Keeps-on_channel channel _ λ c. await (port_on c)) (
              Keeps-then _ _ (await sleep) (
                if_ind {A = M (List UsbId)} Keeps include_reset_cycle (λ _. Keeps-reset_cycle)
                  (λ _. Keeps-single_capture))))))

-- What the run of `learn` from `start` keeps.
abbrev Inv : Bench → Bench → Type 0
Inv start s = Reach start.db s.db × AreUnique s.usb_ids

module _ (world : World) (steps : (n : ℕ) (db : Db) → Reach db (world.meanwhile n db)) where
  let_go-Inv :
      (start : Bench) (release_raises : Bool) (l : Lease) (s : Bench)
      → Inv start s
      → Inv start (let_go world release_raises l s)
  let_go-Inv start true l s p = p
  let_go-Inv start false l s p = (next p.0 (releases (world.clock (length s.calls)) l.id), p.1)

  body-Inv :
      (start : Bench) (device_id port_path : String) (channel : Option ℕ) (job_id : Option String)
      (include_reset_cycle : Bool) (s : Bench)
      → Inv start s
      → Inv start
          (power_and_capture world device_id port_path channel job_id include_reset_cycle s).1
  unfolding awaits
  body-Inv start =
      Keeps-power_and_capture world (Inv start)
        (λ c s p. (Reach-trans p.0 (steps (length s.calls) s.db), p.1))
        (λ device_id role job_id now es s p.
          (p.0, upsert-AreUnique device_id role job_id now es s.usb_ids p.1))

  learn_row-Inv :
      (row : Option Device) (job_id : Option String) (include_reset_cycle release_raises : Bool)
      (s : Bench)
      → AreUnique s.usb_ids
      → Inv s (learn_row world row job_id include_reset_cycle release_raises s).1
  learn_row-Inv none job_id include_reset_cycle release_raises s u = (here, u)
  learn_row-Inv (some d) job_id include_reset_cycle release_raises s u =
      if_ind {A = Result (List UsbId) × Bench} (λ r. Inv s r.1) (truthy d.hub_port_path)
        (λ _.
          of
            (acquire (world.clock (length s.calls)) "exclusive_hub" none (hub_of d) job_id none
              s.db)
            (next here (
              acquires (world.clock (length s.calls)) "exclusive_hub" none (hub_of d) job_id none)))
        (λ _. (here, u))
    where
      hub_of : Device → Option String
      hub_of d = if truthy d.hub_host_id then d.hub_host_id else d.host_id

      m : M (List UsbId)
      m =
          power_and_capture world d.id (text_of d.hub_port_path) d.solenoid_channel job_id
            include_reset_cycle

      of : (r : Outcome Lease × Db) → Reach s.db r.1 → Inv s (with_hub world r release_raises m s).1
      of (raise e, db) q = (here, u)
      of (ok l, db) q = let_go-Inv s release_raises l (m (record s { db = db })).1 (
          body-Inv s d.id (text_of d.hub_port_path) d.solenoid_channel job_id include_reset_cycle
            (record s { db = db }) (q, u))

  -- Where what the rest of the controller does to the tables meanwhile is a sequence of steps of the
  -- leases, a run of learn, however it ends, keeps the leases exclusive and gives no device two rows
  -- with the same vid, pid and serial.
  pub learn-AreUnique :
      (device_id : String) (job_id : Option String) (include_reset_cycle release_raises : Bool)
      (s : Bench)
      → IsExclusive s.db.leases
      → AreUnique s.usb_ids
      → let end : Bench = (learn world device_id job_id include_reset_cycle release_raises s).1 in
        IsExclusive end.db.leases × AreUnique end.usb_ids
  unfolding learn
  learn-AreUnique device_id job_id include_reset_cycle release_raises s e u =
      let inv =
        learn_row-Inv (find_first (λ (d : Device). str_eq d.id device_id) s.db.devices) job_id
          include_reset_cycle release_raises s u in
      (Reach-IsExclusive e inv.0, inv.1)
