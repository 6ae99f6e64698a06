-- ===== src/Fingerprint/Tests.antt =====
-- A board that shows up with one pair of ids after each power-up.
use sbc_mcu_dut_controller.Prelude.{
  arith, Option, List, ◌++◌, Bool, ℕ, String, true, false, none, some, [], ◌∷◌, map, ◌≡◌, refl, ◌⊎◌,
  if◌then◌else◌, if_ind, ◌==◌, str_eq, find_first, any, All,
}
use sbc_mcu_dut_controller.Store.{at, Device, Lease, Db}
use sbc_mcu_dut_controller.Queue.Leases.{
  is_open, acquire, acquire_device, acquire_hub, argument_error, checked, insert_unless,
  insert_lease, resolve_hub_host, release, update_leases,
}
use sbc_mcu_dut_controller.Queue.Leases.Exclusive.{IsExclusive, acquires, Reach, here, next}
use sbc_mcu_dut_controller.Fingerprint.{
  Entry, UsbId, upsert, upsert_entry, got, raises, Bench, World, failed, cancelled, awaits,
  power_and_capture, learn, ◌>>=◌,
}
use sbc_mcu_dut_controller.Fingerprint.Upsert.{AreUnique, has_ids}
use sbc_mcu_dut_controller.Fingerprint.Recorded.{records, upsert-records}
use sbc_mcu_dut_controller.Fingerprint.Learn.{learn-AreUnique}
use sbc_mcu_dut_controller.Fingerprint.Held.{Untouched, Leased, holds, LeavesOpen, learn-Leased}

abbrev board : Device
board = record {
  id = "esp1";
  host_id = some "rpi";
  kind = "mcu";
  model = "esp32";
  status = some "available";
  serial_port = none;
  hub_host_id = some "hub";
  hub_port_path = some "1-1.2";
  unavailable_kind = none;
  unavailable_reason = none;
  unavailable_since = none;
  retry_attempts = 0;
  retry_after = none;
  last_checked_at = none;
  build_target = none;
  power_control = none;
  solenoid_channel = some 3;
}

abbrev seen : String → String → Entry
seen vid pid = record {
  busid = some "1-1.2";
  vid = some vid;
  pid = some pid;
  description = some "";
}

abbrev start : Bench
start = record {
  db = record { hosts = []; devices = board ∷ []; jobs = []; leases = []; lease_seq = 0 };
  usb_ids = record { rows = []; last_id = 0 };
  calls = [];
}

-- The baseline scan fails; then the bootloader shows up, and the application after the reset.
-- Another job asks for the device meanwhile.
abbrev world : World
world = record {
  reply = λ n.
      if n == 2
      then raises failed
      else if n == 5
      then got (seen "239A" "0035" ∷ [])
      else got (seen "239A" "8034" ∷ seen "" "" ∷ []);
  meanwhile = λ n db.
      if n == 3 then (acquire (at 9) "exclusive_device" (some "esp1") none none none db).1 else db;
  clock = at;
}

-- The controller is stopped during the last scan.
abbrev stopped : World
stopped = record world { reply = λ n. if n == 10 then raises cancelled else world.reply n }

steps : (n : ℕ) (db : Db) → Reach db (world.meanwhile n db)
steps n db =
    if_ind {A = Db} (Reach db) (n == 3)
      (λ _. next here (acquires (at 9) "exclusive_device" (some "esp1") none none none)) (λ _. here)

roles :
    map {B = String × String}
      (λ (r : UsbId). (r.pid, r.role))
      (learn world "esp1" none true false start).1.usb_ids.rows
    ≡ ("0035", "bootloader") ∷ ("8034", "runtime") ∷ []
unfolding learn power_and_capture awaits ◌>>=◌ upsert upsert_entry acquire acquire_hub
    acquire_device argument_error checked insert_unless insert_lease resolve_hub_host release
    update_leases
roles = refl

half_learnt :
    map (λ (r : UsbId). r.role) (learn stopped "esp1" none true false start).1.usb_ids.rows
    ≡ "bootloader" ∷ []
unfolding learn power_and_capture awaits ◌>>=◌ upsert upsert_entry acquire acquire_hub
    acquire_device argument_error checked insert_unless insert_lease resolve_hub_host release
    update_leases
half_learnt = refl

apart_example :
    let end : Bench = (learn world "esp1" none true false start).1 in
    IsExclusive end.db.leases × AreUnique end.usb_ids
apart_example = learn-AreUnique world steps "esp1" none true false start tt tt

any-left :
    (p : Lease → Bool) (ls : List Lease) (l : Lease) → any p ls ≡ true → any p (ls ++ l ∷ []) ≡ true
any-left p [] l h = cc
any-left p (m ∷ ls) l h = let ih = any-left p ls l in ground (arith, ih)

insert_unless-leaves :
    (found : Option Lease) (new : Lease) (db : Db) (id : ℕ)
    → holds id db ≡ true
    → holds id (insert_unless found new db).1 ≡ true
unfolding insert_unless insert_lease
insert_unless-leaves (some c) new db id h = h
insert_unless-leaves none new db id h = any-left (is_open id) db.leases new h

-- The other job's acquire closes no lease.
stopped-LeavesOpen : LeavesOpen stopped 1
unfolding acquire argument_error checked acquire_device
stopped-LeavesOpen n db h =
    if_ind {A = Db} (λ t. holds 1 t ≡ true) (n == 3) (λ _. insert_unless-leaves _ _ db 1 h) (λ _. h)

hub_example :
    let end : Bench = (learn stopped "esp1" none true false start).1 in
    Untouched start end
    ⊎ ((d : Device) × (find_first (λ (d : Device). str_eq d.id "esp1") start.db.devices ≡ some d)
        × Leased stopped none d start end)
hub_example = learn-Leased stopped "esp1" none true start stopped-LeavesOpen

upserted_example :
    All
      (λ e.
        has_ids e ≡ true
        → any
            (records "esp1" "unknown" none (at 7) e)
            (upsert "esp1" "unknown" none
              (at 7)
              (seen "239A" "8034" ∷ seen "239a" "0035" ∷ [])
              start.usb_ids).1.rows
          ≡ true)
      (seen "239A" "8034" ∷ seen "239a" "0035" ∷ [])
upserted_example =
    upsert-records "esp1" "unknown" none (at 7) (seen "239A" "8034" ∷ seen "239a" "0035" ∷ [])
      start.usb_ids
