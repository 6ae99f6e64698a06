-- ===== src/Fingerprint/Upsert.antt =====
-- What `_upsert` of src/hil_controller/adapters/usb_fingerprint.py leaves in device_usb_ids.
use sbc_mcu_dut_controller.Prelude.{
  suc, String, Bool, ◌&&◌, Option, none, some, List, [], ◌∷◌, ◌≡◌, refl, arith, if◌then◌else◌, ◌==◌,
  str_eq, truthy, find_first, find_first-none→All, Apart, Apart-snoc, Apart-map, if_ind,
}
use sbc_mcu_dut_controller.Store.{Stamp}
use sbc_mcu_dut_controller.Queue.Leases.{text_of}
use sbc_mcu_dut_controller.Fingerprint.{
  UsbId, Entry, UsbTable, usb_key, is_row, seen_again, first_seen, write_row, upsert_entry, upsert,
}

-- The columns of the unique index.
abbrev pub same_key : UsbId → UsbId → Bool
same_key r s =
    str_eq r.device_id s.device_id
    && (str_eq r.vid s.vid
        && (str_eq r.pid s.pid && str_eq (text_of r.iserial) (text_of s.iserial)))

abbrev pub AreUnique : UsbTable → Type 0
AreUnique t = Apart same_key t.rows

-- The entry has both ids.
abbrev pub has_ids : Entry → Bool
has_ids e = truthy (some (usb_key e.vid)) && truthy (some (usb_key e.pid))

module _ (device_id role : String) (job_id : Option String) (now : Stamp) where
  write_row-AreUnique :
      (vid pid : String) (description : Option String) (t : UsbTable) (found : Option UsbId)
      → find_first (is_row device_id vid pid) t.rows ≡ found
      → AreUnique t
      → AreUnique (write_row device_id role job_id now found vid pid description t).1
  write_row-AreUnique vid pid description t none h u =
      Apart-snoc same_key t.rows
        (first_seen device_id role job_id now vid pid description (suc t.last_id)) u
        (find_first-none→All (is_row device_id vid pid) t.rows h)
  write_row-AreUnique vid pid description t (some x) h u =
      Apart-map same_key
        (λ (r : UsbId).
          if r.id == x.id then seen_again device_id role job_id now description r else r)
        (λ r s k. ground arith) t.rows u

  upsert_entry-AreUnique :
      (e : Entry) (t : UsbTable)
      → AreUnique t
      → AreUnique (upsert_entry device_id role job_id now e t).1
  unfolding upsert_entry
  upsert_entry-AreUnique e t u =
      if_ind {A = Option UsbId × UsbTable} (λ r. AreUnique r.1) (has_ids e)
        (λ _.
          write_row-AreUnique (usb_key e.vid) (usb_key e.pid)
            (if truthy e.description then e.description else none) t _ refl u)
        (λ _. u)

  -- No call of _upsert gives a device two rows with the same vid, pid and serial.
  pub upsert-AreUnique :
      (es : List Entry) (t : UsbTable)
      → AreUnique t
      → AreUnique (upsert device_id role job_id now es t).1
  unfolding upsert
  upsert-AreUnique [] t u = u
  upsert-AreUnique (e ∷ es) t u =
      upsert-AreUnique es (upsert_entry device_id role job_id now e t).1
        (upsert_entry-AreUnique e t u)
