-- ===== src/HostRecovery/Cleared.antt =====
-- What a wedge and its recovery leave in the rows of src/hil_controller/host_recovery.py.
use sbc_mcu_dut_controller.Prelude.{
  ℕ, String, Bool, true, false, some, List, [], ◌∷◌, map, ◌≡◌, refl, if◌then◌else◌,
}
use sbc_mcu_dut_controller.Store.{Stamp, Device, Db}
use sbc_mcu_dut_controller.HostRecovery.{
  wedged_reason_prefix, wedged_reason, on_host, flagged, flag_host_devices, mark_host_wedged,
  like_prefix, cleared, is_wedge_flagged, clear_host_recovered,
}

-- The reason that a wedge writes is one that the recovery looks for.
wedged_reason-like :
    (host_id detail : String) (eta : ℕ)
    → like_prefix wedged_reason_prefix (some (wedged_reason host_id detail eta)) ≡ true
unfolding wedged_reason
wedged_reason-like host_id detail eta = refl

module _ (host_id reason : String) (now later back : Stamp)
    (like : like_prefix wedged_reason_prefix (some reason) ≡ true) where
  abbrev wedged : Device → Device
  wedged d = if on_host host_id d then flagged reason now later d else d

  abbrev recovered : Device → Device
  recovered d = if is_wedge_flagged host_id d then cleared back d else d

  both : (d : Device) → recovered (wedged d) ≡ (if on_host host_id d then cleared back d else d)
  both d = of (on_host host_id d) refl
    where
      of :
          (b : Bool)
          → on_host host_id d ≡ b
          → recovered (if b then flagged reason now later d else d)
            ≡ (if b then cleared back d else d)
      of true e = rw (e, like) refl
      of false e = rw e refl

  both-map :
      (ds : List Device)
      → map recovered (map wedged ds)
        ≡ map (λ d. if on_host host_id d then cleared back d else d) ds
  both-map [] = refl
  both-map (d ∷ ds) = rw (both d, both-map ds)

-- A wedge of a host and its recovery make every device of the host available, whatever its row
-- said before, a permanent outage included, and leave every other device as it was.
pub clear_host_recovered-mark_host_wedged :
    (host_id detail : String) (eta : ℕ) (now later back : Stamp) (db : Db)
    → (clear_host_recovered host_id back (mark_host_wedged host_id detail eta now later db)).devices
      ≡ map (λ d. if on_host host_id d then cleared back d else d) db.devices
unfolding clear_host_recovered mark_host_wedged flag_host_devices
clear_host_recovered-mark_host_wedged host_id detail eta now later back db =
    both-map host_id (wedged_reason host_id detail eta) now later back
      (wedged_reason-like host_id detail eta) db.devices
