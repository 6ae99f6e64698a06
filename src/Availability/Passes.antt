-- ===== src/Availability/Passes.antt =====
-- The passes of src/hil_controller/availability_reconciler.py over the table, seen at one row.
use sbc_mcu_dut_controller.Prelude.{
  select, ℕ, String, true, some, List, [], ◌∷◌, ◌++◌, ◌≡◌, refl, str_eq, All,
}
use sbc_mcu_dut_controller.Store.{Stamp, Device, Db}
use sbc_mcu_dut_controller.Availability.Reconciler.{
  ProbeReply, Settings, is_temporary, reconcile_once,
}
use sbc_mcu_dut_controller.Availability.Pointwise.{
  effect, IsPeer, visit_all-Distinct, visit_all-effect,
}
use sbc_mcu_dut_controller.Availability.Ids.{Distinct, of_id, of_id-id}

-- One pass: its probe, its times of the UPDATEs, its time, and what others write while it probes.
pub record Pass : Type 0 where
  pub probe : Device → ProbeReply
  pub checked_at : Device → Stamp
  pub now : ℕ
  pub meanwhile : Device → List Device → List Device

unfoldable pub passes : Settings → List Pass → Db → Db
unfolding reconcile_once
passes set [] db = db
passes set (p ∷ ps) db =
    passes set ps (reconcile_once p.probe p.checked_at set p.now p.meanwhile db)

-- The ids are distinct, and the property holds of the row with the id.
abbrev pub Holds : String → (Device → Type 0) → Db → Type 0
Holds id P db = Distinct db.devices × ((e : Device) × (of_id id db.devices ≡ some e) × P e)

module _ (set : Settings) (id : String) where
  pub pass-Holds :
      (P Q : Device → Type 0) (p : Pass)
      → IsPeer id p.meanwhile
      → ((d : Device) → str_eq d.id id ≡ true → P d → Q (effect p.probe p.checked_at set p.now d))
      → (db : Db) → Holds id P db
      → Holds id Q (reconcile_once p.probe p.checked_at set p.now p.meanwhile db)
  unfolding reconcile_once
  pass-Holds P Q p peer step db (distinct, (d, at_id, holds)) = (
    visit_all-Distinct p.probe p.checked_at set p.now id p.meanwhile peer
        (select is_temporary db.devices) db.devices distinct,
    (
      effect p.probe p.checked_at set p.now d,
      visit_all-effect p.probe p.checked_at set p.now id p.meanwhile peer db.devices d distinct
          at_id db.devices at_id,
      step d (of_id-id id db.devices d at_id) holds,
    ),
  )

  pub passes-Holds :
      (P : Device → Type 0) (ps : List Pass)
      → All (λ (p : Pass). IsPeer id p.meanwhile) ps
      → All (λ (p : Pass). (d : Device) → P d → P (effect p.probe p.checked_at set p.now d)) ps
      → (db : Db) → Holds id P db
      → Holds id P (passes set ps db)
  unfolding passes
  passes-Holds P [] peers k db h = h
  passes-Holds P (p ∷ ps) peers k db h =
      passes-Holds P ps peers.1 k.1 (reconcile_once p.probe p.checked_at set p.now p.meanwhile db)
        (pass-Holds P P p peers.0 (λ d _ holds. k.0 d holds) db h)

  pub passes-append :
      (ps qs : List Pass) (db : Db) → passes set (ps ++ qs) db ≡ passes set qs (passes set ps db)
  unfolding passes
  passes-append [] qs db = refl
  passes-append (p ∷ ps) qs db =
      passes-append ps qs (reconcile_once p.probe p.checked_at set p.now p.meanwhile db)
