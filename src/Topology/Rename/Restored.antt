-- ===== src/Topology/Rename/Restored.antt =====
-- A rename of src/hil_controller/topology/rename.py, and the rename back.
use sbc_mcu_dut_controller.Prelude.{
  ℕ, String, Bool, true, false, ◌&&◌, Option, none, some, List, [], ◌∷◌, ◌≡◌, refl, sym, ap, ◌∙◌,
  arith, if◌then◌else◌, str_eq, sql_eq, any, eq_refl, eq_iff, str_eq_comm, All, All-mono,
}
use sbc_mcu_dut_controller.Topology.Rename.{
  Cell, Table, Tables, repoint, row_has, Entity, is_slot, Slot, rename_twin_slots, id_exists,
  rename_rows, rename_to, Outcome, renamed, validate, valid, rename_host, rename_device,
  host_entity, device_entity,
}
use sbc_mcu_dut_controller.Topology.Rename.Cells.{on_cells-on_cells}
use sbc_mcu_dut_controller.Topology.Rename.Substituted.{
  holds_id, substitute, rename_rows-substitute,
}
use sbc_mcu_dut_controller.Topology.Rename.Exists.{
  IsFresh, IsFreeSlot, map-id_All, new_exists, old_exists,
}

back_and_forth :
    (b : Bool) (old_id new_id : String) (v : Option String)
    → sql_eq v (some new_id) ≡ false
    → (if b
        then repoint new_id old_id (if b then repoint old_id new_id v else v)
        else (if b then repoint old_id new_id v else v))
      ≡ v
back_and_forth false old_id new_id v h = refl
back_and_forth true old_id new_id none h = refl
back_and_forth true old_id new_id (some s) h =
    ground (arith, eq_iff s old_id, eq_iff s new_id, eq_refl new_id)

module _ (w : String → String → Bool) (old_id new_id : String) where
  substitute-back :
      (db : Tables)
      → IsFresh new_id db
      → substitute w new_id old_id (substitute w old_id new_id db.tables) ≡ db.tables
  substitute-back db h =
      on_cells-on_cells (λ t c v. if w t c then repoint new_id old_id v else v)
        (λ t c v. if w t c then repoint old_id new_id v else v) db.tables
      ∙ map-id_All
          (λ (t : Table). All (All (λ (c : Cell). sql_eq c.value (some new_id) ≡ false)) t.rows) _
          (λ t a.
            ap (λ rows. record t { rows = rows })
              (map-id_All (All (λ (c : Cell). sql_eq c.value (some new_id) ≡ false)) _
                (λ row b.
                  map-id_All (λ (c : Cell). sql_eq c.value (some new_id) ≡ false) _
                    (λ c k.
                      ap (λ v. record c { value = v })
                        (back_and_forth (w t.name c.column) old_id new_id c.value k))
                    row b)
                t.rows a))
          db.tables h

holds_own :
    (e : Entity) (t c : String)
    → str_eq t e.table ≡ true
    → str_eq c "id" ≡ true
    → holds_id e t c ≡ true
holds_own e t c h k = rw (h, k) refl

slot_back :
    (kind old_id new_id : String) (s : Slot)
    → is_slot kind new_id s ≡ false
    → (let moved : Slot = if is_slot kind old_id s then record s { slot_id = new_id } else s in
        (if is_slot kind new_id moved then record moved { slot_id = old_id } else moved) ≡ s)
slot_back kind old_id new_id s h = of (str_eq s.slot_kind kind) (str_eq s.slot_id old_id) refl refl
  where
    of :
        (k i : Bool)
        → str_eq s.slot_kind kind ≡ k
        → str_eq s.slot_id old_id ≡ i
        → (let moved : Slot = if k && i then record s { slot_id = new_id } else s in
            (if is_slot kind new_id moved then record moved { slot_id = old_id } else moved) ≡ s)
    of true true ek ei =
        rw (ek, eq_refl new_id)
          (ap (λ (x : String). record s { slot_id = x }) (sym ((eq_iff s.slot_id old_id).0 ei)))
    of true false ek ei = rw h refl
    of false i ek ei = rw h refl

slots-back :
    (kind old_id new_id : String) (slots : List Slot)
    → IsFreeSlot kind new_id slots
    → (rename_twin_slots kind new_id old_id (rename_twin_slots kind old_id new_id slots).1).1
      ≡ slots
unfolding rename_twin_slots
slots-back kind old_id new_id [] h = refl
slots-back kind old_id new_id (s ∷ slots) h =
    rw (slot_back kind old_id new_id s h.0, slots-back kind old_id new_id slots h.1)

any-false-All :
    {A : Type 0} (p : A → Bool) (xs : List A) → All (λ x. p x ≡ false) xs → any p xs ≡ false
any-false-All p [] h = refl
any-false-All p (x ∷ xs) h = rw (h.0, any-false-All p xs h.1)

and_false : (b c : Bool) → c ≡ false → (b && c) ≡ false
and_false b c h = ground arith

fresh_exists :
    (table id : String) (db : Tables) → IsFresh id db → id_exists table id db.tables ≡ false
unfolding id_exists
fresh_exists table id db h =
    any-false-All (λ (t : Table). str_eq t.name table && any (row_has "id" id) t.rows) db.tables
      (All-mono _ _
        (λ (t : Table) a. and_false (str_eq t.name table) (any (row_has "id" id) t.rows) (
          any-false-All (row_has "id" id) t.rows (
            All-mono _ _
              (λ row b.
                any-false-All (λ (c : Cell). str_eq c.column "id" && sql_eq c.value (some id)) row
                  (All-mono _ _
                    (λ (c : Cell) k. and_false (str_eq c.column "id") (sql_eq c.value (some id)) k)
                    row b))
              t.rows a)))
        db.tables h)

rename_to-rename_rows :
    (e : Entity) (old_id new_id : String) (db : Tables)
    → str_eq old_id new_id ≡ false
    → id_exists e.table old_id db.tables ≡ true
    → id_exists e.table new_id db.tables ≡ false
    → rename_to e old_id new_id db ≡ rename_rows e old_id new_id db
unfolding rename_to
rename_to-rename_rows e old_id new_id db ne o n = rw (ne, o, n) refl

slots_restored :
    (e : Entity) (old_id new_id : String) (db : Tables)
    → IsFreeSlot e.slot_kind new_id db.slots
    → (rename_rows e new_id old_id (rename_rows e old_id new_id db).1).1.slots ≡ db.slots
unfolding rename_rows
slots_restored e old_id new_id db free = slots-back e.slot_kind old_id new_id db.slots free

renamed_rows :
    (e : Entity) (old_id new_id : String) (db : Tables)
    → (m : ℕ) × ((rename_rows e old_id new_id db).0 ≡ renamed m)
unfolding rename_rows
renamed_rows e old_id new_id db = (_, refl)

rename_to-rename_to :
    (e : Entity) (old_id new_id : String) (db : Tables)
    → str_eq old_id new_id ≡ false
    → id_exists e.table old_id db.tables ≡ true
    → IsFresh new_id db
    → IsFreeSlot e.slot_kind new_id db.slots
    → let there : Outcome × Tables = rename_to e old_id new_id db in
      let back : Outcome × Tables = rename_to e new_id old_id there.1 in
      ((m : ℕ) × (there.0 ≡ renamed m))
      × ((m : ℕ) × (back.0 ≡ renamed m))
      × (back.1.tables ≡ db.tables)
      × (back.1.slots ≡ db.slots)
rename_to-rename_to e old_id new_id db ne o fresh free =
    let there : Tables = (rename_rows e old_id new_id db).1 in
    let tables : there.tables ≡ substitute (holds_id e) old_id new_id db.tables =
      rename_rows-substitute e old_id new_id db in
    let n = new_exists e.table old_id new_id (holds_id e) (holds_own e) db fresh in
    let g = old_exists e.table old_id new_id (holds_id e) (holds_own e) db.tables ne in
    let first : rename_to e old_id new_id db ≡ rename_rows e old_id new_id db =
      rename_to-rename_rows e old_id new_id db ne o (fresh_exists e.table new_id db fresh) in
    let second : rename_to e new_id old_id there ≡ rename_rows e new_id old_id there =
      rename_to-rename_rows e new_id old_id there (str_eq_comm new_id old_id ∙ ne)
        (ap (id_exists e.table new_id) tables ∙ n ∙ o) (ap (id_exists e.table old_id) tables ∙ g) in
    rw (first, second)
      (
        renamed_rows e old_id new_id db,
        renamed_rows e new_id old_id there,
        rename_rows-substitute e new_id old_id there
            ∙ ap (substitute (holds_id e) new_id old_id) tables
            ∙ substitute-back (holds_id e) old_id new_id db fresh,
        slots_restored e old_id new_id db free,
      )

pub data Kind : Type 0 where
  host device : Kind

abbrev pub rename : Kind → (old_id new_id : String) → Tables → Outcome × Tables
rename host = rename_host
rename device = rename_device

abbrev pub entity : Kind → Entity
entity host = host_entity
entity device = device_entity

-- A rename of a host or of a device to another id goes through, and so does the rename back, which
-- restores every table and every twin slot, provided that both ids pass the check of a new id as they
-- are, the old one exists, and no cell and no twin slot holds the new one yet.
pub rename-rename :
    (k : Kind) (old_id new_id : String) (db : Tables)
    → validate old_id ≡ valid old_id
    → validate new_id ≡ valid new_id
    → str_eq old_id new_id ≡ false
    → id_exists (entity k).table old_id db.tables ≡ true
    → IsFresh new_id db
    → IsFreeSlot (entity k).slot_kind new_id db.slots
    → let there : Outcome × Tables = rename k old_id new_id db in
      let back : Outcome × Tables = rename k new_id old_id there.1 in
      ((m : ℕ) × (there.0 ≡ renamed m))
      × ((m : ℕ) × (back.0 ≡ renamed m))
      × (back.1.tables ≡ db.tables)
      × (back.1.slots ≡ db.slots)
unfolding rename_host rename_device
rename-rename host old_id new_id db v w ne o fresh free =
    rw (v, w) (rename_to-rename_to host_entity old_id new_id db ne o fresh free)
rename-rename device old_id new_id db v w ne o fresh free =
    rw (v, w) (rename_to-rename_to device_entity old_id new_id db ne o fresh free)
