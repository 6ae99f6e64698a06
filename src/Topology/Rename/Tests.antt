-- ===== src/Topology/Rename/Tests.antt =====
-- A host with a device, a camera and a job.
use sbc_mcu_dut_controller.Prelude.{ℕ, String, none, some, [], ◌∷◌, ◌≡◌, refl}
use sbc_mcu_dut_controller.Topology.Rename.{
  Cell, Tables, ref, blank_id, bad_id, taken, renamed, raise, Outcome, device_entity, validate,
  refused, update_column, rows_with, repoint_all, host_entity, rename_twin_slots, id_exists,
  rename_rows, rename_to, rename_host,
}
use sbc_mcu_dut_controller.Topology.Rename.Substituted.{
  holds_host, holds_device, replaced, rename_rows-replaced,
}
use sbc_mcu_dut_controller.Topology.Rename.Counted.{IsApart}
use sbc_mcu_dut_controller.Topology.Rename.Restored.{host, rename-rename}

abbrev cell : String → String → Cell
cell column value = record { column = column; value = some value }

abbrev bench : Tables
bench = record {
  tables =
      record { name = "hosts"; rows = (cell "id" "rpi" ∷ []) ∷ (cell "id" "pi5" ∷ []) ∷ [] }
      ∷ record {
        name = "devices";
        rows = (cell "id" "esp1" ∷ cell "host_id" "rpi" ∷ cell "hub_host_id" "rpi" ∷ []) ∷ [];
      }
      ∷ record {
        name = "jobs";
        rows =
            (cell "assigned_host" "rpi" ∷ record { column = "assigned_device"; value = none } ∷ [])
            ∷ [];
      }
      ∷ [];
  slots =
      record { slot_kind = "host"; slot_id = "rpi" }
      ∷ record { slot_kind = "device"; slot_id = "rpi" }
      ∷ [];
  audit = [];
}

four_references : (rename_host "rpi" " lab-pi " bench).0 ≡ renamed 4
unfolding rename_host validate rename_to rename_rows repoint_all rename_twin_slots update_column
    rows_with id_exists
four_references = refl

taken_id : (rename_host "rpi" "pi5" bench).0 ≡ raise taken
unfolding rename_host validate rename_to rename_rows repoint_all rename_twin_slots update_column
    rows_with id_exists
taken_id = refl

inner_space : validate "lab pi" ≡ refused bad_id
unfolding validate
inner_space = refl

only_spaces : validate "  " ≡ refused blank_id
unfolding validate
only_spaces = refl

host_columns : IsApart (ref "hosts" "id" ∷ host_entity.refs)
host_columns = (
  (refl, (refl, (refl, (refl, (refl, tt))))),
  (
    (refl, (refl, (refl, (refl, tt)))),
    ((refl, (refl, (refl, tt))), ((refl, (refl, tt)), ((refl, tt), (tt, tt)))),
  ),
)

replaced_example :
    ((rename_rows host_entity "rpi" "lab" bench).1.tables
      ≡ replaced holds_host "rpi" "lab" bench.tables)
    × ((rename_rows device_entity "rpi" "lab" bench).1.tables
        ≡ replaced holds_device "rpi" "lab" bench.tables)
replaced_example = rename_rows-replaced "rpi" "lab" bench

rename_back_example :
    let there : Outcome × Tables = rename_host "rpi" "lab" bench in
    let back : Outcome × Tables = rename_host "lab" "rpi" there.1 in
    ((m : ℕ) × (there.0 ≡ renamed m))
    × ((m : ℕ) × (back.0 ≡ renamed m))
    × (back.1.tables ≡ bench.tables)
    × (back.1.slots ≡ bench.slots)
unfolding id_exists validate
rename_back_example =
    rename-rename host "rpi" "lab" bench refl refl refl refl
      (
        ((refl, tt), ((refl, tt), tt)),
        (((refl, (refl, (refl, tt))), tt), (((refl, (refl, tt)), tt), tt)),
      )
      (refl, (refl, tt))
