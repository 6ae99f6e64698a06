-- ===== src/Topology/Rename.antt =====
-- src/hil_controller/topology/rename.py: a host's or a device's id is replaced in its own table and in
-- every column that refers to it. A table is a list of rows, and a row a list of cells, each with its
-- column; a table or a column that an older database lacks has no cells, so that its UPDATE does
-- nothing. One call is one transaction. A uniqueness constraint that a stale reference to the new id
-- would break is left out.
pub mod Cells
pub mod Substituted
pub mod Counted
pub mod Exists
pub mod Restored
pub mod Tests
use sbc_mcu_dut_controller.Prelude.{
  ℕ, ◌+◌, String, Bool, true, false, not, ◌&&◌, ◌||◌, Option, none, some, List, [], ◌∷◌, ◌++◌, map,
  if◌then◌else◌, leb, ◌==◌, str_eq, sql_eq, any, select, length, codes, strip, is_empty,
}

pub record Cell : Type 0 where
  pub column : String
  pub value : Option String

pub record Table : Type 0 where
  pub name : String
  pub rows : List (List Cell)

-- A row of twin_slot_assignments.
pub record Slot : Type 0 where
  pub slot_kind : String
  pub slot_id : String

-- What `_audit` inserts, without its time.
pub record Entry : Type 0 where
  pub event : String
  pub old_id : String
  pub new_id : String
  pub refs_updated : ℕ

pub record Tables : Type 0 where
  pub tables : List Table
  pub slots : List Slot
  pub audit : List Entry

-- (table, column)
pub record Ref : Type 0 where
  pub table : String
  pub column : String

abbrev pub ref : String → String → Ref
ref table column = record { table = table; column = column }

abbrev pub host_refs : List Ref
host_refs =
    ref "devices" "host_id"
    ∷ ref "devices" "hub_host_id"
    ∷ ref "cameras" "host_id"
    ∷ ref "jobs" "assigned_host"
    ∷ ref "device_leases" "hub_host_id"
    ∷ []

abbrev pub device_refs : List Ref
device_refs =
    ref "device_usb_ids" "device_id"
    ∷ ref "device_leases" "device_id"
    ∷ ref "connections" "device_id"
    ∷ ref "camera_rois" "device_id"
    ∷ ref "device_peripherals" "device_id"
    ∷ ref "device_strands" "device_id"
    ∷ ref "jobs" "assigned_device"
    ∷ []

pub data RenameError : Type 0 where
  -- ValueError, LookupError, KeyError
  blank_id bad_id not_found taken : RenameError

pub data Outcome : Type 0 where
  renamed : ℕ → Outcome
  raise : RenameError → Outcome

-- `^[A-Za-z0-9._-]+$`
abbrev pub is_id_char : ℕ → Bool
is_id_char c =
    (leb b'A' c && leb c b'Z')
    || ((leb b'a' c && leb c b'z')
        || ((leb b'0' c && leb c b'9') || (c == b'.' || (c == b'_' || c == b'-'))))

-- `_validate`: the stripped id, or the ValueError.
pub data Checked : Type 0 where
  valid : String → Checked
  refused : RenameError → Checked

unfoldable pub validate : String → Checked
validate new_id =
    let id : String = strip new_id in
    if is_empty id
    then refused blank_id
    else if any (λ c. not (is_id_char c)) (codes id)
    then refused bad_id
    else valid id

-- `SET c = new WHERE c = old`, on the value of `c`
abbrev pub repoint : (old_id new_id : String) → Option String → Option String
repoint old_id new_id v = if sql_eq v (some old_id) then some new_id else v

-- A change of the cells, by their table and column.
abbrev pub on_cells : (String → String → Option String → Option String) → List Table → List Table
on_cells g tables =
    map
      (λ (t : Table). record t {
        rows =
            map (λ row. map (λ (c : Cell). record c { value = g t.name c.column c.value }) row)
              t.rows;
      })
      tables

abbrev pub is_at : Ref → String → String → Bool
is_at r table column = str_eq table r.table && str_eq column r.column

-- UPDATE r.table SET r.column = new WHERE r.column = old
unfoldable pub update_column : Ref → (old_id new_id : String) → List Table → List Table
update_column r old_id new_id tables =
    on_cells (λ t c v. if is_at r t c then repoint old_id new_id v else v) tables

abbrev pub row_has : (column id : String) → List Cell → Bool
row_has column id row = any (λ (c : Cell). str_eq c.column column && sql_eq c.value (some id)) row

-- The number of rows whose column has the id.
unfoldable pub rows_with : Ref → String → List Table → ℕ
rows_with r id [] = 0
rows_with r id (t ∷ ts) =
    (if str_eq t.name r.table then length (select (row_has r.column id) t.rows) else 0)
    + rows_with r id ts

-- The loop over the references: `total` and the tables.
unfoldable pub repoint_all : List Ref → (old_id new_id : String) → List Table → ℕ × List Table
unfolding update_column rows_with
repoint_all [] old_id new_id tables = (0, tables)
repoint_all (r ∷ rs) old_id new_id tables =
    let (n, tables') = repoint_all rs old_id new_id (update_column r old_id new_id tables) in
    (rows_with r old_id tables + n, tables')

-- A table whose ids are renamed: its name, its columns' references, its kind of twin slot, and the
-- event of the audit log.
pub record Entity : Type 0 where
  pub table : String
  pub refs : List Ref
  pub slot_kind : String
  pub event : String

abbrev pub host_entity : Entity
host_entity = record {
  table = "hosts";
  refs = host_refs;
  slot_kind = "host";
  event = "host.rename";
}

abbrev pub device_entity : Entity
device_entity = record {
  table = "devices";
  refs = device_refs;
  slot_kind = "device";
  event = "device.rename";
}

abbrev pub is_slot : (slot_kind id : String) → Slot → Bool
is_slot slot_kind id s = str_eq s.slot_kind slot_kind && str_eq s.slot_id id

-- UPDATE twin_slot_assignments SET slot_id = new WHERE slot_kind = ? AND slot_id = old
unfoldable pub rename_twin_slots : (slot_kind old_id new_id : String) → List Slot → ℕ × List Slot
rename_twin_slots slot_kind old_id new_id slots = (
  length (select (is_slot slot_kind old_id) slots),
  map (λ (s : Slot). if is_slot slot_kind old_id s then record s { slot_id = new_id } else s) slots,
)

-- `_exists`
unfoldable pub id_exists : (table id : String) → List Table → Bool
id_exists table id tables =
    any (λ (t : Table). str_eq t.name table && any (row_has "id" id) t.rows) tables

-- `_rename`, the twin slots and the audit row, once the checks have passed.
unfoldable pub rename_rows : Entity → (old_id new_id : String) → Tables → Outcome × Tables
unfolding repoint_all rename_twin_slots update_column
rename_rows e old_id new_id db =
    let (total, tables) =
      repoint_all e.refs old_id new_id (update_column (ref e.table "id") old_id new_id db.tables) in
    let (moved, slots) = rename_twin_slots e.slot_kind old_id new_id db.slots in
    (
      renamed (total + moved),
      record {
        tables = tables;
        slots = slots;
        audit =
            db.audit
            ++ record {
              event = e.event;
              old_id = old_id;
              new_id = new_id;
              refs_updated = total + moved;
            }
              ∷ [];
      },
    )

unfoldable pub rename_to : Entity → (old_id new_id : String) → Tables → Outcome × Tables
unfolding rename_rows id_exists
rename_to e old_id new_id db =
    if str_eq old_id new_id
    then (renamed 0, db)
    else if not (id_exists e.table old_id db.tables)
    then (raise not_found, db)
    else if id_exists e.table new_id db.tables
    then (raise taken, db)
    else rename_rows e old_id new_id db

abbrev pub checked : Checked → Tables → (String → Outcome × Tables) → Outcome × Tables
checked (refused e) db next = (raise e, db)
checked (valid id) db next = next id

unfoldable pub rename_host : (old_id new_id : String) → Tables → Outcome × Tables
unfolding validate rename_to
rename_host old_id new_id db =
    checked (validate new_id) db (λ id. rename_to host_entity old_id id db)

unfoldable pub rename_device : (old_id new_id : String) → Tables → Outcome × Tables
unfolding validate rename_to
rename_device old_id new_id db =
    checked (validate new_id) db (λ id. rename_to device_entity old_id id db)
