-- ===== src/Topology/Rename/Substituted.antt =====
-- A rename of src/hil_controller/topology/rename.py as one substitution in the cells.
use sbc_mcu_dut_controller.Prelude.{
  String, Bool, true, false, ◌||◌, Option, none, some, List, [], ◌∷◌, ◌≡◌, refl, sym, ap, ◌∙◌,
  arith, if◌then◌else◌, any, ◌&&◌, str_eq, one_of,
}
use sbc_mcu_dut_controller.Topology.Rename.{
  Table, Tables, Ref, ref, repoint, on_cells, is_at, update_column, repoint_all, Entity,
  rename_rows, host_entity, device_entity,
}
use sbc_mcu_dut_controller.Topology.Rename.Cells.{on_cells-on_cells, on_cells-cong, map-id}

-- The column is one of the references.
abbrev pub refers : List Ref → String → String → Bool
refers rs t c = any (λ (r : Ref). is_at r t c) rs

-- The columns that a rename of the entity rewrites: its ids, and the references to them.
abbrev pub holds_id : Entity → String → String → Bool
holds_id e t c = is_at (ref e.table "id") t c || refers e.refs t c

abbrev pub substitute :
    (String → String → Bool) → (old_id new_id : String) → List Table → List Table
substitute w old_id new_id tables =
    on_cells (λ t c v. if w t c then repoint old_id new_id v else v) tables

pub repoint_twice :
    (old_id new_id : String) (v : Option String)
    → repoint old_id new_id (repoint old_id new_id v) ≡ repoint old_id new_id v
repoint_twice old_id new_id none = refl
repoint_twice old_id new_id (some s) = ground arith

once :
    (old_id new_id : String) (a b : Bool) (v : Option String)
    → (if b
        then repoint old_id new_id (if a then repoint old_id new_id v else v)
        else (if a then repoint old_id new_id v else v))
      ≡ (if a || b then repoint old_id new_id v else v)
once old_id new_id true true v = repoint_twice old_id new_id v
once old_id new_id true false v = refl
once old_id new_id false true v = refl
once old_id new_id false false v = refl

repoint_all-substitute :
    (rs : List Ref) (old_id new_id : String) (ts : List Table)
    → (repoint_all rs old_id new_id ts).1 ≡ substitute (refers rs) old_id new_id ts
unfolding repoint_all update_column
repoint_all-substitute [] old_id new_id ts = sym (
    map-id _
      (λ t.
        ap (λ rows. record t { rows = rows }) (map-id _ (λ row. map-id _ (λ c. refl) row) t.rows))
      ts)
repoint_all-substitute (r ∷ rs) old_id new_id ts =
    repoint_all-substitute rs old_id new_id (update_column r old_id new_id ts)
    ∙ on_cells-on_cells (λ t c v. if refers rs t c then repoint old_id new_id v else v)
        (λ t c v. if is_at r t c then repoint old_id new_id v else v) ts
    ∙ on_cells-cong _ _ (λ t c v. once old_id new_id (is_at r t c) (refers rs t c) v) ts

pub rename_rows-substitute :
    (e : Entity) (old_id new_id : String) (db : Tables)
    → (rename_rows e old_id new_id db).1.tables ≡ substitute (holds_id e) old_id new_id db.tables
unfolding rename_rows update_column
rename_rows-substitute e old_id new_id db =
    repoint_all-substitute e.refs old_id new_id
      (update_column (ref e.table "id") old_id new_id db.tables)
    ∙ on_cells-on_cells (λ t c v. if refers e.refs t c then repoint old_id new_id v else v)
        (λ t c v. if is_at (ref e.table "id") t c then repoint old_id new_id v else v) db.tables
    ∙ on_cells-cong _ _
        (λ t c v. once old_id new_id (is_at (ref e.table "id") t c) (refers e.refs t c) v) db.tables

-- The columns of a host's id, table by table.
abbrev pub holds_host : String → String → Bool
holds_host t c =
    (str_eq t "hosts" && str_eq c "id")
    || ((str_eq t "devices" && (str_eq c "host_id" || str_eq c "hub_host_id"))
        || ((str_eq t "cameras" && str_eq c "host_id")
            || ((str_eq t "jobs" && str_eq c "assigned_host")
                || (str_eq t "device_leases" && str_eq c "hub_host_id"))))

-- The columns of a device's id: that of its own table, `assigned_device` of the jobs, and `device_id` of
-- the six tables that have one.
abbrev pub holds_device : String → String → Bool
holds_device t c =
    (str_eq t "devices" && str_eq c "id")
    || ((str_eq t "jobs" && str_eq c "assigned_device")
        || (str_eq c "device_id"
            && one_of t (
                "device_usb_ids" ∷ "device_leases" ∷ "connections" ∷ "camera_rois"
                ∷ "device_peripherals" ∷ "device_strands" ∷ [])))

-- The tables with the new id in each of those columns that has the old one, and no other change.
abbrev pub replaced : (String → String → Bool) → (old_id new_id : String) → List Table → List Table
replaced w old_id new_id tables =
    on_cells
      (λ t c v. elim v [
        | none ↦ none
        | some id ↦ some (if w t c && str_eq id old_id then new_id else id)
      ])
      tables

host_columns :
    (h d c j l id hi hu a : Bool)
    → ((h && id) || ((d && hi) || ((d && hu) || ((c && hi) || ((j && a) || ((l && hu) || false))))))
      ≡ ((h && id) || ((d && (hi || hu)) || ((c && hi) || ((j && a) || (l && hu)))))
host_columns h d c j l id hi hu a = ground arith

holds_id-host : (t c : String) → holds_id host_entity t c ≡ holds_host t c
holds_id-host t c =
    host_columns (str_eq t "hosts") (str_eq t "devices") (str_eq t "cameras") (str_eq t "jobs")
      (str_eq t "device_leases") (str_eq c "id") (str_eq c "host_id") (str_eq c "hub_host_id")
      (str_eq c "assigned_host")

device_columns :
    (d u l n r p s j id di a : Bool)
    → ((d && id)
        || ((u && di)
            || ((l && di)
                || ((n && di)
                    || ((r && di) || ((p && di) || ((s && di) || ((j && a) || false))))))))
      ≡ ((d && id)
          || ((j && a)
              || (di
                  && (if u
                      then true
                      else if l
                      then true
                      else if n
                      then true
                      else if r
                      then true
                      else if p
                      then true
                      else if s
                      then true
                      else false))))
device_columns d u l n r p s j id di a = ground arith

holds_id-device : (t c : String) → holds_id device_entity t c ≡ holds_device t c
holds_id-device t c =
    device_columns (str_eq t "devices") (str_eq t "device_usb_ids") (str_eq t "device_leases")
      (str_eq t "connections") (str_eq t "camera_rois") (str_eq t "device_peripherals")
      (str_eq t "device_strands") (str_eq t "jobs") (str_eq c "id") (str_eq c "device_id")
      (str_eq c "assigned_device")

cell_replaced :
    (old_id new_id : String) (b : Bool) (v : Option String)
    → (if b then repoint old_id new_id v else v) ≡ elim v as (λ _. Option String) [
      | none ↦ none
      | some id ↦ some (if b && str_eq id old_id then new_id else id)
    ]
cell_replaced old_id new_id b none = ground arith
cell_replaced old_id new_id b (some id) = ground arith

substitute-replaced :
    (u w : String → String → Bool) (old_id new_id : String) (ts : List Table)
    → ((t c : String) → u t c ≡ w t c)
    → substitute u old_id new_id ts ≡ replaced w old_id new_id ts
substitute-replaced u w old_id new_id ts same =
    on_cells-cong _ _
      (λ t c v.
        ap (λ b. if b then repoint old_id new_id v else v) (same t c)
        ∙ cell_replaced old_id new_id (w t c) v)
      ts

-- The rename of a host, once its checks have passed, puts the new id in place of the old one in hosts.id,
-- devices.host_id and hub_host_id, cameras.host_id, jobs.assigned_host and device_leases.hub_host_id, and
-- changes no other cell; the rename of a device does so in devices.id, jobs.assigned_device and the
-- device_id of device_usb_ids, device_leases, connections, camera_rois, device_peripherals and
-- device_strands.
pub rename_rows-replaced :
    (old_id new_id : String) (db : Tables)
    → ((rename_rows host_entity old_id new_id db).1.tables
        ≡ replaced holds_host old_id new_id db.tables)
      × ((rename_rows device_entity old_id new_id db).1.tables
          ≡ replaced holds_device old_id new_id db.tables)
rename_rows-replaced old_id new_id db = (
  rename_rows-substitute host_entity old_id new_id db
      ∙ substitute-replaced _ holds_host old_id new_id db.tables holds_id-host,
  rename_rows-substitute device_entity old_id new_id db
      ∙ substitute-replaced _ holds_device old_id new_id db.tables holds_id-device,
)
