-- ===== src/Topology/Rename/Counted.antt =====
-- The number that a rename of src/hil_controller/topology/rename.py answers.
use sbc_mcu_dut_controller.Prelude.{
  ℕ, ◌+◌, String, Bool, true, false, ◌&&◌, Option, some, List, [], ◌∷◌, ◌++◌, map, ◌≡◌, refl, ap,
  ◌∙◌, arith, if◌then◌else◌, str_eq, sql_eq, any, not, eq_iff, All, select, length,
}
use sbc_mcu_dut_controller.Topology.Rename.{
  Cell, Table, Tables, Ref, ref, repoint, is_at, update_column, row_has, rows_with, repoint_all,
  Entity, is_slot, rename_twin_slots, rename_rows, renamed,
}

-- The two name different columns.
abbrev pub apart : Ref → Ref → Bool
apart r s = not (is_at s r.table r.column)

abbrev pub IsApart : List Ref → Type 0
IsApart [] = Unit
IsApart (r ∷ rs) = All (λ s. apart s r ≡ true) rs × IsApart rs

-- The rows that refer to the id, column by column.
abbrev pub references : List Ref → String → List Table → ℕ
references [] id ts = 0
references (r ∷ rs) id ts = rows_with r id ts + references rs id ts

any-map :
    {A : Type 0} (p q : A → Bool) (f : A → A)
    → ((x : A) → p (f x) ≡ q x)
    → (xs : List A) → any p (map f xs) ≡ any q xs
any-map p q f h [] = refl
any-map p q f h (x ∷ xs) = rw (h x, any-map p q f h xs)

length-select-map :
    {A : Type 0} (p q : A → Bool) (f : A → A)
    → ((x : A) → p (f x) ≡ q x)
    → (xs : List A) → length (select p (map f xs)) ≡ length (select q xs)
length-select-map p q f h [] = refl
length-select-map p q f h (x ∷ xs) = rw (h x) (ground (arith, length-select-map p q f h xs))

cell_keeps :
    (r s : Ref) (old_id new_id t c : String) (v : Option String)
    → apart r s ≡ true
    → str_eq t r.table ≡ true
    → (str_eq c r.column
        && sql_eq (if is_at s t c then repoint old_id new_id v else v) (some old_id))
      ≡ (str_eq c r.column && sql_eq v (some old_id))
cell_keeps r s old_id new_id t c v h e = of (str_eq c r.column) refl
  where
    of :
        (b : Bool)
        → str_eq c r.column ≡ b
        → (b && sql_eq (if is_at s t c then repoint old_id new_id v else v) (some old_id))
          ≡ (b && sql_eq v (some old_id))
    of false k = refl
    of true k =
        let et : t ≡ r.table = (eq_iff t r.table).0 e in
        let ec : c ≡ r.column = (eq_iff c r.column).0 k in
        let away : is_at s r.table r.column ≡ false = ground arith in
        let here : is_at s t c ≡ false =
          ap (λ x. is_at s x c) et ∙ ap (is_at s r.table) ec ∙ away in
        rw here refl

module _ (r s : Ref) (old_id new_id : String) (h : apart r s ≡ true) where
  table_keeps :
      (t : Table) (b : Bool)
      → str_eq t.name r.table ≡ b
      → (if b
          then length (
              select (row_has r.column old_id) (
                map
                  (λ row.
                    map
                      (λ (c : Cell). record c {
                        value =
                            if is_at s t.name c.column
                            then repoint old_id new_id c.value
                            else c.value;
                      })
                      row)
                  t.rows))
          else 0)
        ≡ (if b then length (select (row_has r.column old_id) t.rows) else 0)
  table_keeps t false e = refl
  table_keeps t true e =
      length-select-map (row_has r.column old_id) (row_has r.column old_id) _
        (λ row.
          any-map (λ (c : Cell). str_eq c.column r.column && sql_eq c.value (some old_id))
            (λ (c : Cell). str_eq c.column r.column && sql_eq c.value (some old_id)) _
            (λ c. cell_keeps r s old_id new_id t.name c.column c.value h e) row)
        t.rows

  rows_with-update :
      (ts : List Table)
      → rows_with r old_id (update_column s old_id new_id ts) ≡ rows_with r old_id ts
  unfolding rows_with update_column
  rows_with-update [] = refl
  rows_with-update (t ∷ ts) = rw (table_keeps t (str_eq t.name r.table) refl, rows_with-update ts)

references-update :
    (rs : List Ref) (s : Ref) (old_id new_id : String) (ts : List Table)
    → All (λ r. apart r s ≡ true) rs
    → references rs old_id (update_column s old_id new_id ts) ≡ references rs old_id ts
references-update [] s old_id new_id ts h = refl
references-update (r ∷ rs) s old_id new_id ts h =
    rw (rows_with-update r s old_id new_id h.0 ts, references-update rs s old_id new_id ts h.1)

repoint_all-references :
    (rs : List Ref) (old_id new_id : String) (ts : List Table)
    → IsApart rs
    → (repoint_all rs old_id new_id ts).0 ≡ references rs old_id ts
unfolding repoint_all
repoint_all-references [] old_id new_id ts h = refl
repoint_all-references (r ∷ rs) old_id new_id ts h =
    ap (λ n. rows_with r old_id ts + n)
      (repoint_all-references rs old_id new_id (update_column r old_id new_id ts) h.1
        ∙ references-update rs r old_id new_id ts h.0)

-- A rename of an entity whose columns are listed once each answers the number of the rows that
-- referred to the old id before it, counted column by column, twin slots included, and writes that
-- number to the audit log.
rename_rows-references :
    (e : Entity) (old_id new_id : String) (db : Tables)
    → IsApart (ref e.table "id" ∷ e.refs)
    → let n : ℕ =
        references e.refs old_id db.tables
        + length (select (is_slot e.slot_kind old_id) db.slots) in
      ((rename_rows e old_id new_id db).0 ≡ renamed n)
      × ((rename_rows e old_id new_id db).1.audit
          ≡ db.audit
            ++ record { event = e.event; old_id = old_id; new_id = new_id; refs_updated = n } ∷ [])
unfolding rename_rows rename_twin_slots
rename_rows-references e old_id new_id db h =
    let total : (repoint_all e.refs old_id new_id
          (update_column (ref e.table "id") old_id new_id db.tables)).0
        ≡ references e.refs old_id db.tables =
      repoint_all-references e.refs old_id new_id
        (update_column (ref e.table "id") old_id new_id db.tables) h.1
      ∙ references-update e.refs (ref e.table "id") old_id new_id db.tables h.0 in
    rw total (refl, refl)
