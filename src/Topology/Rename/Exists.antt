-- ===== src/Topology/Rename/Exists.antt =====
-- Whether an id exists, after a rename of src/hil_controller/topology/rename.py.
use sbc_mcu_dut_controller.Prelude.{
  String, Bool, true, false, ◌&&◌, Option, none, some, List, [], ◌∷◌, map, ◌≡◌, refl, arith,
  if◌then◌else◌, str_eq, sql_eq, any, eq_refl, str_eq_comm, All,
}
use sbc_mcu_dut_controller.Topology.Rename.{
  Cell, Table, Tables, repoint, row_has, is_slot, Slot, id_exists,
}
use sbc_mcu_dut_controller.Topology.Rename.Substituted.{substitute}

-- The id is the value of no cell, and of no twin slot of the kind.
abbrev pub IsFresh : (id : String) → Tables → Type 0
IsFresh id db =
    All (λ (t : Table). All (All (λ (c : Cell). sql_eq c.value (some id) ≡ false)) t.rows) db.tables

abbrev pub IsFreeSlot : (slot_kind id : String) → List Slot → Type 0
IsFreeSlot slot_kind id slots = All (λ s. is_slot slot_kind id s ≡ false) slots

module _ {ℓ κ} {A : Type ℓ} (P : A → Type κ) where
  pub map-id_All :
      (f : A → A) → ((x : A) → P x → f x ≡ x) → (xs : List A) → All P xs → map f xs ≡ xs
  map-id_All f h [] a = refl
  map-id_All f h (x ∷ xs) a = rw (h x a.0, map-id_All f h xs a.1)

  any-map-All :
      (p q : A → Bool) (f : A → A)
      → ((x : A) → P x → p (f x) ≡ q x)
      → (xs : List A) → All P xs
      → any p (map f xs) ≡ any q xs
  any-map-All p q f h [] a = refl
  any-map-All p q f h (x ∷ xs) a = rw (h x a.0, any-map-All p q f h xs a.1)

-- Which ids a cell has after the substitution.
new_in_cell :
    (b w : Bool) (old_id new_id : String) (v : Option String)
    → (b ≡ true → w ≡ true)
    → sql_eq v (some new_id) ≡ false
    → (b && sql_eq (if w then repoint old_id new_id v else v) (some new_id))
      ≡ (b && sql_eq v (some old_id))
new_in_cell false w old_id new_id v i h = refl
new_in_cell true w old_id new_id none i h = rw (i refl) refl
new_in_cell true w old_id new_id (some s) i h = rw (i refl) (ground (arith, eq_refl new_id))

old_in_cell :
    (b w : Bool) (old_id new_id : String) (v : Option String)
    → (b ≡ true → w ≡ true)
    → str_eq old_id new_id ≡ false
    → (b && sql_eq (if w then repoint old_id new_id v else v) (some old_id)) ≡ false
old_in_cell false w old_id new_id v i h = refl
old_in_cell true w old_id new_id none i h = rw (i refl) refl
old_in_cell true w old_id new_id (some s) i h =
    rw (i refl) (ground (arith, str_eq_comm old_id new_id))

any-map-false :
    {A : Type 0} (p : A → Bool) (f : A → A)
    → ((x : A) → p (f x) ≡ false)
    → (xs : List A) → any p (map f xs) ≡ false
any-map-false p f h [] = refl
any-map-false p f h (x ∷ xs) = rw (h x, any-map-false p f h xs)

module _ (table old_id new_id : String) (w : String → String → Bool)
    (own : (t c : String) → str_eq t table ≡ true → str_eq c "id" ≡ true → w t c ≡ true) where
  new_exists_here :
      (t : Table) (b : Bool)
      → str_eq t.name table ≡ b
      → All (All (λ (c : Cell). sql_eq c.value (some new_id) ≡ false)) t.rows
      → (b
          && any (row_has "id" new_id) (
              map
                (λ row.
                  map
                    (λ (c : Cell). record c {
                      value = if w t.name c.column then repoint old_id new_id c.value else c.value;
                    })
                    row)
                t.rows))
        ≡ (b && any (row_has "id" old_id) t.rows)
  new_exists_here t false e a = refl
  new_exists_here t true e a =
      any-map-All (All (λ (c : Cell). sql_eq c.value (some new_id) ≡ false)) (row_has "id" new_id)
        (row_has "id" old_id) _
        (λ row b.
          any-map-All (λ (c : Cell). sql_eq c.value (some new_id) ≡ false)
            (λ c. str_eq c.column "id" && sql_eq c.value (some new_id))
            (λ c. str_eq c.column "id" && sql_eq c.value (some old_id)) _
            (λ c k.
              new_in_cell (str_eq c.column "id") (w t.name c.column) old_id new_id c.value
                (own t.name c.column e) k)
            row b)
        t.rows a

  pub new_exists :
      (db : Tables)
      → IsFresh new_id db
      → id_exists table new_id (substitute w old_id new_id db.tables)
        ≡ id_exists table old_id db.tables
  unfolding id_exists
  new_exists db h =
      any-map-All
        (λ (t : Table). All (All (λ (c : Cell). sql_eq c.value (some new_id) ≡ false)) t.rows)
        (λ t. str_eq t.name table && any (row_has "id" new_id) t.rows)
        (λ t. str_eq t.name table && any (row_has "id" old_id) t.rows) _
        (λ t a. new_exists_here t (str_eq t.name table) refl a) db.tables h

  old_exists_here :
      (t : Table) (b : Bool)
      → str_eq t.name table ≡ b
      → str_eq old_id new_id ≡ false
      → (b
          && any (row_has "id" old_id) (
              map
                (λ row.
                  map
                    (λ (c : Cell). record c {
                      value = if w t.name c.column then repoint old_id new_id c.value else c.value;
                    })
                    row)
                t.rows))
        ≡ false
  old_exists_here t false e h = refl
  old_exists_here t true e h =
      any-map-false (row_has "id" old_id) _
        (λ row.
          any-map-false (λ (c : Cell). str_eq c.column "id" && sql_eq c.value (some old_id)) _
            (λ c.
              old_in_cell (str_eq c.column "id") (w t.name c.column) old_id new_id c.value
                (own t.name c.column e) h)
            row)
        t.rows

  pub old_exists :
      (ts : List Table)
      → str_eq old_id new_id ≡ false
      → id_exists table old_id (substitute w old_id new_id ts) ≡ false
  unfolding id_exists
  old_exists ts h =
      any-map-false (λ (t : Table). str_eq t.name table && any (row_has "id" old_id) t.rows) _
        (λ t. old_exists_here t (str_eq t.name table) refl h) ts
