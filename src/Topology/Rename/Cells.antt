-- ===== src/Topology/Rename/Cells.antt =====
-- Changes of the cells of src/hil_controller/topology/rename.py, one after another.
use sbc_mcu_dut_controller.Prelude.{String, Option, List, [], ◌∷◌, map, ◌≡◌, refl, ap, ◌∙◌}
use sbc_mcu_dut_controller.Topology.Rename.{Cell, Table, on_cells}

module _ {ℓ} {A : Type ℓ} where
  pub map-map : (f g : A → A) (xs : List A) → map f (map g xs) ≡ map (λ x. f (g x)) xs
  map-map f g [] = refl
  map-map f g (x ∷ xs) = rw (map-map f g xs)

  pub map-cong : (f g : A → A) → ((x : A) → f x ≡ g x) → (xs : List A) → map f xs ≡ map g xs
  map-cong f g h [] = refl
  map-cong f g h (x ∷ xs) = rw (h x, map-cong f g h xs)

  pub map-id : (f : A → A) → ((x : A) → f x ≡ x) → (xs : List A) → map f xs ≡ xs
  map-id f h [] = refl
  map-id f h (x ∷ xs) = rw (h x, map-id f h xs)

-- A change of the value of a cell.
abbrev pub Change : Type 0
Change = String → String → Option String → Option String

abbrev on_cell : Change → String → Cell → Cell
on_cell g t c = record c { value = g t c.column c.value }

on_cell-on_cell :
    (g f : Change) (t : String) (row : List Cell)
    → map (on_cell g t) (map (on_cell f t) row) ≡ map (on_cell (λ t c v. g t c (f t c v)) t) row
on_cell-on_cell g f t row = map-map (on_cell g t) (on_cell f t) row

abbrev on_table : Change → Table → Table
on_table g t = record t { rows = map (λ row. map (on_cell g t.name) row) t.rows }

on_table-on_table :
    (g f : Change) (t : Table) → on_table g (on_table f t) ≡ on_table (λ t c v. g t c (f t c v)) t
on_table-on_table g f t =
    ap (λ rows. record t { rows = rows })
      (map-map (λ row. map (on_cell g t.name) row) (λ row. map (on_cell f t.name) row) t.rows
        ∙ map-cong _ _ (λ row. on_cell-on_cell g f t.name row) t.rows)

pub on_cells-on_cells :
    (g f : Change) (ts : List Table)
    → on_cells g (on_cells f ts) ≡ on_cells (λ t c v. g t c (f t c v)) ts
on_cells-on_cells g f ts =
    map-map (on_table g) (on_table f) ts ∙ map-cong _ _ (λ t. on_table-on_table g f t) ts

pub on_cells-cong :
    (g f : Change)
    → ((t c : String) (v : Option String) → g t c v ≡ f t c v)
    → (ts : List Table) → on_cells g ts ≡ on_cells f ts
on_cells-cong g f h ts =
    map-cong (on_table g) (on_table f)
      (λ t.
        ap (λ rows. record t { rows = rows })
          (map-cong _ _
            (λ row.
              map-cong (on_cell g t.name) (on_cell f t.name)
                (λ c. ap (λ v. record c { value = v }) (h t.name c.column c.value)) row)
            t.rows))
      ts
