-- ===== src/Availability/Ids.antt =====
-- The devices of src/hil_controller/availability_reconciler.py by their ids.
use sbc_mcu_dut_controller.Prelude.{
  String, Bool, true, false, Option, some, List, [], ◌∷◌, map, ◌≡◌, ap, sym, ◌∙◌, inl, inr, arith,
  str_eq, find_first, All, All-map, All-mono, Bool-cases,
}
use sbc_mcu_dut_controller.Store.{Device}
use sbc_mcu_dut_controller.Availability.{Action, retry_now}

-- `id TEXT PRIMARY KEY`
abbrev pub Distinct : List Device → Type 0
Distinct [] = Unit
Distinct (d ∷ ds) = All (λ e. str_eq e.id d.id ≡ false) ds × Distinct ds

abbrev pub is_retry : Action → Bool
is_retry retry_now = true
is_retry _ = false

abbrev pub of_id : String → List Device → Option Device
of_id id devices = find_first (λ (d : Device). str_eq d.id id) devices

pub of_id-id :
    (id : String) (ds : List Device) (d : Device) → of_id id ds ≡ some d → str_eq d.id id ≡ true
of_id-id id [] d h = cc
of_id-id id (e ∷ ds) d h = elim (Bool-cases (str_eq e.id id)) [
  | inl here ↦ let it : e ≡ d = ground arith in ap (λ (x : Device). str_eq x.id id) (sym it) ∙ here
  | inr other ↦ of_id-id id ds d (rw other at h)
]

-- A change of the rows that keeps their ids.
module _ (f : Device → Device) (same : (d : Device) → (f d).id ≡ d.id) where
  pub of_id-map :
      (id : String) (ds : List Device) (d : Device)
      → of_id id ds ≡ some d
      → of_id id (map f ds) ≡ some (f d)
  of_id-map id [] d h = cc
  of_id-map id (e ∷ ds) d h = elim (Bool-cases (str_eq e.id id)) [
    | inl here ↦
        let it : e ≡ d = ground arith in
        let test : str_eq (f e).id id ≡ true = ap (λ i. str_eq i id) (same e) ∙ here in
        rw test (ap (λ x. some (f x)) it)
    | inr other ↦
        let test : str_eq (f e).id id ≡ false = ap (λ i. str_eq i id) (same e) ∙ other in
        rw test (of_id-map id ds d (rw other at h))
  ]

  pub Distinct-map : (ds : List Device) → Distinct ds → Distinct (map f ds)
  Distinct-map [] h = tt
  Distinct-map (d ∷ ds) h = (
    All-map (λ e. str_eq e.id (f d).id ≡ false) f ds
        (All-mono (λ e. str_eq e.id d.id ≡ false) (λ e. str_eq (f e).id (f d).id ≡ false)
          (λ e k. ap (λ i. str_eq i (f d).id) (same e) ∙ (ap (str_eq e.id) (same d) ∙ k)) ds h.0),
    Distinct-map ds h.1,
  )
