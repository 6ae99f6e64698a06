-- ===== src/Queue/Leases/Holders.antt =====
-- What the exclusion means for the holders of one device and of one hub.
use sbc_mcu_dut_controller.Prelude.{
  ◌≤◌, String, Bool, true, false, ◌&&◌, ◌||◌, some, List, [], ◌∷◌, ◌≡◌, refl, inl, inr, arith,
  str_eq, sql_eq, select, any, length, All, Bool-cases, &&-true, sql_eq_join,
}
use sbc_mcu_dut_controller.Store.{Lease, Db}
use sbc_mcu_dut_controller.Queue.Leases.{is_active}
use sbc_mcu_dut_controller.Queue.Leases.Exclusive.{clashes, IsExclusive, Reach, Reach-IsExclusive}

abbrev pub of_device : String → Lease → Bool
of_device d l = is_active l && sql_eq l.device_id (some d)

abbrev pub of_hub : String → Lease → Bool
of_hub h l = is_active l && sql_eq l.hub_host_id (some h)

abbrev pub is_hub_kind : Lease → Bool
is_hub_kind l = str_eq l.kind "exclusive_hub"

-- The active leases of one device, and those on one hub.
unfoldable pub device_holders : String → Db → List Lease
device_holders d db = select (of_device d) db.leases

unfoldable pub hub_holders : String → Db → List Lease
hub_holders h db = select (of_hub h) db.leases

same_device :
    (d : String) (l m : Lease) → of_device d l ≡ true → of_device d m ≡ true → clashes l m ≡ true
same_device d l m hl hm =
    let (al, dl) = &&-true (is_active l) _ hl in
    let (am, dm) = &&-true (is_active m) _ hm in
    rw (al, am, sql_eq_join l.device_id m.device_id d dl dm)

same_hub :
    (h : String) (l m : Lease)
    → of_hub h l ≡ true
    → of_hub h m ≡ true
    → (is_hub_kind l || is_hub_kind m) ≡ true
    → clashes l m ≡ true
same_hub h l m hl hm k =
    let (al, dl) = &&-true (is_active l) _ hl in
    let (am, dm) = &&-true (is_active m) _ hm in
    let joined = sql_eq_join l.hub_host_id m.hub_host_id h dl dm in ground arith

-- Rows that pairwise clash, among rows that do not, are at most one.
select_none :
    (p : Lease → Bool) (l : Lease) (ms : List Lease)
    → ((m : Lease) → p m ≡ true → clashes l m ≡ true)
    → All (λ m. clashes l m ≡ false) ms
    → select p ms ≡ []
select_none p l [] clash free = refl
select_none p l (m ∷ ms) clash free = elim (Bool-cases (p m)) [
  | inl yes_m ↦ cc (clash m yes_m, free.0)
  | inr no_m ↦ rw no_m (select_none p l ms clash free.1)
]

length-select-le_one :
    (p : Lease → Bool)
    → ((l m : Lease) → p l ≡ true → p m ≡ true → clashes l m ≡ true)
    → (ls : List Lease) → IsExclusive ls
    → length (select p ls) ≤ 1
length-select-le_one p clash [] e = omega arith
length-select-le_one p clash (l ∷ ls) e = elim (Bool-cases (p l)) [
  | inl yes_l ↦ rw (yes_l, select_none p l ls (λ m. clash l m yes_l) e.0) (omega arith)
  | inr no_l ↦ rw no_l (length-select-le_one p clash ls e.1)
]

-- Behind a row that clashes with none of them, no selected row is of the hub kind.
no_hub_kind :
    (h : String) (l : Lease) (ms : List Lease)
    → of_hub h l ≡ true
    → All (λ m. clashes l m ≡ false) ms
    → any is_hub_kind (select (of_hub h) ms) ≡ false
no_hub_kind h l [] hl free = refl
no_hub_kind h l (m ∷ ms) hl free = elim (Bool-cases (of_hub h m)) [
  | inl here ↦ elim (Bool-cases (is_hub_kind m)) [
    | inl k ↦ cc (same_hub h l m hl here (ground arith), free.0)
    | inr k ↦ rw (here, k) (no_hub_kind h l ms hl free.1)
  ]
  | inr other ↦ rw other (no_hub_kind h l ms hl free.1)
]

hub_rows-le_one :
    (h : String) (ls : List Lease)
    → IsExclusive ls
    → any is_hub_kind (select (of_hub h) ls) ≡ true
    → length (select (of_hub h) ls) ≤ 1
hub_rows-le_one h [] e k = omega arith
hub_rows-le_one h (l ∷ ls) e k = elim (Bool-cases (of_hub h l)) [
  | inl here ↦ elim (Bool-cases (is_hub_kind l)) [
    | inl whole ↦
        rw (here, select_none (of_hub h) l ls (λ m hm. same_hub h l m here hm (ground arith)) e.0)
          (omega arith)
    | inr one ↦ cc (no_hub_kind h l ls here e.0, rw (here, one) at k)
  ]
  | inr other ↦ rw other (hub_rows-le_one h ls e.1 (rw other at k))
]

-- From a database whose leases are exclusive, no sequence of calls of the lease functions and of
-- transactions elsewhere, in any order and with any arguments, reaches one in which a device has
-- two active leases.
pub device_holders-le_one :
    (d : String) {start db : Db}
    → IsExclusive start.leases
    → Reach start db
    → length (device_holders d db) ≤ 1
unfolding device_holders
device_holders-le_one d {start} {db} e r =
    length-select-le_one (of_device d) (same_device d) db.leases (Reach-IsExclusive e r)

-- From a database whose leases are exclusive, no sequence of calls of the lease functions and of
-- transactions elsewhere reaches one in which an active exclusive_hub lease shares its hub with any
-- other active lease.
pub hub_holders-le_one :
    (h : String) {start db : Db}
    → IsExclusive start.leases
    → Reach start db
    → any is_hub_kind (hub_holders h db) ≡ true
    → length (hub_holders h db) ≤ 1
unfolding hub_holders
hub_holders-le_one h {start} {db} e r k = hub_rows-le_one h db.leases (Reach-IsExclusive e r) k
