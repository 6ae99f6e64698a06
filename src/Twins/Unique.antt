-- ===== src/Twins/Unique.antt =====
-- The rows of twin_identities that the upsert of src/hil_controller/twins.py writes.
use sbc_mcu_dut_controller.Prelude.{
  ℕ, String, Bool, true, false, not, ◌&&◌, ◌||◌, List, [], ◌∷◌, ◌≡◌, refl, ◌∙◌, ap, arith, str_eq,
  any, All, Apart, if_ind, &&-true, eq_iff, str_eq_comm,
}
use sbc_mcu_dut_controller.Prelude.Json.{Fields}
use sbc_mcu_dut_controller.Twins.Tables.{Identity, TwinIdentity, Tables}
use sbc_mcu_dut_controller.Twins.Upserts.{
  same_text, same_value, same_holder, seen_again, upsert_identity, claimed_elsewhere,
  owned_otherwise,
}
use sbc_mcu_dut_controller.Twins.Ingest.{identity_row, observe_identity}
use sbc_mcu_dut_controller.Twins.Keeps.{Keeps, raise_if-holds}

-- Two rows with the namespace and the kind `t` in common, the value `v`, the holder `h`.
abbrev pub excluded : (t v h unique : Bool) → Bool
excluded t v h unique = t && ((v && h) || (unique && (v || h)))

-- Two rows that may not stand together: the same one twice, or, where one of them is unique, a value of
-- two holders or a holder of two values.
abbrev pub clash : TwinIdentity → TwinIdentity → Bool
clash x y = excluded (same_text x y) (same_value x y) (same_holder x y) (x.is_unique || y.is_unique)

joined-excluded :
    (t v h ru nu yu : Bool)
    → excluded t v h (ru || yu) ≡ false
    → ((t && v) && (not h && (yu || nu))) ≡ false
    → ((t && h) && (not v && (yu || nu))) ≡ false
    → excluded t v h ((ru || nu) || yu) ≡ false
joined-excluded t v h ru nu yu a b c = ground arith

excluded-new :
    (t v h ru nu : Bool)
    → (t && (v && h)) ≡ false
    → ((t && v) && (not h && (ru || nu))) ≡ false
    → ((t && h) && (not v && (ru || nu))) ≡ false
    → excluded t v h (ru || nu) ≡ false
excluded-new t v h ru nu a b c = ground arith

-- The row has the columns of the unique index in common with the new one.
abbrev is_key : TwinIdentity → TwinIdentity → Bool
is_key new r = same_text new r && (same_value new r && same_holder new r)

-- A text's test against one of two equal texts is a test against the other.
same-test : (a b : String) → str_eq a b ≡ true → (c : String) → str_eq c a ≡ str_eq c b
same-test a b h c = ap (str_eq c) ((eq_iff a b).0 h)

clash-parts :
    (new r : TwinIdentity)
    → is_key new r ≡ true
    → (y : TwinIdentity)
    → (same_text r y ≡ same_text new y)
      × (same_value r y ≡ same_value new y)
      × (same_holder r y ≡ same_holder new y)
clash-parts new r key y =
    let (t, k) = &&-true (same_text new r) (same_value new r && same_holder new r) key in
    let (v, h) = &&-true (same_value new r) (same_holder new r) k in
    let (n, d) = &&-true (str_eq r.namespace new.namespace) (str_eq r.kind new.kind) t in
    let (i, k) = &&-true (str_eq r.twin_id new.twin_id) _ h in
    let (o, c) = &&-true (str_eq r.owner new.owner) (str_eq r.component new.component) k in
    (
      rw (same-test r.namespace new.namespace n y.namespace, same-test r.kind new.kind d y.kind)
          refl,
      same-test r.value new.value v y.value,
      rw
          (
            same-test r.twin_id new.twin_id i y.twin_id,
            same-test r.owner new.owner o y.owner,
            same-test r.component new.component c y.component,
          )
          refl,
    )

or_comm : (a b : Bool) → (a || b) ≡ (b || a)
or_comm a b = ground arith

clash_comm : (x y : TwinIdentity) → clash x y ≡ clash y x
clash_comm x y =
    rw
      (
        str_eq_comm y.namespace x.namespace,
        str_eq_comm y.kind x.kind,
        str_eq_comm y.value x.value,
        str_eq_comm y.twin_id x.twin_id,
        str_eq_comm y.owner x.owner,
        str_eq_comm y.component x.component,
      )
      (rw (or_comm x.is_unique y.is_unique) refl)

-- A row that agrees with the conflict queries and joins the new one's values clashes with nothing more.
joined-clash :
    (new r y : TwinIdentity)
    → is_key new r ≡ true
    → clash r y ≡ false
    → claimed_elsewhere new y ≡ false
    → owned_otherwise new y ≡ false
    → clash (seen_again new r) y ≡ false
joined-clash new r y key c e o =
    let (t, v, h) = clash-parts new r key y in
    rw (t, v, h)
      (joined-excluded (same_text new y) (same_value new y) (same_holder new y) r.is_unique
        new.is_unique y.is_unique (rw (t, v, h) at c) e o)

-- Neither query finds the row.
abbrev Free : TwinIdentity → TwinIdentity → Type 0
Free new r = (claimed_elsewhere new r ≡ false) × (owned_otherwise new r ≡ false)

new-clash : (new r : TwinIdentity) → is_key new r ≡ false → Free new r → clash new r ≡ false
new-clash new r key (e, o) = rw (or_comm new.is_unique r.is_unique) (
    excluded-new (same_text new r) (same_value new r) (same_holder new r) r.is_unique new.is_unique
      key e o)

module _ (new : TwinIdentity) where
  All-upsert :
      (P : TwinIdentity → Type 0)
      → P new
      → ((r : TwinIdentity) → is_key new r ≡ true → P r → P (seen_again new r))
      → (rs : List TwinIdentity) → All P rs
      → All P (upsert_identity new rs)
  unfolding upsert_identity
  All-upsert P fresh joined [] h = (fresh, tt)
  All-upsert P fresh joined (r ∷ rs) h =
      if_ind (All P) (is_key new r) (λ key. (joined r key h.0, h.1))
        (λ _. (h.0, All-upsert P fresh joined rs h.1))

  All-joined :
      (r : TwinIdentity) (rs : List TwinIdentity)
      → is_key new r ≡ true
      → All (λ y. clash r y ≡ false) rs
      → All (Free new) rs
      → All (λ y. clash (seen_again new r) y ≡ false) rs
  All-joined r [] key c f = tt
  All-joined r (y ∷ ys) key c f =
      (joined-clash new r y key c.0 f.0.0 f.0.1, All-joined r ys key c.1 f.1)

  upsert_identity-Apart :
      (rs : List TwinIdentity)
      → Apart clash rs
      → All (Free new) rs
      → Apart clash (upsert_identity new rs)
  unfolding upsert_identity
  upsert_identity-Apart [] a f = (tt, tt)
  upsert_identity-Apart (r ∷ rs) a f =
      if_ind (Apart clash) (is_key new r) (λ key. (All-joined r rs key a.0 f.1, a.1))
        (λ key. (
          All-upsert (λ y. clash r y ≡ false) (clash_comm r new ∙ new-clash new r key f.0)
              (λ x same c.
                clash_comm r (seen_again new x)
                ∙ joined-clash new x r same (clash_comm x r ∙ c) f.0.0 f.0.1)
              rs a.0,
          upsert_identity-Apart rs a.1 f.1,
        ))

any-All :
    (p q : TwinIdentity → Bool) (rs : List TwinIdentity)
    → any p rs ≡ false
    → any q rs ≡ false
    → All (λ r. (p r ≡ false) × (q r ≡ false)) rs
any-All p q [] h k = tt
any-All p q (r ∷ rs) h k =
    ((ground arith, ground arith), any-All p q rs (ground arith) (ground arith))

abbrev pub AreApart : Tables → Type 0
AreApart t = Apart clash t.identities

pub observe_identity-AreApart :
    (encoded : Fields → String) (twin_id : String) (at : ℕ) (observation_id : String) (i : Identity)
    → Keeps AreApart (observe_identity encoded twin_id at observation_id i)
unfolding observe_identity
observe_identity-AreApart encoded twin_id at observation_id i t a =
    raise_if-holds AreApart _ _ _ _ t a λ _. raise_if-holds AreApart _ _ _ _ t a λ free.
      raise_if-holds AreApart _ _ _ _ t a λ same.
        upsert_identity-Apart (identity_row encoded twin_id at observation_id i) t.identities a
          (any-All _ _ t.identities free same)
