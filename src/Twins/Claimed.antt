-- ===== src/Twins/Claimed.antt =====
-- The unique identities of physical units under `ingest` of src/hil_controller/twins.py.
use sbc_mcu_dut_controller.Prelude.{
  String, Bool, true, false, ◌&&◌, ◌||◌, List, [], ◌∷◌, ◌≡◌, refl, ◌∙◌, sym, arith, str_eq, select,
  any, length, All, Apart, if_ind, &&-true, inl, inr, Bool-cases, eq_iff,
}
use sbc_mcu_dut_controller.Prelude.Json.{Fields}
use sbc_mcu_dut_controller.Twins.Tables.{Observation, TwinIdentity, Tables}
use sbc_mcu_dut_controller.Twins.Upserts.{same_text, same_value, same_holder}
use sbc_mcu_dut_controller.Twins.Api.{Request, serve}
use sbc_mcu_dut_controller.Twins.Unique.{excluded, clash, AreApart, observe_identity-AreApart}
use sbc_mcu_dut_controller.Twins.Kept.{
  Keeps-create_twin, Keeps-observe_port, Keeps-assign_slot, Keeps-connect, Keeps-close, Keeps-serve,
}

-- A choice of rows of which no two may stand together where one of them is unique.
abbrev Claims : (TwinIdentity → Bool) → Type 0
Claims p =
    (x y : TwinIdentity)
    → p x ≡ true
    → p y ≡ true
    → (x.is_unique || y.is_unique) ≡ true
    → clash x y ≡ true

module _ (p : TwinIdentity → Bool) (claims : Claims p) where
  none_beside :
      (x : TwinIdentity) (rs : List TwinIdentity)
      → p x ≡ true
      → All (λ y. clash x y ≡ false) rs
      → x.is_unique ≡ true
      → select p rs ≡ []
  none_beside x [] h a u = refl
  none_beside x (r ∷ rs) h a u =
      if_ind (λ (l : List TwinIdentity). l ≡ []) (p r)
        (λ k. let c = claims x r h k (rw u refl) in cc) (λ _. none_beside x rs h a.1 u)

  none_unique :
      (x : TwinIdentity) (rs : List TwinIdentity)
      → p x ≡ true
      → All (λ y. clash x y ≡ false) rs
      → any (λ (y : TwinIdentity). y.is_unique) (select p rs) ≡ false
  none_unique x [] h a = refl
  none_unique x (r ∷ rs) h a =
      if_ind (λ (l : List TwinIdentity). any (λ (y : TwinIdentity). y.is_unique) l ≡ false) (p r)
        (λ k. elim (Bool-cases r.is_unique) [
          | inl w ↦ let c = claims x r h k (ground arith) in cc
          | inr w ↦ rw w (none_unique x rs h a.1)
        ])
        (λ _. none_unique x rs h a.1)

  -- A unique row of the choice is the only one.
  one_claim :
      (rs : List TwinIdentity)
      → Apart clash rs
      → any (λ (y : TwinIdentity). y.is_unique) (select p rs) ≡ true
      → length (select p rs) ≡ 1
  one_claim [] a u = cc
  one_claim (r ∷ rs) a u = elim (Bool-cases (p r)) [
    | inl k ↦ elim (Bool-cases r.is_unique) [
      | inl w ↦ rw (k, none_beside r rs k a.0 w) refl
      | inr w ↦ let none = none_unique r rs k a.0 in let some_one = rw (k, w) at u in cc
    ]
    | inr k ↦ let below = rw k at u in rw k (one_claim rs a.1 below)
  ]

join_test : (a b d : String) → str_eq a d ≡ true → str_eq b d ≡ true → str_eq b a ≡ true
join_test a b d h k = (eq_iff b a).1 ((eq_iff b d).0 k ∙ sym ((eq_iff a d).0 h))

abbrev pub of_value : (namespace kind value : String) → TwinIdentity → Bool
of_value namespace kind value r =
    (str_eq r.namespace namespace && str_eq r.kind kind) && str_eq r.value value

abbrev pub of_holder : (namespace kind twin_id owner component : String) → TwinIdentity → Bool
of_holder namespace kind twin_id owner component r =
    (str_eq r.namespace namespace && str_eq r.kind kind)
    && (str_eq r.twin_id twin_id && (str_eq r.owner owner && str_eq r.component component))

joined-text :
    (n d : String) (x y : TwinIdentity)
    → (str_eq x.namespace n && str_eq x.kind d) ≡ true
    → (str_eq y.namespace n && str_eq y.kind d) ≡ true
    → same_text x y ≡ true
joined-text n d x y h k =
    let (a, b) = &&-true _ _ h in
    let (e, f) = &&-true _ _ k in
    rw (join_test x.namespace y.namespace n a e, join_test x.kind y.kind d b f) refl

excluded-value : (h : Bool) → excluded true true h true ≡ true
excluded-value h = ground arith

excluded-holder : (v : Bool) → excluded true v true true ≡ true
excluded-holder v = ground arith

Claims-of_value : (n d v : String) → Claims (of_value n d v)
Claims-of_value n d v x y h k u =
    let (s, a) = &&-true (str_eq x.namespace n && str_eq x.kind d) (str_eq x.value v) h in
    let (t, b) = &&-true (str_eq y.namespace n && str_eq y.kind d) (str_eq y.value v) k in
    rw (joined-text n d x y s t, join_test x.value y.value v a b, u)
      (excluded-value (same_holder x y))

Claims-of_holder : (n d i o c : String) → Claims (of_holder n d i o c)
Claims-of_holder n d i o c x y h k u =
    let (s, a) = &&-true (str_eq x.namespace n && str_eq x.kind d) _ h in
    let (t, b) = &&-true (str_eq y.namespace n && str_eq y.kind d) _ k in
    let (xi, xj) = &&-true (str_eq x.twin_id i) _ a in
    let (yi, yj) = &&-true (str_eq y.twin_id i) _ b in
    let (xo, xc) = &&-true (str_eq x.owner o) (str_eq x.component c) xj in
    let (yo, yc) = &&-true (str_eq y.owner o) (str_eq y.component c) yj in
    let holder : same_holder x y ≡ true =
      rw
        (
          join_test x.twin_id y.twin_id i xi yi,
          join_test x.owner y.owner o xo yo,
          join_test x.component y.component c xc yc,
        )
        refl in
    rw (joined-text n d x y s t, holder, u) (excluded-holder (same_value x y))

module _ (encoded : Fields → String) (payload : Observation → String) where
  serve-AreApart :
      (rs : List Request) (t : Tables) → AreApart t → AreApart (serve encoded payload rs t)
  serve-AreApart =
      Keeps-serve encoded payload AreApart (Keeps-create_twin AreApart (λ t rows h. h))
        (λ actor now o twin_id t h. h)
        (λ twin_id at o. Keeps-observe_port AreApart encoded twin_id at o (λ t rows h. h))
        (observe_identity-AreApart encoded)
        (λ twin_id at o. Keeps-assign_slot AreApart encoded twin_id at o (λ t rows h. h))
        (Keeps-connect AreApart (λ t rows h. h) encoded) (Keeps-close AreApart (λ t rows h. h))

  -- Whatever requests are served, from tables whose identities may stand together: of the rows with a
  -- namespace, kind and value, where one is unique it is the only one, and so of the rows with a
  -- namespace, kind, twin, owner and component.
  pub serve-one_claim :
      (rs : List Request) (t : Tables) (namespace kind value twin_id owner component : String)
      → AreApart t
      → let claimed : List TwinIdentity =
          select (of_value namespace kind value) (serve encoded payload rs t).identities in
        let held : List TwinIdentity =
          select
            (of_holder namespace kind twin_id owner component)
            (serve encoded payload rs t).identities in
        (any (λ (r : TwinIdentity). r.is_unique) claimed ≡ true → length claimed ≡ 1)
        × (any (λ (r : TwinIdentity). r.is_unique) held ≡ true → length held ≡ 1)
  serve-one_claim rs t namespace kind value twin_id owner component h =
      let apart = serve-AreApart rs t h in
      (
        one_claim _ (Claims-of_value namespace kind value) _ apart,
        one_claim _ (Claims-of_holder namespace kind twin_id owner component) _ apart,
      )
