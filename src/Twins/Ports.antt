-- ===== src/Twins/Ports.antt =====
-- The row of a port after a sequence of upserts of src/hil_controller/twins.py.
use sbc_mcu_dut_controller.Prelude.{
  ℕ, String, Bool, true, false, ◌&&◌, Option, none, some, List, [], ◌∷◌, ◌≡◌, refl, ◌∙◌, ap, sym,
  arith, if◌then◌else◌, str_eq, find_first, codes, if_ind, inl, inr, Bool-cases, eq_iff, &&-true,
}
use sbc_mcu_dut_controller.Twins.Tables.{TwinPort}
use sbc_mcu_dut_controller.Twins.Upserts.{is_after, is_newer, is_port, refreshed, upsert_port}

-- A sequence of upserts, first to last.
unfoldable pub upserts : List TwinPort → List TwinPort → List TwinPort
unfolding upsert_port
upserts [] rows = rows
upserts (w ∷ ws) rows = upserts ws (upsert_port w rows)

-- What a query for the port finds after an upsert, from what it found before.
abbrev pub written : TwinPort → Option TwinPort → TwinPort
written w none = w
written w (some r) = refreshed w r

abbrev pub found_after : (twin_id id : String) → TwinPort → Option TwinPort → Option TwinPort
found_after twin_id id w o = if is_port twin_id id w then some (written w o) else o

is_after_trans :
    (as' bs cs : List ℕ) → is_after as' bs ≡ true → is_after bs cs ≡ true → is_after as' cs ≡ true
is_after_trans [] bs cs h k = cc
is_after_trans (a ∷ as') [] cs h k = cc
is_after_trans (a ∷ as') (b ∷ bs) [] h k = refl
is_after_trans (a ∷ as') (b ∷ bs) (c ∷ cs) h k = ground (arith, is_after_trans as' bs cs)

is_after_asym : (as' bs : List ℕ) → is_after as' bs ≡ true → is_after bs as' ≡ false
is_after_asym [] bs h = cc
is_after_asym (a ∷ as') [] h = refl
is_after_asym (a ∷ as') (b ∷ bs) h = ground (arith, is_after_asym as' bs)

pub is_newer_trans :
    (a b c : TwinPort) → is_newer a b ≡ true → is_newer b c ≡ true → is_newer a c ≡ true
unfolding is_newer
is_newer_trans a b c h k = ground (
  arith,
  is_after_trans (codes a.observation_id) (codes b.observation_id) (codes c.observation_id),
)

pub is_newer_asym : (a b : TwinPort) → is_newer a b ≡ true → is_newer b a ≡ false
unfolding is_newer
is_newer_asym a b h =
    ground (arith, is_after_asym (codes a.observation_id) (codes b.observation_id))

module _ (twin_id id : String) where
  same-port :
      (w r : TwinPort)
      → is_port w.twin_id w.id r ≡ true
      → is_port twin_id id r ≡ is_port twin_id id w
  same-port w r h =
      let (a, b) = &&-true (str_eq r.twin_id w.twin_id) (str_eq r.id w.id) h in
      ap (λ x. str_eq x twin_id && str_eq r.id id) ((eq_iff r.twin_id w.twin_id).0 a)
      ∙ ap (λ y. str_eq w.twin_id twin_id && str_eq y id) ((eq_iff r.id w.id).0 b)

  pub one-port :
      (w r : TwinPort)
      → is_port twin_id id r ≡ true
      → is_port twin_id id w ≡ true
      → is_port w.twin_id w.id r ≡ true
  one-port w r h k =
      let (a, b) = &&-true (str_eq r.twin_id twin_id) (str_eq r.id id) h in
      let (c, d) = &&-true (str_eq w.twin_id twin_id) (str_eq w.id id) k in
      rw
        (
          (eq_iff r.twin_id w.twin_id).1
              ((eq_iff r.twin_id twin_id).0 a ∙ sym ((eq_iff w.twin_id twin_id).0 c)),
          (eq_iff r.id w.id).1 ((eq_iff r.id id).0 b ∙ sym ((eq_iff w.id id).0 d)),
        )
        refl

  refreshed-port : (w r : TwinPort) → is_port twin_id id (refreshed w r) ≡ is_port twin_id id r
  refreshed-port w r =
      if_ind (λ (x : TwinPort). is_port twin_id id x ≡ is_port twin_id id r) (is_newer w r)
        (λ _. refl) (λ _. refl)

  find_first-upsert_port :
      (w : TwinPort) (rows : List TwinPort)
      → find_first (is_port twin_id id) (upsert_port w rows)
        ≡ found_after twin_id id w (find_first (is_port twin_id id) rows)
  unfolding upsert_port
  find_first-upsert_port w [] = refl
  find_first-upsert_port w (r ∷ rows) =
      if_ind
        (λ (l : List TwinPort).
          find_first (is_port twin_id id) l
          ≡ found_after twin_id id w (find_first (is_port twin_id id) (r ∷ rows)))
        (is_port w.twin_id w.id r)
        (λ same. rw (refreshed-port w r, sym (same-port w r same)) (here (is_port twin_id id r)))
        (λ other. elsewhere (is_port twin_id id r) refl other (find_first-upsert_port w rows))
    where
      o : Option TwinPort
      o = find_first (is_port twin_id id) rows

      here :
          (b : Bool)
          → (if b then some (refreshed w r) else o)
            ≡ (if b then some (written w (if b then some r else o)) else (if b then some r else o))
      here true = refl
      here false = refl

      elsewhere :
          (b : Bool)
          → is_port twin_id id r ≡ b
          → is_port w.twin_id w.id r ≡ false
          → find_first (is_port twin_id id) (upsert_port w rows) ≡ found_after twin_id id w o
          → (if b then some r else find_first (is_port twin_id id) (upsert_port w rows))
            ≡ found_after twin_id id w (if b then some r else o)
      elsewhere true e other ih = elim (Bool-cases (is_port twin_id id w)) [
        | inl both ↦ let k = one-port w r e both in cc
        | inr away ↦ rw away refl
      ]
      elsewhere false e other ih = ih

  abbrev pub found : List TwinPort → Option TwinPort → Option TwinPort
  found [] o = o
  found (w ∷ ws) o = found ws (found_after twin_id id w o)

  pub find_first-upserts :
      (ws rows : List TwinPort)
      → find_first (is_port twin_id id) (upserts ws rows)
        ≡ found ws (find_first (is_port twin_id id) rows)
  unfolding upserts
  find_first-upserts [] rows = refl
  find_first-upserts (w ∷ ws) rows =
      find_first-upserts ws (upsert_port w rows) ∙ ap (found ws) (find_first-upsert_port w rows)
