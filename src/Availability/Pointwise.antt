-- ===== src/Availability/Pointwise.antt =====
-- src/hil_controller/availability_reconciler.py: a pass over the rows that the query found, with one
-- UPDATE for each that is due, seen at the row of one device.
use mathlib.Core.Path.{subst}
use sbc_mcu_dut_controller.Prelude.{
  ℕ, String, true, false, ◌&&◌, some, List, [], ◌∷◌, ◌≡◌, refl, ap, sym, ◌∙◌, inl, inr, arith,
  if◌then◌else◌, str_eq, eq_refl, eq_iff, str_eq_comm, All, All-mono, Bool-cases, select, if_ind,
}
use sbc_mcu_dut_controller.Store.{Device}
use sbc_mcu_dut_controller.Availability.{Action, retry_now, wait, give_up, not_applicable}
use sbc_mcu_dut_controller.Availability.Reconciler.{
  ProbeReply, present, absent, raised, Settings, is_temporary, update_device, decide_retry,
  write_for, visit, visit_all,
}
use sbc_mcu_dut_controller.Store.{Stamp}
use sbc_mcu_dut_controller.Availability.Ids.{
  Distinct, is_retry, of_id, of_id-id, of_id-map, Distinct-map,
}

-- What others write during a pass keeps the ids distinct, and leaves the row of the device as it is.
pub record IsPeer (id : String) (meanwhile : Device → List Device → List Device) : Type 0 where
  pub distinct : (row : Device) (ds : List Device) → Distinct ds → Distinct (meanwhile row ds)
  pub kept : (row : Device) (ds : List Device) → of_id id (meanwhile row ds) ≡ of_id id ds

module _ (probe : Device → ProbeReply) (checked_at : Device → Stamp) (set : Settings)
    (now : ℕ) where
  -- What the pass does to a row, by the row alone.
  abbrev pub effect : Device → Device
  effect d =
      if is_temporary d && is_retry ((decide_retry probe checked_at set now d).action)
      then write_for probe checked_at set now (probe d) d d
      else d

  write-id :
      (p : ProbeReply) (row d : Device) → (write_for probe checked_at set now p row d).id ≡ d.id
  unfolding write_for
  write-id present row d = refl
  write-id absent row d = refl
  write-id raised row d = refl

  pub effect-id : (d : Device) → (effect d).id ≡ d.id
  effect-id d =
      if_ind {A = Device} (λ e. e.id ≡ d.id)
        (is_temporary d && is_retry ((decide_retry probe checked_at set now d).action))
        (λ _. write-id (probe d) d d) (λ _. refl)

  effect-other : (d : Device) → is_temporary d ≡ false → effect d ≡ d
  effect-other d t = rw t refl

  All-select : (P : Device → Type 0) (ds : List Device) → All P ds → All P (select is_temporary ds)
  All-select P [] h = tt
  All-select P (d ∷ ds) h =
      if_ind (All P) (is_temporary d) (λ _. (h.0, All-select P ds h.1)) (λ _. All-select P ds h.1)

  away :
      (d : Device) (ds : List Device)
      → All (λ e. str_eq e.id d.id ≡ false) ds
      → All (λ r. str_eq (effect d).id r.id ≡ false) (select is_temporary ds)
  away d ds h =
      All-select (λ r. str_eq (effect d).id r.id ≡ false) ds
        (All-mono (λ e. str_eq e.id d.id ≡ false) (λ r. str_eq (effect d).id r.id ≡ false)
          (λ e k. ap (λ i. str_eq i e.id) (effect-id d) ∙ str_eq_comm d.id e.id ∙ k) ds h)

  -- The UPDATE of a row of the query.
  abbrev written : Device → Device → Device
  written row d =
      if str_eq d.id row.id then write_for probe checked_at set now (probe row) row d else d

  written-id : (row d : Device) → (written row d).id ≡ d.id
  written-id row d =
      if_ind {A = Device} (λ e. e.id ≡ d.id) (str_eq d.id row.id) (λ _. write-id (probe row) row d)
        (λ _. refl)

  module _ (id : String) (meanwhile : Device → List Device → List Device)
      (peer : IsPeer id meanwhile) where
    abbrev updated : Device → List Device → List Device
    updated row ds =
        update_device row.id (write_for probe checked_at set now (probe row) row) (meanwhile row ds)

    abbrev taken : Action → Device → List Device → List Device
    taken a row ds = elim a as (λ _. List Device) [ retry_now ↦ updated row ds | _ ↦ ds ]

    updated-of_id :
        (row d : Device) (ds : List Device)
        → of_id id ds ≡ some d
        → of_id id (updated row ds) ≡ some (written row d)
    unfolding update_device
    updated-of_id row d ds h =
        of_id-map (written row) (written-id row) id (meanwhile row ds) d (peer.kept row ds ∙ h)

    updated-Distinct : (row : Device) (ds : List Device) → Distinct ds → Distinct (updated row ds)
    unfolding update_device
    updated-Distinct row ds h =
        Distinct-map (written row) (written-id row) (meanwhile row ds) (peer.distinct row ds h)

    visit-Distinct :
        (row : Device) (ds : List Device)
        → Distinct ds
        → Distinct (visit probe checked_at set now meanwhile row ds)
    unfolding visit
    visit-Distinct row ds h = of ((decide_retry probe checked_at set now row).action)
      where
        of : (a : Action) → Distinct (taken a row ds)
        of retry_now = updated-Distinct row ds h
        of wait = h
        of give_up = h
        of not_applicable = h

    pub visit_all-Distinct :
        (rows ds : List Device)
        → Distinct ds
        → Distinct (visit_all probe checked_at set now meanwhile rows ds)
    unfolding visit_all
    visit_all-Distinct [] ds h = h
    visit_all-Distinct (row ∷ rows) ds h =
        visit_all-Distinct rows (visit probe checked_at set now meanwhile row ds)
          (visit-Distinct row ds h)

    visit-other :
        (row d : Device) (ds : List Device)
        → of_id id ds ≡ some d
        → str_eq d.id row.id ≡ false
        → of_id id (visit probe checked_at set now meanwhile row ds) ≡ some d
    unfolding visit
    visit-other row d ds h apart = of ((decide_retry probe checked_at set now row).action)
      where
        of : (a : Action) → of_id id (taken a row ds) ≡ some d
        of retry_now =
            updated-of_id row d ds h
            ∙ ap (λ b. some (if b then write_for probe checked_at set now (probe row) row d else d))
                apart
        of wait = h
        of give_up = h
        of not_applicable = h

    visit_self :
        (d : Device) (ds : List Device)
        → of_id id ds ≡ some d
        → is_temporary d ≡ true
        → of_id id (visit probe checked_at set now meanwhile d ds) ≡ some (effect d)
    unfolding visit
    visit_self d ds h t = rw t (of ((decide_retry probe checked_at set now d).action))
      where
        of :
            (a : Action)
            → of_id id (taken a d ds)
              ≡ some (if is_retry a then write_for probe checked_at set now (probe d) d d else d)
        of retry_now =
            updated-of_id d d ds h
            ∙ ap (λ b. some (if b then write_for probe checked_at set now (probe d) d d else d))
                (eq_refl d.id)
        of wait = h
        of give_up = h
        of not_applicable = h

    visit_all-others :
        (rows : List Device) (d : Device) (ds : List Device)
        → of_id id ds ≡ some d
        → All (λ r. str_eq d.id r.id ≡ false) rows
        → of_id id (visit_all probe checked_at set now meanwhile rows ds) ≡ some d
    unfolding visit_all
    visit_all-others [] d ds h a = h
    visit_all-others (row ∷ rows) d ds h a =
        visit_all-others rows d (visit probe checked_at set now meanwhile row ds)
          (visit-other row d ds h a.0) a.1

    another_id :
        (d e : Device) → str_eq d.id id ≡ true → str_eq e.id id ≡ false → str_eq d.id e.id ≡ false
    another_id d e h k = ap (λ i. str_eq i e.id) ((eq_iff d.id id).0 h) ∙ str_eq_comm id e.id ∙ k

    -- The visits of the rows that the query found among `ds`, which has the row `d`.
    pub visit_all-effect :
        (ds : List Device) (d : Device)
        → Distinct ds
        → of_id id ds ≡ some d
        → (cur : List Device) → of_id id cur ≡ some d
        → of_id id (visit_all probe checked_at set now meanwhile (select is_temporary ds) cur)
          ≡ some (effect d)
    unfolding visit_all
    visit_all-effect [] d distinct h cur k = cc
    visit_all-effect (e ∷ ds) d distinct h cur k = elim (Bool-cases (str_eq e.id id)) [
      | inl here ↦
          let it : e ≡ d = ground arith in
          let far = away d ds (subst (λ x. All (λ f. str_eq f.id x.id ≡ false) ds) it distinct.0) in
          rw it (
            if_ind
              (λ rows.
                of_id id (visit_all probe checked_at set now meanwhile rows cur) ≡ some (effect d))
              (is_temporary d)
              (λ t.
                visit_all-others (select is_temporary ds) (effect d)
                  (visit probe checked_at set now meanwhile d cur) (visit_self d cur k t) far)
              (λ t.
                let same = effect-other d t in
                visit_all-others (select is_temporary ds) d cur k (
                  subst (λ x. All (λ r. str_eq x.id r.id ≡ false) (select is_temporary ds)) same
                    far)
                ∙ ap some (sym same)))
      | inr other ↦
          let h' : of_id id ds ≡ some d = rw other at h in
          let apart = another_id d e (of_id-id id ds d h') other in
          if_ind
            (λ rows.
              of_id id (visit_all probe checked_at set now meanwhile rows cur) ≡ some (effect d))
            (is_temporary e)
            (λ _.
              visit_all-effect ds d distinct.1 h' (visit probe checked_at set now meanwhile e cur)
                (visit-other e d cur k apart))
            (λ _. visit_all-effect ds d distinct.1 h' cur k)
    ]
