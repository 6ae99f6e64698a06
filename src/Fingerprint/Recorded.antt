-- ===== src/Fingerprint/Recorded.antt =====
-- What `_upsert` of src/hil_controller/adapters/usb_fingerprint.py records.
use sbc_mcu_dut_controller.Prelude.{
  ℕ, suc, String, Bool, true, false, ◌&&◌, ◌||◌, Option, none, some, List, [], ◌∷◌, ◌++◌, map, ◌≡◌,
  refl, arith, ◌==◌, str_eq, eq_refl, find_first, any, All, Bool-cases, &&-true, if_ind, ◌∙◌, inl,
  inr,
}
use sbc_mcu_dut_controller.Store.{Stamp}
use sbc_mcu_dut_controller.Fingerprint.{
  UsbId, Entry, UsbTable, usb_key, is_row, seen_again, first_seen, write_row, upsert_entry, upsert,
}
use sbc_mcu_dut_controller.Fingerprint.Upsert.{has_ids}

module _ (device_id role : String) (job_id : Option String) (now : Stamp) where
  -- The entry's row, with the role and the source of this call.
  abbrev pub records : Entry → UsbId → Bool
  records e r =
      is_row device_id (usb_key e.vid) (usb_key e.pid) r
      && (str_eq r.role role && str_eq r.source "learn-job")

any-map {ℓ} :
    {A : Type ℓ} (p : A → Bool) (f : A → A)
    → ((x : A) → p x ≡ true → p (f x) ≡ true)
    → (xs : List A) → any p xs ≡ true
    → any p (map f xs) ≡ true
any-map p f keep [] h = h
any-map p f keep (x ∷ xs) h = elim (Bool-cases (p x)) [
  | inl here ↦ rw (keep x here) refl
  | inr not_here ↦ let rest = any-map p f keep xs (ground arith) in ground arith
]

any-snoc {ℓ} :
    {A : Type ℓ} (p : A → Bool) (xs : List A) (new : A)
    → any p (xs ++ new ∷ []) ≡ (any p xs || p new)
any-snoc p [] new = ground arith
any-snoc p (x ∷ xs) new = let ih = any-snoc p xs new in ground arith

any-map-found {ℓ} :
    {A : Type ℓ} (p q : A → Bool) (f : A → A) (found : A)
    → (p found ≡ true → q (f found) ≡ true)
    → (xs : List A) → find_first p xs ≡ some found
    → any q (map f xs) ≡ true
any-map-found p q f found k [] h = cc
any-map-found p q f found k (x ∷ xs) h = elim (Bool-cases (p x)) [
  | inl here ↦
      let same : x ≡ found = ground arith in
      let it : q (f x) ≡ true = rw same (k (rw same at here)) in rw it refl
  | inr not_here ↦ let rest = any-map-found p q f found k xs (ground arith) in ground arith
]

or_true : (a : Bool) {b : Bool} → b ≡ true → (a || b) ≡ true
or_true true h = refl
or_true false h = h

module _ (device_id role : String) (job_id : Option String) (now : Stamp) where
  records-again :
      (k : Entry) (description : Option String) (r : UsbId)
      → is_row device_id (usb_key k.vid) (usb_key k.pid) r ≡ true
      → records device_id role job_id now k (seen_again device_id role job_id now description r)
        ≡ true
  records-again k description r h = rw (h, eq_refl role) refl

  records-first :
      (k : Entry) (description : Option String) (id : ℕ)
      → records device_id role job_id now k
          (first_seen device_id role job_id now (usb_key k.vid) (usb_key k.pid) description id)
        ≡ true
  records-first k description id =
      rw (eq_refl device_id, eq_refl (usb_key k.vid), eq_refl (usb_key k.pid), eq_refl role) refl

  write_row-keeps :
      (k : Entry) (found : Option UsbId) (vid pid : String) (description : Option String)
      (t : UsbTable)
      → any (records device_id role job_id now k) t.rows ≡ true
      → any
          (records device_id role job_id now k)
          (write_row device_id role job_id now found vid pid description t).1.rows
        ≡ true
  write_row-keeps k none vid pid description t h =
      any-snoc (records device_id role job_id now k) t.rows _ ∙ rw h refl
  write_row-keeps k (some x) vid pid description t h =
      any-map (records device_id role job_id now k) _
        (λ r e. elim (Bool-cases (r.id == x.id)) [
          | inl same ↦ rw same (records-again k description r (&&-true _ _ e).0)
          | inr other ↦ rw other e
        ])
        t.rows h

  write_row-records :
      (e : Entry) (found : Option UsbId) (description : Option String) (t : UsbTable)
      → find_first (is_row device_id (usb_key e.vid) (usb_key e.pid)) t.rows ≡ found
      → any
          (records device_id role job_id now e)
          (write_row device_id role job_id now found
            (usb_key e.vid)
            (usb_key e.pid)
            description
            t).1.rows
        ≡ true
  write_row-records e none description t h =
      any-snoc (records device_id role job_id now e) t.rows _
      ∙ or_true (any (records device_id role job_id now e) t.rows)
          (records-first e description (suc t.last_id))
  write_row-records e (some x) description t h =
      any-map-found (is_row device_id (usb_key e.vid) (usb_key e.pid))
        (records device_id role job_id now e) _ x
        (λ here.
          let same : (x.id == x.id) ≡ true = ground arith in
          rw same (records-again e description x here))
        t.rows h

  upsert_entry-keeps :
      (k e : Entry) (t : UsbTable)
      → any (records device_id role job_id now k) t.rows ≡ true
      → any
          (records device_id role job_id now k)
          (upsert_entry device_id role job_id now e t).1.rows
        ≡ true
  unfolding upsert_entry
  upsert_entry-keeps k e t h =
      if_ind {A = Option UsbId × UsbTable}
        (λ r. any (records device_id role job_id now k) r.1.rows ≡ true) (has_ids e)
        (λ _. write_row-keeps k _ (usb_key e.vid) (usb_key e.pid) _ t h) (λ _. h)

  upsert-keeps :
      (k : Entry) (es : List Entry) (t : UsbTable)
      → any (records device_id role job_id now k) t.rows ≡ true
      → any (records device_id role job_id now k) (upsert device_id role job_id now es t).1.rows
        ≡ true
  unfolding upsert
  upsert-keeps k [] t h = h
  upsert-keeps k (e ∷ es) t h =
      upsert-keeps k es (upsert_entry device_id role job_id now e t).1 (upsert_entry-keeps k e t h)

  upsert_entry-records :
      (e : Entry) (t : UsbTable)
      → has_ids e ≡ true
      → any
          (records device_id role job_id now e)
          (upsert_entry device_id role job_id now e t).1.rows
        ≡ true
  unfolding upsert_entry
  upsert_entry-records e t h = rw h (write_row-records e _ _ t refl)

  -- After a call of _upsert every captured entry that has a vid and a pid has a row for the device,
  -- with its ids in lower case, no serial, the role of the call and the source learn-job.
  pub upsert-records :
      (es : List Entry) (t : UsbTable)
      → All
          (λ e.
            has_ids e ≡ true
            → any
                (records device_id role job_id now e)
                (upsert device_id role job_id now es t).1.rows
              ≡ true)
          es
  unfolding upsert
  upsert-records [] t = tt
  upsert-records (e ∷ es) t =
      let t' : UsbTable = (upsert_entry device_id role job_id now e t).1 in
      (λ h. upsert-keeps e es t' (upsert_entry-records e t h), upsert-records es t')
