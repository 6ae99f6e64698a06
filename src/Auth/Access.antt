-- ===== src/Auth/Access.antt =====
-- What stands behind a pool that src/hil_controller/auth opens.
use sbc_mcu_dut_controller.Prelude.{
  String, Bool, true, false, not, ◌&&◌, ◌||◌, Option, none, some, List, [], ◌∷◌, ◌≡◌, refl, sym, ap,
  ◌∙◌, ◌⊎◌, inl, inr, arith, str_eq, one_of, find_first, Bool-cases,
}
use sbc_mcu_dut_controller.Auth.{
  Principal, allows_pool, Column, unset, unreadable, names, TokenRow, Verified, matches, mismatch,
  failed, split_token, list_or, principal_of, is_live, granted, assembled, accepted, on_row,
  on_table, on_parts, answered, check_db_token, require_auth,
}

-- The row's pools name the pool, or all; a row without a list of pools has its own pool.
abbrev pub names_pool : String → TokenRow → Bool
names_pool pool row = elim row.allowed_pools [
  | unset ↦ str_eq "*" row.pool || str_eq pool row.pool
  | unreadable ↦ false
  | names n ns ↦ one_of "*" (n ∷ ns) || one_of pool (n ∷ ns)
]

-- The token is that of an unrevoked row, its secret verifies against the row's hash, and the Principal
-- is the row's.
abbrev pub IsRowToken :
    ((hash secret : String) → Verified)
    → Option (List TokenRow)
    → String
    → Principal
    → TokenRow
    → Type 0
IsRowToken verify tokens token p row =
    (token_id : String) × (secret : String) × (rows : List TokenRow) × (split_token token
      ≡ some (token_id, secret))
    × (tokens ≡ some rows)
    × (find_first (is_live token_id) rows ≡ some row)
    × (verify row.hash secret ≡ matches)
    × (principal_of token_id row ≡ some p)

module _ (verify : (hash secret : String) → Verified) where
  accepted-matches :
      (token_id : String) (row : TokenRow) (v : Verified) (p : Principal)
      → accepted verify token_id row v ≡ some p
      → (v ≡ matches) × (principal_of token_id row ≡ some p)
  accepted-matches token_id row matches p h = (refl, h)
  accepted-matches token_id row mismatch p h = cc
  accepted-matches token_id row failed p h = cc

  check_db_token-IsRowToken :
      (tokens : Option (List TokenRow)) (token : String) (p : Principal)
      → check_db_token verify tokens token ≡ some p
      → (row : TokenRow) × IsRowToken verify tokens token p row
  unfolding check_db_token
  check_db_token-IsRowToken tokens token p h = parts (split_token token) refl h
    where
      found :
          (token_id secret : String) (rows : List TokenRow) (o : Option TokenRow)
          → split_token token ≡ some (token_id, secret)
          → tokens ≡ some rows
          → find_first (is_live token_id) rows ≡ o
          → on_row verify token_id secret o ≡ some p
          → (row : TokenRow) × IsRowToken verify tokens token p row
      found token_id secret rows none s t e h = cc
      found token_id secret rows (some row) s t e h =
          let a = accepted-matches token_id row (verify row.hash secret) p h in
          (row, (token_id, secret, rows, s, t, e, a.0, a.1))

      table :
          (token_id secret : String) (t : Option (List TokenRow))
          → split_token token ≡ some (token_id, secret)
          → tokens ≡ t
          → on_table verify token_id secret t ≡ some p
          → (row : TokenRow) × IsRowToken verify tokens token p row
      table token_id secret none s e h = cc
      table token_id secret (some rows) s e h =
          found token_id secret rows (find_first (is_live token_id) rows) s e refl h

      parts :
          (o : Option (String × String))
          → split_token token ≡ o
          → on_parts verify tokens o ≡ some p
          → (row : TokenRow) × IsRowToken verify tokens token p row
      parts none e h = cc
      parts (some (token_id, secret)) e h = table token_id secret tokens e refl h

pools_if : Option Principal → Option (List String)
pools_if none = none
pools_if (some p) = some p.allowed_pools

assembled-pools :
    (token_id : String) (row : TokenRow) (pools profiles capabilities : Option (List String))
    (p : Principal)
    → assembled token_id row pools profiles capabilities ≡ some p
    → pools ≡ some p.allowed_pools
unfolding pools_if
assembled-pools token_id row none b c p h = cc
assembled-pools token_id row (some a) none c p h = cc
assembled-pools token_id row (some a) (some b) none p h = cc
assembled-pools token_id row (some a) (some b) (some c) p h = ap pools_if h

list_or-names_pool :
    (row : TokenRow) (pool : String) (column : Column) (ps : List String)
    → list_or (row.pool ∷ []) column ≡ some ps
    → (one_of "*" ps || one_of pool ps) ≡ true
    → names_pool pool (record row { allowed_pools = column }) ≡ true
list_or-names_pool row pool unset ps h a =
    let e : row.pool ∷ [] ≡ ps = cc in ground (arith, rw (sym e) at a)
list_or-names_pool row pool unreadable ps h a = cc
list_or-names_pool row pool (names n ns) ps h a = let e : n ∷ ns ≡ ps = cc in rw (sym e) at a

-- Whoever require_auth lets in and whose Principal allows a pool has the static token, or the token of
-- an unrevoked row whose hash its secret matches, and that row names the pool, or all, or has the pool
-- as its own where it lists none.
pub require_auth-allows_pool :
    (verify : (hash secret : String) → Verified) (static : String) (tokens : Option (List TokenRow))
    (audit_raises : Bool) (token pool : String) (p : Principal)
    → (require_auth verify static tokens audit_raises (some token)).0 ≡ granted p
    → allows_pool p pool ≡ true
    → ((not (str_eq static "") && str_eq token static) ≡ true)
      ⊎ ((row : TokenRow) × IsRowToken verify tokens token p row × (names_pool pool row ≡ true))
unfolding require_auth allows_pool principal_of
require_auth-allows_pool verify static tokens audit_raises token pool p h a =
    elim (Bool-cases (not (str_eq static "") && str_eq token static)) [
      | inl same ↦ inl same
      | inr other ↦ inr (of (check_db_token verify tokens token) refl (rw other at h))
    ]
  where
    of :
        (o : Option Principal)
        → check_db_token verify tokens token ≡ o
        → (answered verify audit_raises token o).0 ≡ granted p
        → (row : TokenRow) × IsRowToken verify tokens token p row × (names_pool pool row ≡ true)
    of none e h = cc
    of (some q) e h =
        let same : q ≡ p = cc in
        let (row, r) = check_db_token-IsRowToken verify tokens token p (e ∙ ap some same) in
        let pools = assembled-pools r.0 row _ _ _ p r.7 in
        (row, r, list_or-names_pool row pool row.allowed_pools p.allowed_pools pools a)
