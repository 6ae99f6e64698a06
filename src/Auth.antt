-- ===== src/Auth.antt =====
-- src/hil_controller/auth: tokens.py and principal.py. argon2's `verify` is a parameter, and so is the
-- table of tokens, or that its query raises. A JSON column is read into what `json.loads` makes of it; a
-- document that is no list of texts is left out.
pub mod Access
pub mod Minted
pub mod Tests
use Prim.Native.Char.{code}
use sbc_mcu_dut_controller.Prelude.{
  ℕ, String, Bool, true, false, not, ◌&&◌, ◌||◌, Option, none, some, List, [], ◌∷◌, ◌++◌,
  if◌then◌else◌, ltb, ◌==◌, str_eq, one_of, is_null, find_first, length, codes, ◌<>◌,
}
use sbc_mcu_dut_controller.Store.{Stamp}

pub record Principal : Type 0 where
  pub kind : String
  pub subject : String
  pub repo : String
  pub allowed_pools : List String
  pub allowed_profiles : List String
  pub default_profile : String
  pub capabilities : List String

unfoldable pub allows_pool : Principal → String → Bool
allows_pool p pool = one_of "*" p.allowed_pools || one_of pool p.allowed_pools

unfoldable pub allows_profile : Principal → String → Bool
allows_profile p profile = one_of "*" p.allowed_profiles || one_of profile p.allowed_profiles

unfoldable pub has_capability : Principal → String → Bool
has_capability p cap = one_of "*" p.capabilities || one_of cap p.capabilities

abbrev pub superuser : Principal
superuser = record {
  kind = "static";
  subject = "static";
  repo = "";
  allowed_pools = "*" ∷ [];
  allowed_profiles = "*" ∷ [];
  default_profile = "bench-protomq";
  capabilities = "*" ∷ [];
}

-- A column that is empty or '[]', that does not parse, or that holds a list of texts.
pub data Column : Type 0 where
  unset unreadable : Column
  names : String → List String → Column

pub record TokenRow : Type 0 where
  pub id : String
  pub repo : String
  pub pool : String
  pub hash : String
  pub revoked_at : Option Stamp
  pub allowed_pools : Column
  pub allowed_profiles : Column
  pub default_profile : String
  pub capabilities : Column

pub data Verified : Type 0 where
  matches mismatch : Verified
  -- another exception of argon2
  failed : Verified

-- The text before and behind the first '_'.
abbrev pub cut : String → Option (String × String)
cut String.[] = none
cut (String.◌∷◌ c s) =
    let rest : Option (String × String) = cut s in
    if code c == 95
    then some ("", s)
    else elim rest [ none ↦ none | some (a, b) ↦ some (String.◌∷◌ c a, b) ]

-- `token.split("_", 2)`, where it has the three parts of a token: its id and its secret.
unfoldable pub split_token : String → Option (String × String)
split_token token = elim (cut token) [
  | none ↦ none
  | some (first, rest) ↦ elim (cut rest) [
    | none ↦ none
    | some (token_id, secret) ↦ if str_eq first "hil" then some (token_id, secret) else none
  ]
]

-- `json.loads(column or "[]")`, and the value where the list is empty; none where it raises.
abbrev pub list_or : List String → Column → Option (List String)
list_or default unset = some default
list_or default unreadable = none
list_or default (names n ns) = some (n ∷ ns)

abbrev pub default_profile_of : TokenRow → String
default_profile_of row =
    if str_eq row.default_profile "" then "bench-protomq" else row.default_profile

-- The Principal of the three lists, unless one of them raises.
abbrev pub assembled :
    (token_id : String)
    → TokenRow
    → (pools profiles capabilities : Option (List String)) → Option Principal
assembled token_id row (some pools) (some profiles) (some capabilities) = some record {
  kind = "db-token";
  subject = token_id;
  repo = row.repo;
  allowed_pools = pools;
  allowed_profiles = profiles;
  default_profile = default_profile_of row;
  capabilities = capabilities;
}
assembled token_id row _ _ _ = none

unfoldable pub principal_of : (token_id : String) → TokenRow → Option Principal
principal_of token_id row =
    assembled token_id row (list_or (row.pool ∷ []) row.allowed_pools)
      (list_or (default_profile_of row ∷ []) row.allowed_profiles) (list_or [] row.capabilities)

-- WHERE id = ? AND revoked_at IS NULL
abbrev pub is_live : String → TokenRow → Bool
is_live token_id row = str_eq row.id token_id && is_null row.revoked_at

pub data Reply : Type 0 where
  granted : Principal → Reply
  -- 401
  missing_token invalid_token : Reply

abbrev pub prefix_of : ℕ → String → String
prefix_of ℕ.zero s = ""
prefix_of (ℕ.suc n) String.[] = ""
prefix_of (ℕ.suc n) (String.◌∷◌ c s) = String.◌∷◌ c (prefix_of n s)

abbrev pub hint : String → String
hint token =
    if ltb 12 (length (codes token))
    then prefix_of 12 token <> "..."
    else prefix_of 4 token <> "..."

module _ (verify : (hash secret : String) → Verified) where
  abbrev pub accepted : (token_id : String) → TokenRow → Verified → Option Principal
  accepted token_id row matches = principal_of token_id row
  accepted token_id row mismatch = none
  accepted token_id row failed = none

  abbrev pub on_row : (token_id secret : String) → Option TokenRow → Option Principal
  on_row token_id secret none = none
  on_row token_id secret (some row) = accepted token_id row (verify row.hash secret)

  abbrev pub on_table : (token_id secret : String) → Option (List TokenRow) → Option Principal
  on_table token_id secret none = none
  on_table token_id secret (some rows) = on_row token_id secret (find_first (is_live token_id) rows)

  abbrev pub on_parts : Option (List TokenRow) → Option (String × String) → Option Principal
  on_parts tokens none = none
  on_parts tokens (some (token_id, secret)) = on_table token_id secret tokens

  unfoldable pub check_db_token : Option (List TokenRow) → (token : String) → Option Principal
  unfolding split_token principal_of
  check_db_token tokens token = on_parts tokens (split_token token)

  abbrev pub answered :
      (audit_raises : Bool) (token : String) → Option Principal → Reply × List String
  answered audit_raises token (some p) = (granted p, [])
  answered audit_raises token none = (invalid_token, if audit_raises then [] else hint token ∷ [])

  -- The reply, and the hints of the auth.fail events that are written; an exception of the write is
  -- swallowed.
  unfoldable pub require_auth :
      (static : String)
      → Option (List TokenRow)
      → (audit_raises : Bool) → (credentials : Option String) → Reply × List String
  unfolding check_db_token
  require_auth static tokens audit_raises none = (missing_token, [])
  require_auth static tokens audit_raises (some token) =
      if not (str_eq static "") && str_eq token static
      then (granted superuser, [])
      else answered audit_raises token (check_db_token tokens token)
