-- ===== src/Auth/Minted.antt =====
-- The tokens that scripts/mint-token.py prints, read back by src/hil_controller/auth/tokens.py.
use Prim.Native.Char.{code}
use sbc_mcu_dut_controller.Prelude.{
  String, Bool, false, not, ◌&&◌, some, List, [], ◌≡◌, refl, ◌==◌, str_eq, find_first, any, codes,
  ◌<>◌, Bool-cases, inl, inr,
}
use sbc_mcu_dut_controller.Auth.{
  Principal, TokenRow, Verified, matches, cut, split_token, principal_of, is_live, granted,
  check_db_token, require_auth,
}

-- `f"hil_{token_id}_{secret}"`
abbrev pub minted : (token_id secret : String) → String
minted token_id secret = "hil_" <> (token_id <> ("_" <> secret))

-- The text has no '_'.
abbrev pub IsWord : String → Type 0
IsWord s = any (λ c. c == 95) (codes s) ≡ false

cut-append : (a b : String) → IsWord a → cut (a <> ("_" <> b)) ≡ some (a, b)
cut-append String.[] b h = refl
cut-append (String.◌∷◌ c a) b h = elim (Bool-cases (code c == 95)) [
  | inl bar ↦ cc (rw bar at h)
  | inr other ↦ let rest : IsWord a = rw other at h in rw (other, cut-append a b rest) refl
]

split_token-minted :
    (token_id secret : String)
    → IsWord token_id
    → split_token (minted token_id secret) ≡ some (token_id, secret)
unfolding split_token
split_token-minted token_id secret h = rw (split_token, cut-append token_id secret h) refl

-- A minted token, whose id has no '_' and whatever its secret, is let in as its row's Principal, where
-- its row is there and not revoked, the secret verifies and the row's columns can be read; no auth.fail
-- event is written. The token is not the static one.
pub require_auth-minted :
    (verify : (hash secret : String) → Verified) (static : String) (rows : List TokenRow)
    (audit_raises : Bool) (token_id secret : String) (row : TokenRow) (p : Principal)
    → IsWord token_id
    → (not (str_eq static "") && str_eq (minted token_id secret) static) ≡ false
    → find_first (is_live token_id) rows ≡ some row
    → verify row.hash secret ≡ matches
    → principal_of token_id row ≡ some p
    → require_auth verify static (some rows) audit_raises (some (minted token_id secret))
      ≡ (granted p, [])
unfolding require_auth check_db_token
require_auth-minted verify static rows audit_raises token_id secret row p w other live good q =
    rw (other, split_token-minted token_id secret w, live, good, q) refl
