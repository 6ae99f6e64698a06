-- ===== src/Auth/Tests.antt =====
-- A table with a live and a revoked token, and a hash that is the secret behind a '#'.
use sbc_mcu_dut_controller.Prelude.{
  String, true, false, not, ◌&&◌, none, some, List, [], ◌∷◌, ◌≡◌, ◌⊎◌, refl, if◌then◌else◌, str_eq,
  ◌<>◌,
}
use sbc_mcu_dut_controller.Store.{at}
use sbc_mcu_dut_controller.Auth.{
  Principal, allows_pool, unset, names, TokenRow, Verified, matches, mismatch, principal_of,
  split_token, check_db_token, granted, invalid_token, require_auth,
}
use sbc_mcu_dut_controller.Auth.Access.{IsRowToken, names_pool, require_auth-allows_pool}
use sbc_mcu_dut_controller.Auth.Minted.{minted, require_auth-minted}

abbrev verify : (hash secret : String) → Verified
verify hash secret = if str_eq hash ("#" <> secret) then matches else mismatch

abbrev live : TokenRow
live = record {
  id = "a1";
  repo = "org/fw";
  pool = "bench";
  hash = "#s_t";
  revoked_at = none;
  allowed_pools = unset;
  allowed_profiles = names "ci" [];
  default_profile = "";
  capabilities = unset;
}

abbrev revoked : TokenRow
revoked = record live { id = "b2"; revoked_at = some (at 5) }

abbrev rows : List TokenRow
rows = revoked ∷ live ∷ []

abbrev identity : Principal
identity = record {
  kind = "db-token";
  subject = "a1";
  repo = "org/fw";
  allowed_pools = "bench" ∷ [];
  allowed_profiles = "ci" ∷ [];
  default_profile = "bench-protomq";
  capabilities = [];
}

revoked_token :
    require_auth verify "" (some rows) false (some (minted "b2" "s_t"))
    ≡ (invalid_token, "hil_..." ∷ [])
unfolding require_auth check_db_token split_token
revoked_token = refl

typed_wrong :
    require_auth verify "static-secret-0001" (some rows) false (some "static-secret-0002")
    ≡ (invalid_token, "static-secre..." ∷ [])
unfolding require_auth check_db_token split_token
typed_wrong = refl

database_down : (require_auth verify "" none false (some (minted "a1" "s_t"))).0 ≡ invalid_token
unfolding require_auth check_db_token split_token
database_down = refl

own_row : principal_of "a1" live ≡ some identity
unfolding principal_of
own_row = refl

minted_example :
    require_auth verify "static" (some rows) false (some "hil_a1_s_t") ≡ (granted identity, [])
minted_example =
    require_auth-minted verify "static" rows false "a1" "s_t" live identity refl refl refl refl
      own_row

let_in : (require_auth verify "static" (some rows) false (some "hil_a1_s_t")).0 ≡ granted identity
unfolding require_auth check_db_token split_token principal_of
let_in = refl

bench_allowed : allows_pool identity "bench" ≡ true
unfolding allows_pool
bench_allowed = refl

pool_example :
    ((not (str_eq "static" "") && str_eq "hil_a1_s_t" "static") ≡ true)
    ⊎ ((row : TokenRow) × IsRowToken verify (some rows) "hil_a1_s_t" identity row
        × (names_pool "bench" row ≡ true))
pool_example =
    require_auth-allows_pool verify "static" (some rows) false "hil_a1_s_t" "bench" identity let_in
      bench_allowed
