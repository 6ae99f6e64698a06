-- ===== src/Twins/Keeps.antt =====
-- A state of src/hil_controller/twins.py that every statement of a transaction keeps, and the chains of
-- statements that then keep it.
use sbc_mcu_dut_controller.Prelude.{
  ℕ, String, Bool, true, false, Option, none, some, List, [], ◌∷◌, ◌≡◌, refl, find_first,
}
use sbc_mcu_dut_controller.Auth.{Principal}
use sbc_mcu_dut_controller.Twins.Tables.{
  Observation, PhysicalTwin, Tables, Outcome, ok, raise, M, continue, ◌>>=◌, ◌>>◌, each, raise_if,
  unless,
}
use sbc_mcu_dut_controller.Twins.Ingest.{is_twin, found_or_404, require_twin, check_twin}
use sbc_mcu_dut_controller.Twins.Api.{settle, transaction, authorize}

module _ (P : Tables → Type 0) where
  abbrev pub Keeps : {A : Type 0} → M A → Type 0
  Keeps m = (t : Tables) → P t → P (m t).1

  pub Keeps-bind :
      {A B : Type 0} (m : M A) (f : A → M B) → Keeps m → ((a : A) → Keeps (f a)) → Keeps (m >>= f)
  unfolding ◌>>=◌
  Keeps-bind m f km kf t p = of (m t).0 (km t p)
    where
      of : (r : Outcome _) → P (m t).1 → P (continue r f (m t).1).1
      of (ok a) q = kf a (m t).1 q
      of (raise e) q = q

  pub Keeps-then : {B : Type 0} (m : M Unit) (k : M B) → Keeps m → Keeps k → Keeps (m >> k)
  Keeps-then m k km kk = Keeps-bind m (λ _. k) km (λ _. kk)

  pub Keeps-each :
      {A : Type 0} (f : A → M Unit) (xs : List A) → ((x : A) → Keeps (f x)) → Keeps (each f xs)
  Keeps-each f [] k = λ t p. p
  Keeps-each f (x ∷ xs) k = Keeps-then (f x) (each f xs) (k x) (Keeps-each f xs k)

  Keeps-found_or_404 : (o : Option PhysicalTwin) → Keeps (found_or_404 o)
  Keeps-found_or_404 none t p = p
  Keeps-found_or_404 (some row) t p = p

  pub Keeps-require_twin : (id : String) → Keeps (require_twin id)
  Keeps-require_twin id t p = Keeps-found_or_404 (find_first (is_twin id) t.twins) t p

  settle-holds : {A : Type 0} (t : Tables) (r : Outcome A × Tables) → P t → P r.1 → P (settle t r).1
  settle-holds t (ok a, t') p q = q
  settle-holds t (raise e, t') p q = p

  pub Keeps-transaction : {A : Type 0} (m : M A) → Keeps m → Keeps (transaction m)
  Keeps-transaction m k t p = settle-holds t (m t) p (k t p)

  pub raise_if-holds :
      {A : Type 0} (refused : Bool) (status : ℕ) (detail : String) (m : M A) (t : Tables)
      → P t
      → (refused ≡ false → P (m t).1)
      → P (raise_if refused status detail m t).1
  unfolding raise_if
  raise_if-holds true status detail m t p k = p
  raise_if-holds false status detail m t p k = k refl

  pub Keeps-raise_if :
      {A : Type 0} (refused : Bool) (status : ℕ) (detail : String) (m : M A)
      → Keeps m
      → Keeps (raise_if refused status detail m)
  unfolding raise_if
  Keeps-raise_if true status detail m k = λ t p. p
  Keeps-raise_if false status detail m k = k

  pub unless-holds :
      (done : Bool) (m : M Unit) (t : Tables)
      → P t
      → (done ≡ false → P (m t).1)
      → P (unless done m t).1
  unfolding unless
  unless-holds true m t p k = p
  unless-holds false m t p k = k refl

  pub Keeps-unless : (done : Bool) (m : M Unit) → Keeps m → Keeps (unless done m)
  unfolding unless
  Keeps-unless true m k = λ t p. p
  Keeps-unless false m k = k

  pub Keeps-authorize : (principal : Principal) (write : Bool) → Keeps (authorize principal write)
  unfolding authorize
  Keeps-authorize principal write = Keeps-raise_if _ _ _ _ (λ t p. p)

  pub Keeps-check_twin :
      (o : Observation) (twin_id : String) (row : PhysicalTwin) → Keeps (check_twin o twin_id row)
  Keeps-check_twin o twin_id row = Keeps-raise_if _ _ _ _ (Keeps-raise_if _ _ _ _ (λ t p. p))

-- From a state with P, a statement that does not raise leaves a state with Q of its result.
abbrev pub Gives : {A : Type 0} → (Tables → Type 0) → M A → (A → Tables → Type 0) → Type 0
Gives {A} P m Q = (t : Tables) → P t → (a : A) → (m t).0 ≡ ok a → Q a (m t).1

pub Gives-bind :
    {A B : Type 0} (P : Tables → Type 0) (Q : A → Tables → Type 0) (R : B → Tables → Type 0)
    (m : M A) (f : A → M B)
    → Gives P m Q
    → ((a : A) → Gives (Q a) (f a) R)
    → Gives P (m >>= f) R
unfolding ◌>>=◌
Gives-bind P Q R m f gm gf t p b h = of (m t).0 (gm t p) h
  where
    of :
        (r : Outcome _)
        → ((a : _) → r ≡ ok a → Q a (m t).1)
        → (continue r f (m t).1).0 ≡ ok b
        → R b (continue r f (m t).1).1
    of (ok a) q h = gf a (m t).1 (q a refl) b h
    of (raise e) q h = cc

pub Gives-then :
    {B : Type 0} (P : Tables → Type 0) (R : B → Tables → Type 0) (m : M Unit) (k : M B)
    → Keeps P m
    → Gives P k R
    → Gives P (m >> k) R
Gives-then P R m k km gk = Gives-bind P (λ _. P) R m (λ _. k) (λ t p _ _. km t p) (λ _. gk)
