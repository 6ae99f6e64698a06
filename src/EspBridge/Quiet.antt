-- ===== src/EspBridge/Quiet.antt =====
-- How many requests the observations of src/hil_controller/adapters/esp_usbip_bridge.py make.
use sbc_mcu_dut_controller.Prelude.{
  ℕ, zero, suc, ◌+◌, ◌*◌, ◌≤◌, String, Bool, true, false, List, [], ◌∷◌, ◌++◌, ◌≡◌, refl, sym, ap,
  ◌∙◌, arith, if_ind, any, length, length-append,
}
use mathlib.Core.List.{append_assoc, append-nil}
use sbc_mcu_dut_controller.EspBridge.Http.{Request, Server, request, device, device_present, hubs}
use sbc_mcu_dut_controller.EspBridge.Power.{listed, confirmed, observe, await_cycle_state}

-- The requests have been added to by at most `k`.
pub record Grown (k : ℕ) (t t' : List Request) : Type 0 where
  pub more : List Request
  pub is : t' ≡ t ++ more
  pub few : length more ≤ k

pub Grown-trans : {k l : ℕ} {a b c : List Request} → Grown k a b → Grown l b c → Grown (k + l) a c
Grown-trans {k} {l} {a} {b} {c} p q = record {
  more = p.more ++ q.more;
  is = q.is ∙ ap (λ t. t ++ q.more) p.is ∙ append_assoc a p.more q.more;
  few = omega (arith, p.few, q.few, length-append p.more q.more);
}

pub Grown-mono : {k l : ℕ} {a b : List Request} → k ≤ l → Grown k a b → Grown l a b
Grown-mono h g = record { more = g.more; is = g.is; few = omega (arith, g.few) }

pub Grown-one : (r : Request) (t : List Request) → Grown 1 t (t ++ r ∷ [])
Grown-one r t = record { more = r ∷ []; is = refl; few = omega arith }

pub Grown-none : (t : List Request) → Grown 0 t t
Grown-none t = record { more = []; is = sym (append-nil t); few = omega arith }

module _ (server : Server) (port : String) (force : Bool) where
  pub Grown-present : (t : List Request) → Grown 1 t (device_present server port t).1
  unfolding device_present device request
  Grown-present t = Grown-one (Request.device_request port) t

  Grown-confirmed :
      (b expected : Bool) (t : List Request)
      → Grown 1 t (confirmed server port force b expected t).1
  Grown-confirmed false expected t = Grown-mono (omega arith) (Grown-none t)
  Grown-confirmed true expected t = Grown-present t

  pub Grown-observe :
      (expected : Bool) (t : List Request) → Grown 2 t (observe server port force expected t).1
  unfolding observe hubs request
  Grown-observe expected t =
      Grown-trans (Grown-one Request.hubs_request t)
        (Grown-confirmed (listed expected port (hubs server t).0) expected (hubs server t).1)

  pub Grown-await :
      (expected : Bool) (polls : ℕ) (t : List Request)
      → Grown (2 + 2 * polls) t (await_cycle_state server port force expected polls t).1
  unfolding await_cycle_state
  Grown-await expected zero t = Grown-mono (omega arith) (Grown-observe expected t)
  Grown-await expected (suc polls) t =
      if_ind {A = Bool × List Request} (λ r. Grown (2 + 2 * suc polls) t r.1)
        ((observe server port force expected t).0)
        (λ _. Grown-mono (omega arith) (Grown-observe expected t))
        (λ _. Grown-mono (omega arith) (
          Grown-trans (Grown-observe expected t)
            (Grown-await expected polls (observe server port force expected t).1)))

any-append : (p : Request → Bool) (xs ys : List Request) → any p xs ≡ true → any p (xs ++ ys) ≡ true
any-append p [] ys h = cc
any-append p (x ∷ xs) ys h = ground (arith, any-append p xs ys)

-- What was requested stays requested.
pub any-Grown :
    {k : ℕ} {a b : List Request} (p : Request → Bool)
    → Grown k a b
    → any p a ≡ true
    → any p b ≡ true
any-Grown {k} {a} p g h = ap (any p) g.is ∙ any-append p a g.more h
