-- ===== src/EspBridge/Evidence.antt =====
-- What a power cycle of src/hil_controller/adapters/esp_usbip_bridge.py has seen when it answers True.
use sbc_mcu_dut_controller.Prelude.{
  ℕ, zero, suc, ◌+◌, ◌≤◌, ◌<◌, String, Bool, true, false, not, ◌&&◌, List, [], ◌∷◌, ◌++◌, ◌≡◌, refl,
  sym, ap, ◌∙◌, arith, if◌then◌else◌, length, length-append, is_null,
}
use sbc_mcu_dut_controller.Prelude.Json.{Json, get_key, list_of}
use sbc_mcu_dut_controller.EspBridge.Http.{
  Request, Server, Result, got, raises, response, request, device, device_present, hubs, port_on,
  port_on_request, map_result, absent_on_404,
}
use sbc_mcu_dut_controller.EspBridge.Power.{
  listed, confirmed, observe, await_cycle_state, answers, on, off, after_on, after_off,
  after_present, power_cycle,
}
use sbc_mcu_dut_controller.EspBridge.Quiet.{Grown, Grown-observe}

module _ (server : Server) (port : String) (force : Bool) where
  -- The bridge's answers to the hub listing at place `i` and to the presence probe behind it: the
  -- port has the power that is expected, and the device is there or not as expected.
  abbrev pub is_seen : (expected : Bool) → ℕ → Bool
  is_seen expected i =
      listed expected port
        (map_result (λ j. list_of (get_key "hubs" j)) (response (server Request.hubs_request i)))
      && answers expected (
          map_result (λ d. not (is_null d))
            (absent_on_404 (response (server (Request.device_request port) (suc i)))))

  after_one : (r : Request) (t : List Request) → length (t ++ r ∷ []) ≡ suc (length t)
  after_one r t = omega (arith, length-append t (r ∷ []))

  record Sees (expected : Bool) (t t' : List Request) : Type 0 where
    at : ℕ
    seen : is_seen expected at ≡ true
    from : length t ≤ at
    until : at + 2 ≤ length t'

  confirmed-Sees :
      (b expected : Bool) (t : List Request)
      → listed expected port (
          map_result
            (λ j. list_of (get_key "hubs" j))
            (response (server Request.hubs_request (length t))))
        ≡ b
      → let t' : List Request = t ++ Request.hubs_request ∷ [] in
        (confirmed server port force b expected t').0 ≡ true
        → Sees expected t (confirmed server port force b expected t').1
  unfolding device_present device request
  confirmed-Sees false expected t e h = cc
  confirmed-Sees true expected t e h = record {
    at = length t;
    seen = rw e (
        ap
          (λ n. answers expected (
            map_result (λ d. not (is_null d))
              (absent_on_404 (response (server (Request.device_request port) n)))))
          (sym (after_one Request.hubs_request t))
        ∙ h);
    from = omega arith;
    until = omega (
      arith,
      after_one Request.hubs_request t,
      after_one (Request.device_request port) (t ++ Request.hubs_request ∷ []),
    );
  }

  observe-Sees :
      (expected : Bool) (t : List Request)
      → (observe server port force expected t).0 ≡ true
      → Sees expected t (observe server port force expected t).1
  unfolding observe hubs request
  observe-Sees expected t h =
      confirmed-Sees
        (listed expected port (
          map_result (λ j. list_of (get_key "hubs" j))
            (response (server Request.hubs_request (length t)))))
        expected t refl h

  Sees-later :
      {expected : Bool} {a b c : List Request}
      → length a ≤ length b
      → Sees expected b c
      → Sees expected a c
  Sees-later h s = record {
    at = s.at;
    seen = s.seen;
    from = omega (arith, s.from);
    until = s.until;
  }

  length-observe :
      (expected : Bool) (t : List Request)
      → length t ≤ length (observe server port force expected t).1
  length-observe expected t =
      let g : Grown 2 t (observe server port force expected t).1 =
        Grown-observe server port force expected t in
      omega (arith, ap length g.is, length-append t g.more)

  await-Sees :
      (expected : Bool) (polls : ℕ) (t : List Request)
      → (await_cycle_state server port force expected polls t).0 ≡ true
      → Sees expected t (await_cycle_state server port force expected polls t).1
  unfolding await_cycle_state
  await-Sees expected zero t h = observe-Sees expected t h
  await-Sees expected (suc polls) t h =
      of (observe server port force expected t).0 refl (await-Sees expected polls t') h
    where
      t' : List Request
      t' = (observe server port force expected t).1

      of :
          (b : Bool)
          → (observe server port force expected t).0 ≡ b
          → ((await_cycle_state server port force expected polls t').0 ≡ true
              → Sees expected t' (await_cycle_state server port force expected polls t').1)
          → (if b then (true, t') else await_cycle_state server port force expected polls t').0
            ≡ true
          → Sees expected t
              (if b then (true, t') else await_cycle_state server port force expected polls t').1
      of true e later k = observe-Sees expected t e
      of false e later k = Sees-later (length-observe expected t) (later k)

  -- The port off and the device away, then the port on and the device back.
  abbrev pub Evidence : Type 0
  Evidence = (i : ℕ) × (j : ℕ) × (i + 2 < j) × (is_seen false i ≡ true) × (is_seen true j ≡ true)

  module _ (off_polls on_polls : ℕ) where
    got_both :
        (a b : Bool) → ◌≡◌ {A = Result Bool} (got (a && b)) (got true) → (a ≡ true) × (b ≡ true)
    got_both true true h = (refl, refl)
    got_both true false h = cc
    got_both false b h = cc

    after_on-Sees :
        (verified : Bool) (r : Result Json) (t : List Request)
        → (after_on server port force off_polls on_polls verified r t).0 ≡ got true
        → (verified ≡ true)
          × Sees true t (after_on server port force off_polls on_polls verified r t).1
    after_on-Sees verified (raises e) t h = cc
    after_on-Sees verified (got j) t h =
        let p = got_both (await_cycle_state server port force true on_polls t).0 verified h in
        (p.1, await-Sees true on_polls t p.0)

    after_off-Evidence :
        (r : Result Json) (t : List Request)
        → (after_off server port force off_polls on_polls r t).0 ≡ got true
        → Evidence
    unfolding on port_on request
    after_off-Evidence (raises e) t h = cc
    after_off-Evidence (got a) t h =
        let t' : List Request = (await_cycle_state server port force false off_polls t).1 in
        let p =
          after_on-Sees (await_cycle_state server port force false off_polls t).0
            (on server port force t').0 (on server port force t').1 h in
        let first : Sees false t t' = await-Sees false off_polls t p.0 in
        let second = p.1 in
        (
          first.at,
          second.at,
          omega (arith, first.until, second.from, after_one (port_on_request port force) t'),
          first.seen,
          second.seen,
        )

-- A power cycle that answers True has seen, by the bridge's own answers, the port off and the device
-- away, and after that the port on and the device back: two hub listings in this order, each with the
-- presence probe behind it.
pub power_cycle-Evidence :
    (server : Server) (port : String) (force : Bool) (off_polls on_polls : ℕ) (t : List Request)
    → (power_cycle server port force off_polls on_polls t).0 ≡ got true
    → Evidence server port force
unfolding power_cycle
power_cycle-Evidence server port force off_polls on_polls t h =
    of (device_present server port t).0 h
  where
    t' : List Request
    t' = (device_present server port t).1

    of :
        (r : Result Bool)
        → (after_present server port force off_polls on_polls r t').0 ≡ got true
        → Evidence server port force
    of (raises e) h = cc
    of (got b) h =
        after_off-Evidence server port force off_polls on_polls (off server port force t').0
          (off server port force t').1 h
