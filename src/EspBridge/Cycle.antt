-- ===== src/EspBridge/Cycle.antt =====
-- What a power cycle of src/hil_controller/adapters/esp_usbip_bridge.py does, whatever the bridge
-- answers.
use sbc_mcu_dut_controller.Prelude.{
  ℕ, ◌+◌, ◌*◌, ◌≤◌, String, Bool, true, false, List, [], ◌∷◌, ◌≡◌, refl, ap, arith, any, length,
  length-append,
}
use sbc_mcu_dut_controller.Prelude.Json.{Json}
use sbc_mcu_dut_controller.EspBridge.Http.{
  Request, Server, Result, got, raises, request, device_present, port_on, port_off, port_on_request,
}
use sbc_mcu_dut_controller.EspBridge.Power.{
  await_cycle_state, on, off, after_on, after_off, after_present, power_cycle,
}
use sbc_mcu_dut_controller.EspBridge.Quiet.{
  Grown, Grown-trans, Grown-mono, Grown-none, Grown-one, Grown-present, Grown-await, any-Grown,
}

abbrev pub is_on_request : Request → Bool
is_on_request (port_on_request port force) = true
is_on_request _ = false

module _ (server : Server) (port : String) (force : Bool) (off_polls on_polls : ℕ) where
  Grown-on : (t : List Request) → Grown 1 t (on server port force t).1
  unfolding on port_on request
  Grown-on t = Grown-one (port_on_request port force) t

  Grown-off : (t : List Request) → Grown 1 t (off server port force t).1
  unfolding off port_off request
  Grown-off t = Grown-one (Request.port_off_request port force) t

  Grown-after_on :
      (verified : Bool) (r : Result Json) (t : List Request)
      → Grown (2 + 2 * on_polls) t (after_on server port force off_polls on_polls verified r t).1
  Grown-after_on verified (raises e) t = Grown-mono (omega arith) (Grown-none t)
  Grown-after_on verified (got j) t = Grown-await server port force true on_polls t

  Grown-restored :
      (t : List Request)
      → let (verified, t') = await_cycle_state server port force false off_polls t in
        let (r, t'') = on server port force t' in
        Grown
          (5 + 2 * (off_polls + on_polls))
          t
          (after_on server port force off_polls on_polls verified r t'').1
  Grown-restored t =
      let t' : List Request = (await_cycle_state server port force false off_polls t).1 in
      Grown-mono (omega arith) (
        Grown-trans (Grown-await server port force false off_polls t) (
          Grown-trans (Grown-on t') (
            Grown-after_on (await_cycle_state server port force false off_polls t).0
              (on server port force t').0 (on server port force t').1)))

  Grown-after_off :
      (r : Result Json) (t : List Request)
      → Grown
          (5 + 2 * (off_polls + on_polls))
          t
          (after_off server port force off_polls on_polls r t).1
  Grown-after_off (raises e) t = Grown-mono (omega arith) (Grown-none t)
  Grown-after_off (got j) t = Grown-restored t

  Grown-after_present :
      (r : Result Bool) (t : List Request)
      → Grown
          (6 + 2 * (off_polls + on_polls))
          t
          (after_present server port force off_polls on_polls r t).1
  Grown-after_present (raises e) t = Grown-mono (omega arith) (Grown-none t)
  Grown-after_present (got b) t = Grown-mono (omega arith) (
      Grown-trans (Grown-off t)
        (Grown-after_off (off server port force t).0 (off server port force t).1))

  asked_on : (t : List Request) → any is_on_request (on server port force t).1 ≡ true
  unfolding on port_on request
  asked_on [] = refl
  asked_on (r ∷ t) = ground (arith, asked_on t)

  after_off-asks :
      (r : Result Json) (j : Json) (t : List Request)
      → r ≡ got j
      → any is_on_request (after_off server port force off_polls on_polls r t).1 ≡ true
  after_off-asks (raises e) j t h = cc
  after_off-asks (got i) j t h =
      let t' : List Request = (await_cycle_state server port force false off_polls t).1 in
      any-Grown is_on_request
        (Grown-after_on (await_cycle_state server port force false off_polls t).0
          (on server port force t').0 (on server port force t').1)
        (asked_on t')

-- A power cycle makes at most seven requests, besides two for each further observation that its two
-- deadlines admit.
length-power_cycle :
    (server : Server) (port : String) (force : Bool) (off_polls on_polls : ℕ) (t : List Request)
    → length (power_cycle server port force off_polls on_polls t).1
      ≤ length t + (7 + 2 * (off_polls + on_polls))
unfolding power_cycle
length-power_cycle server port force off_polls on_polls t =
    let g : Grown (7 + 2 * (off_polls + on_polls)) t
        (after_present server port force off_polls on_polls (device_present server port t).0
          (device_present server port t).1).1 =
      Grown-mono (omega arith) (
        Grown-trans (Grown-present server port force t) (
          Grown-after_present server port force off_polls on_polls (device_present server port t).0
            (device_present server port t).1)) in
    omega (arith, ap length g.is, length-append t g.more, g.few)

-- Once the bridge has accepted to switch the port off, a power cycle asks it to switch the port on,
-- whether or not it saw the device go.
power_cycle-asks_on :
    (server : Server) (port : String) (force : Bool) (off_polls on_polls : ℕ) (t : List Request)
    (was : Bool) (accepted : Json)
    → (device_present server port t).0 ≡ got was
    → (off server port force (device_present server port t).1).0 ≡ got accepted
    → any is_on_request (power_cycle server port force off_polls on_polls t).1 ≡ true
unfolding power_cycle
power_cycle-asks_on server port force off_polls on_polls t was accepted h k =
    of (device_present server port t).0 h
  where
    t' : List Request
    t' = (device_present server port t).1

    of :
        (r : Result Bool)
        → r ≡ got was
        → any is_on_request (after_present server port force off_polls on_polls r t').1 ≡ true
    of (raises e) h = cc
    of (got b) h =
        after_off-asks server port force off_polls on_polls (off server port force t').0 accepted
          (off server port force t').1 k
