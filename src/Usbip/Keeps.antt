-- ===== src/Usbip/Keeps.antt =====
-- What a use of a lent device keeps, from what each call of src/hil_controller/adapters/usbip_bridge.py keeps.
use sbc_mcu_dut_controller.Prelude.{
  String, Bool, true, false, Option, List, ◌≡◌, refl, if◌then◌else◌,
}
use sbc_mcu_dut_controller.Usbip.Parse.{diff_serial_ports}
use sbc_mcu_dut_controller.Usbip.Bridge.{
  Call, modprobe, list_serial, settle, usbip_bind, usbip_unbind, usbip_attach, usbip_detach,
  vhci_detach, ExecResult, Result, got, raised, stopped, World, M, continue, ◌>>=◌, ◌>>◌,
  best_effort, finally, UsbipBridge, exec, checked, run, ensure_vhci, bind, unbind,
  clear_stale_vhci_ports, run_usbip, attach, detach, list_serial_ports, teardown, prepared,
  attached,
}

-- The commands that free a port.
abbrev pub is_detach : Call → Bool
is_detach (vhci_detach p) = true
is_detach (usbip_detach p) = true
is_detach _ = false

-- A property of the trace that every call keeps but those that free a port, and the clearing of the
-- stale ports and the detach as a whole.
module _ (world : World) (b : UsbipBridge) (P : List Call → Type 0) where
  abbrev pub Keeps : {A : Type 0} → M A → Type 0
  Keeps m = (t : List Call) → P t → P (m t).1

  pub Keeps-bind :
      {A B : Type 0} (m : M A) (f : A → M B) → Keeps m → ((a : A) → Keeps (f a)) → Keeps (m >>= f)
  unfolding ◌>>=◌
  Keeps-bind {A} {B} m f km kf t p = of (m t).0 (km t p)
    where
      of : (r : Result A) → P (m t).1 → P (continue r f (m t).1).1
      of (got a) q = kf a (m t).1 q
      of raised q = q
      of stopped q = q

  Keeps-then : {A B : Type 0} (m : M A) (k : M B) → Keeps m → Keeps k → Keeps (m >> k)
  Keeps-then m k km kk = Keeps-bind m (λ _. k) km (λ _. kk)

  Keeps-if : {A : Type 0} (c : Bool) (m k : M A) → Keeps m → Keeps k → Keeps (if c then m else k)
  Keeps-if true m k km kk = km
  Keeps-if false m k km kk = kk

  Keeps-finally :
      {A : Type 0} (m : M A) (end : M Unit) → Keeps m → Keeps end → Keeps (finally m end)
  unfolding finally
  Keeps-finally m end km ke t p = ke (m t).1 (km t p)

  Keeps-best_effort : (m : M Unit) → Keeps m → Keeps (best_effort m)
  unfolding best_effort
  Keeps-best_effort m km t p = km t p

  pub Keeps-checked : (check : Bool) (r : ExecResult) → Keeps (checked world check r)
  Keeps-checked check r = Keeps-if _ _ _ (λ t p. p) (λ t p. p)

  module _ (await : (c : Call) → is_detach c ≡ false → Keeps (exec world c))
      (clears : Keeps (clear_stale_vhci_ports world b)) where
    pub Keeps-run : (c : Call) (check : Bool) → is_detach c ≡ false → Keeps (run world c check)
    unfolding run
    Keeps-run c check h = Keeps-bind _ _ (await c h) (Keeps-checked check)

    pub Keeps-run_usbip :
        (c : Call) (check : Bool) → is_detach c ≡ false → Keeps (run_usbip world b c check)
    unfolding run_usbip
    Keeps-run_usbip c check h = Keeps-bind _ _ (Keeps-run c false h) λ first.
        Keeps-bind _ _
          (Keeps-if _ _ _
            (Keeps-bind _ _ clears λ cleared. Keeps-if _ _ _ (Keeps-run c false h) (λ t p. p))
            (λ t p. p))
          (Keeps-checked check)

    Keeps-list_serial_ports : Keeps (list_serial_ports world b)
    unfolding list_serial_ports
    Keeps-list_serial_ports = Keeps-bind _ _ (await list_serial refl) (λ r t p. p)

    module _ (lets_go : Keeps (detach world b false)) where
      Keeps-teardown : Keeps (teardown world b)
      unfolding teardown unbind
      Keeps-teardown = Keeps-then _ _ (Keeps-best_effort _ lets_go) (
          Keeps-best_effort _ (
            Keeps-if _ _ _ (Keeps-then _ _ (Keeps-run (usbip_unbind b.busid) false refl) (λ t p. p))
              (λ t p. p)))

      pub Keeps-attached :
          {A : Type 0} (body : Option String → M A)
          → ((port : Option String) → Keeps (body port))
          → Keeps (attached world b body)
      unfolding attached prepared ensure_vhci bind attach
      Keeps-attached body kb =
          Keeps-bind _ _
            (Keeps-bind _ _ Keeps-list_serial_ports λ ports_before.
              Keeps-then _ _ (Keeps-then _ _ (Keeps-run modprobe true refl) (λ t p. p)) (
                Keeps-then _ _
                  (Keeps-if _ _ _
                    (Keeps-then _ _ (Keeps-run (usbip_bind b.busid) true refl) (λ t p. p))
                    (λ t p. p))
                  (λ t p. p)))
            λ ports_before.
              Keeps-finally _ _
                (Keeps-then _ _ (Keeps-run_usbip (usbip_attach b.server_addr b.busid) true refl) (
                  Keeps-then _ _
                    (Keeps-if _ _ _ (Keeps-then _ _ (await settle refl) (λ t p. p)) (λ t p. p))
                    (Keeps-bind _ _ Keeps-list_serial_ports
                      λ ports_after. kb (diff_serial_ports ports_before ports_after))))
                Keeps-teardown
