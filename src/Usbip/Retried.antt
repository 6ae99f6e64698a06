-- ===== src/Usbip/Retried.antt =====
-- How many commands a `usbip attach` of src/hil_controller/adapters/usbip_bridge.py takes.
use sbc_mcu_dut_controller.Prelude.{
  ℕ, ◌+◌, ◌≤◌, Bool, true, false, List, [], ◌∷◌, ◌++◌, ◌≡◌, refl, arith, if◌then◌else◌, length,
  length-append,
}
use sbc_mcu_dut_controller.Usbip.Bridge.{
  Call, vhci_probe, usbip_attach, vhci_detach, ExecResult, Reply, answers, fails, cancelled, Result,
  got, raised, stopped, World, M, continue, ◌>>=◌, UsbipBridge, replied, exec, checked, run,
  clear_ports, clear_stale_vhci_ports, stale_of, run_usbip, attach,
}

-- The run adds at most `k` calls to the trace.
abbrev Adds : {A : Type 0} → ℕ → M A → Type 0
Adds k m = (t : List Call) → length (m t).1 ≤ length t + k

Adds-bind :
    {A B : Type 0} (k l n : ℕ) (m : M A) (f : A → M B)
    → k + l ≤ n
    → Adds k m
    → ((a : A) → Adds l (f a))
    → Adds n (m >>= f)
unfolding ◌>>=◌
Adds-bind {A} {B} k l n m f fits km kf t = of (m t).0 (km t)
  where
    of :
        (r : Result A)
        → length (m t).1 ≤ length t + k
        → length (continue r f (m t).1).1 ≤ length t + n
    of (got a) h = let h' = kf a (m t).1 in omega (arith, h, h', fits)
    of raised h = omega (arith, h, fits)
    of stopped h = omega (arith, h, fits)

Adds-if :
    {A : Type 0} (k : ℕ) (c : Bool) (m n : M A) → Adds k m → Adds k n → Adds k (if c then m else n)
Adds-if k true m n am an = am
Adds-if k false m n am an = an

Adds-none : {A : Type 0} (k : ℕ) (r : Result A) → Adds k (λ t. (r, t))
Adds-none k r t = omega arith

module _ (world : World) where
  Adds-exec : (c : Call) → Adds 1 (exec world c)
  unfolding exec
  Adds-exec c t = omega (arith, length-append t (c ∷ []))

  Adds-checked : (check : Bool) (r : ExecResult) → Adds 0 (checked world check r)
  Adds-checked check r = Adds-if 0 _ _ _ (Adds-none {A = ExecResult} 0 raised) (Adds-none 0 (got r))

  Adds-run : (c : Call) (check : Bool) → Adds 1 (run world c check)
  unfolding run
  Adds-run c check = Adds-bind 1 0 1 _ _ (omega arith) (Adds-exec c) (Adds-checked check)

  module _ (b : UsbipBridge) (stale : ℕ)
      (few : (k : ℕ) (probe : ExecResult)
        → world k vhci_probe ≡ answers probe
        → length (stale_of world b probe) ≤ stale) where
    Adds-clear_ports : (ps : List ℕ) → Adds (length ps) (clear_ports world b ps)
    unfolding clear_ports
    Adds-clear_ports [] = Adds-none {A = List ℕ} 0 (got [])
    Adds-clear_ports (p ∷ ps) =
        Adds-bind 1 (length ps) (length (p ∷ ps)) _ _ (omega arith) (Adds-run (vhci_detach p) false)
          λ r.
            Adds-bind (length ps) 0 (length ps) _ _ (omega arith) (Adds-clear_ports ps)
              (λ cleared t. omega arith)

    Adds-clear_stale : Adds (1 + stale) (clear_stale_vhci_ports world b)
    unfolding clear_stale_vhci_ports exec ◌>>=◌
    Adds-clear_stale t = of (world (length t) vhci_probe) refl
      where
        of :
            (r : Reply)
            → world (length t) vhci_probe ≡ r
            → length
                (continue
                  (replied r)
                  (λ probe. clear_ports world b (stale_of world b probe))
                  (t ++ vhci_probe ∷ [])).1
              ≤ length t + (1 + stale)
        of (answers probe) e =
            let h = Adds-clear_ports (stale_of world b probe) (t ++ vhci_probe ∷ []) in
            let n = few (length t) probe e in omega (arith, h, n, length-append t (vhci_probe ∷ []))
        of fails e = omega (arith, length-append t (vhci_probe ∷ []))
        of cancelled e = omega (arith, length-append t (vhci_probe ∷ []))

    Adds-run_usbip : (c : Call) (check : Bool) → Adds (3 + stale) (run_usbip world b c check)
    unfolding run_usbip
    Adds-run_usbip c check =
        Adds-bind 1 (2 + stale) (3 + stale) _ _ (omega arith) (Adds-run c false) λ first.
          Adds-bind (2 + stale) 0 (2 + stale) _ _ (omega arith)
            (Adds-if (2 + stale) _ _ _
              (Adds-bind (1 + stale) 1 (2 + stale) _ _ (omega arith) Adds-clear_stale
                λ cleared. Adds-if 1 _ _ _ (Adds-run c false) (Adds-none 1 (got first)))
              (Adds-none (2 + stale) (got first)))
            (Adds-checked check)

    -- A `usbip attach` runs at most three commands and one for each stale port: itself, the probe, the
    -- ports that the probe shows to clear, and itself once more. The bound on these ports is one for
    -- every answer to the probe.
    pub length-attach :
        (check : Bool) (t : List Call) → length (attach world b check t).1 ≤ length t + (3 + stale)
    unfolding attach
    length-attach check = Adds-run_usbip (usbip_attach b.server_addr b.busid) check
