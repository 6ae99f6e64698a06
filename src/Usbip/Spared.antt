-- ===== src/Usbip/Spared.antt =====
-- The vhci ports that src/hil_controller/adapters/usbip_bridge.py never clears.
use mathlib.Core.Path.{subst}
use sbc_mcu_dut_controller.Prelude.{
  ℕ, String, Bool, false, ◌&&◌, Option, List, [], ◌∷◌, ◌++◌, map, ◌≡◌, refl, arith, ◌==◌, length,
  All, All-append, if_ind, true, none, some, ap, ◌∙◌, if◌then◌else◌,
}
use sbc_mcu_dut_controller.Usbip.Parse.{
  VhciPort, parse_vhci_probe, is_stale, stale_vhci_ports, parse_usbip_port,
}
use sbc_mcu_dut_controller.Usbip.Bridge.{
  Call, modprobe, vhci_probe, usbip_port, list_serial, settle, usbip_bind, usbip_unbind,
  usbip_attach, usbip_detach, is_present, vhci_detach, ExecResult, Reply, answers, fails, cancelled,
  World, M, continue, ◌>>=◌, UsbipBridge, replied, exec, run, clear_ports, clear_stale_vhci_ports,
  stale_of, attached, Result, got, raised, stopped, run_usbip, detach, detach_port, pure,
}
use sbc_mcu_dut_controller.Usbip.Keeps.{
  is_detach, Keeps, Keeps-bind, Keeps-checked, Keeps-attached, Keeps-run_usbip,
}

abbrev answers_of : Result ExecResult → Reply
answers_of (got r) = answers r
answers_of raised = fails
answers_of stopped = cancelled

abbrev result_or : ExecResult → Result ExecResult → ExecResult
result_or d (got r) = r
result_or d raised = d
result_or d stopped = d

abbrev pub detaches : ℕ → Call → Bool
detaches n (vhci_detach p) = p == n
detaches n (usbip_detach p) = p == n
detaches n _ = false

-- No probe shows the port as one to clear: in each it is free, or its device is there and its record is
-- of another server or busid.
abbrev pub IsForeign : World → UsbipBridge → ℕ → Type 0
IsForeign world b n =
    (k : ℕ) (probe : ExecResult)
    → world k vhci_probe ≡ answers probe
    → All
        (λ (p : VhciPort).
          (p.port == n && is_stale (parse_vhci_probe probe.stdout).1 b.server_addr b.busid p)
          ≡ false)
        (parse_vhci_probe probe.stdout).0

abbrev pub names : ℕ → Option ℕ → Bool
names n none = false
names n (some p) = p == n

-- No listing of `usbip port` has a line with the busid in the block of the port.
abbrev pub IsUnlisted : World → UsbipBridge → ℕ → Type 0
IsUnlisted world b n =
    (k : ℕ) (r : ExecResult)
    → world k usbip_port ≡ answers r
    → names n (parse_usbip_port r.stdout b.busid) ≡ false

-- Neither the sysfs file was written with the port, nor `usbip detach` run for it.
abbrev pub IsSpared : ℕ → List Call → Type 0
IsSpared n t = All (λ c. detaches n c ≡ false) t

other-call : (n : ℕ) (c : Call) → is_detach c ≡ false → detaches n c ≡ false
other-call n (vhci_detach p) h = cc
other-call n modprobe h = refl
other-call n vhci_probe h = refl
other-call n usbip_port h = refl
other-call n list_serial h = refl
other-call n settle h = refl
other-call n is_present h = refl
other-call n (usbip_bind x) h = refl
other-call n (usbip_unbind x) h = refl
other-call n (usbip_attach s x) h = refl
other-call n (usbip_detach p) h = cc

not_stale :
    (n : ℕ) (devices : List String) (server_addr busid : String) (ports : List VhciPort)
    → All (λ (p : VhciPort). (p.port == n && is_stale devices server_addr busid p) ≡ false) ports
    → All (λ q. (q == n) ≡ false) (stale_vhci_ports ports devices server_addr busid)
unfolding stale_vhci_ports
not_stale n ds addr busid [] h = tt
not_stale n ds addr busid (p ∷ ps) h =
    if_ind (λ (l : List VhciPort). All (λ q. (q == n) ≡ false) (map (λ (p : VhciPort). p.port) l))
      (is_stale ds addr busid p)
      (λ stale. let k = h.0 in (ground arith, not_stale n ds addr busid ps h.1))
      (λ _. not_stale n ds addr busid ps h.1)

module _ (world : World) (b : UsbipBridge) (n : ℕ) where
  exec-IsSpared : (c : Call) → detaches n c ≡ false → Keeps world b (IsSpared n) (exec world c)
  unfolding exec
  exec-IsSpared c h t p = All-append (λ c. detaches n c ≡ false) t (c ∷ []) p (h, tt)

  clear_ports-IsSpared :
      (ps : List ℕ)
      → All (λ p. (p == n) ≡ false) ps
      → Keeps world b (IsSpared n) (clear_ports world b ps)
  unfolding clear_ports run
  clear_ports-IsSpared [] h = λ t p. p
  clear_ports-IsSpared (p ∷ ps) h =
      Keeps-bind world b (IsSpared n) _ _
        (Keeps-bind world b (IsSpared n) _ _ (exec-IsSpared (vhci_detach p) h.0)
          (Keeps-checked world b (IsSpared n) false))
        λ r. Keeps-bind world b (IsSpared n) _ _ (clear_ports-IsSpared ps h.1) (λ cleared t p. p)

  clears-IsSpared :
      IsForeign world b n → Keeps world b (IsSpared n) (clear_stale_vhci_ports world b)
  unfolding clear_stale_vhci_ports exec ◌>>=◌
  clears-IsSpared foreign t p = of (world (length t) vhci_probe) refl
    where
      probed : IsSpared n (t ++ vhci_probe ∷ [])
      probed = exec-IsSpared vhci_probe refl t p

      of :
          (r : Reply)
          → world (length t) vhci_probe ≡ r
          → IsSpared n
              (continue
                (replied r)
                (λ probe. clear_ports world b (stale_of world b probe))
                (t ++ vhci_probe ∷ [])).1
      of (answers probe) e =
          clear_ports-IsSpared (stale_of world b probe)
            (not_stale n (parse_vhci_probe probe.stdout).1 b.server_addr b.busid
              (parse_vhci_probe probe.stdout).0 (foreign (length t) probe e))
            (t ++ vhci_probe ∷ []) probed
      of fails e = probed
      of cancelled e = probed

  -- What a run that answers has answered.
  abbrev Gives : {A : Type 0} → (A → Type 0) → M A → Type 0
  Gives {A} Q m = (t : List Call) (a : A) → (m t).0 ≡ got a → Q a

  Gives-bind :
      {A B : Type 0} (Q : A → Type 0) (R : B → Type 0) (m : M A) (f : A → M B)
      → Gives Q m
      → ((a : A) → Q a → Gives R (f a))
      → Gives R (m >>= f)
  unfolding ◌>>=◌
  Gives-bind Q R m f gm gf t b = of (m t).0 (gm t)
    where
      of : (r : Result _) → ((a : _) → r ≡ got a → Q a) → (continue r f (m t).1).0 ≡ got b → R b
      of (got a) q h = gf a (q a refl) (m t).1 b h
      of raised q h = cc
      of stopped q h = cc

  -- The result is one that the world has answered to the call.
  abbrev IsAnswer : Call → ExecResult → Type 0
  IsAnswer c r = (k : ℕ) × (world k c ≡ answers r)

  exec-IsAnswer : (c : Call) → Gives (IsAnswer c) (exec world c)
  unfolding exec
  exec-IsAnswer c t r = of (world (length t) c) refl
    where
      of : (w : Reply) → world (length t) c ≡ w → replied w ≡ got r → IsAnswer c r
      of (answers q) e h = (length t, e ∙ ap answers_of h)
      of fails e h = cc
      of cancelled e h = cc

  pure-IsAnswer : (c : Call) (r : ExecResult) → IsAnswer c r → Gives (IsAnswer c) (pure r)
  pure-IsAnswer c r q t a h = subst (IsAnswer c) (ap (result_or r) h) q

  run-IsAnswer : (c : Call) → Gives (IsAnswer c) (run world c false)
  unfolding run
  run-IsAnswer c =
      Gives-bind (IsAnswer c) (IsAnswer c) _ _ (exec-IsAnswer c) (λ r q. pure-IsAnswer c r q)

  if-Gives :
      {A : Type 0} (Q : A → Type 0) (b : Bool) (m k : M A)
      → Gives Q m
      → Gives Q k
      → Gives Q (if b then m else k)
  if-Gives Q true m k gm gk = gm
  if-Gives Q false m k gm gk = gk

  run_usbip-IsAnswer : (c : Call) → Gives (IsAnswer c) (run_usbip world b c false)
  unfolding run_usbip
  run_usbip-IsAnswer c = Gives-bind (IsAnswer c) (IsAnswer c) _ _ (run-IsAnswer c) λ first q.
      Gives-bind (IsAnswer c) (IsAnswer c) _ _
        (if-Gives (IsAnswer c) _ _ _
          (Gives-bind (λ _. Unit) (IsAnswer c) _ _ (λ t a h. tt)
            λ cleared u. if-Gives (IsAnswer c) _ _ _ (run-IsAnswer c) (pure-IsAnswer c first q))
          (pure-IsAnswer c first q))
        (λ r k. pure-IsAnswer c r k)

  awaits-IsSpared : (c : Call) → is_detach c ≡ false → Keeps world b (IsSpared n) (exec world c)
  awaits-IsSpared c h = exec-IsSpared c (other-call n c h)

  detach_port-IsSpared :
      (port : Option ℕ)
      → names n port ≡ false
      → Keeps world b (IsSpared n) (detach_port world b false port)
  unfolding run
  detach_port-IsSpared none h = λ t p. p
  detach_port-IsSpared (some q) h =
      Keeps-bind world b (IsSpared n) _ _
        (Keeps-bind world b (IsSpared n) _ _ (exec-IsSpared (usbip_detach q) h)
          (Keeps-checked world b (IsSpared n) false))
        (λ r t p. p)

  detach-IsSpared :
      IsForeign world b n → IsUnlisted world b n → Keeps world b (IsSpared n) (detach world b false)
  unfolding detach ◌>>=◌
  detach-IsSpared foreign unlisted t p =
      of (run_usbip world b usbip_port false t).0 (λ r h. run_usbip-IsAnswer usbip_port t r h)
        (Keeps-run_usbip world b (IsSpared n) awaits-IsSpared (clears-IsSpared foreign) usbip_port
          false refl t p)
    where
      t' : List Call
      t' = (run_usbip world b usbip_port false t).1

      of :
          (r : Result ExecResult)
          → ((a : ExecResult) → r ≡ got a → IsAnswer usbip_port a)
          → IsSpared n t'
          → IsSpared n
              (continue r (λ a. detach_port world b false (parse_usbip_port a.stdout b.busid)) t').1
      of (got a) q k =
          let (m, e) = q a refl in
          detach_port-IsSpared (parse_usbip_port a.stdout b.busid) (unlisted m a e) t' k
      of raised q k = k
      of stopped q k = k

  -- Whatever the commands answer or raise, and wherever a cancellation arrives, a use of the device
  -- frees no port, by a write to the sysfs file or by `usbip detach`, that every probe shows free, or with
  -- its device there and a record of another server or busid, and for which no listing of `usbip port`
  -- has a line that contains the busid, provided that the body of the `async with` does not free it.
  pub attached-IsSpared :
      {A : Type 0} (body : Option String → M A)
      → IsForeign world b n
      → IsUnlisted world b n
      → ((port : Option String) → Keeps world b (IsSpared n) (body port))
      → (t : List Call) → IsSpared n t
      → IsSpared n (attached world b body t).1
  attached-IsSpared body foreign unlisted kb =
      Keeps-attached world b (IsSpared n) awaits-IsSpared (clears-IsSpared foreign)
        (detach-IsSpared foreign unlisted) body kb
