-- ===== src/Usbip/Bridge.antt =====
-- `UsbipBridge` and `UsbipAttachKeeper` of src/hil_controller/adapters/usbip_bridge.py. An awaited call is
-- an entry of the trace; the World says how the n-th one ends: with a result, by an Exception, or by the
-- cancellation that arrives there.
use sbc_mcu_dut_controller.Prelude.{
  ℕ, suc, String, Bool, true, false, not, ◌&&◌, Option, none, some, List, [], ◌∷◌, ◌++◌, map,
  if◌then◌else◌, ◌==◌, length, is_empty, strip, select, ltb, str_of, ◌<>◌,
}
use sbc_mcu_dut_controller.Usbip.Parse.{
  contains, splitlines, parse_vhci_probe, stale_vhci_ports, parse_usbip_port, diff_serial_ports,
}

pub data Call : Type 0 where
  modprobe vhci_probe usbip_port list_serial settle : Call
  usbip_bind usbip_unbind : (busid : String) → Call
  usbip_attach : (server_addr busid : String) → Call
  usbip_detach vhci_detach : (port : ℕ) → Call
  -- `present()` of the keeper
  is_present : Call

pub record ExecResult : Type 0 where
  pub exit_status : ℕ
  pub stdout : String
  pub stderr : String

pub data Reply : Type 0 where
  answers : ExecResult → Reply
  fails cancelled : Reply

pub data Result (A : Type 0) : Type 0 where
  got : A → Result A
  -- an Exception, CancelledError
  raised stopped : Result A

abbrev pub World : Type 0
World = ℕ → Call → Reply

abbrev pub M : Type 0 → Type 0
M A = List Call → Result A × List Call

abbrev pub pure : {A : Type 0} → A → M A
pure a t = (got a, t)

abbrev pub fail : {A : Type 0} → M A
fail t = (raised, t)

abbrev pub continue : {A B : Type 0} → Result A → (A → M B) → M B
continue (got a) f t = f a t
continue raised f t = (raised, t)
continue stopped f t = (stopped, t)

infixl 5 ◌>>=◌ ◌>>◌
unfoldable pub ◌>>=◌ : {A B : Type 0} → M A → (A → M B) → M B
◌>>=◌ m f t = let (r, t') = m t in continue r f t'

abbrev pub ◌>>◌ : {A B : Type 0} → M A → M B → M B
m >> k = m >>= λ _. k

-- `except Exception`
abbrev pub caught : Result Unit → Result Unit
caught raised = got tt
caught r = r

unfoldable pub best_effort : M Unit → M Unit
best_effort m t = let (r, t') = m t in (caught r, t')

abbrev pub finished : {A : Type 0} → Result Unit → Result A → Result A
finished (got _) r = r
finished raised r = raised
finished stopped r = stopped

-- `try: … finally: …`
unfoldable pub finally : {A : Type 0} → M A → M Unit → M A
finally m end t = let (r, t') = m t in let (e, t'') = end t' in (finished e r, t'')

pub record UsbipBridge : Type 0 where
  pub server_addr : String
  pub busid : String
  pub sudo : Bool
  -- `settle_s` is not zero.
  pub settles : Bool
  pub bind_required : Bool

-- The arguments of the command; a `present()` and a sleep have none.
module _ (b : UsbipBridge) where
  abbrev with_sudo : List String → List String
  with_sudo args = if b.sudo then "sudo" ∷ args else args

  abbrev pub argv : Call → List String
  argv modprobe = with_sudo ("modprobe" ∷ "vhci-hcd" ∷ [])
  argv (usbip_bind busid) = with_sudo ("usbip" ∷ "bind" ∷ "-b" ∷ busid ∷ [])
  argv (usbip_unbind busid) = with_sudo ("usbip" ∷ "unbind" ∷ "-b" ∷ busid ∷ [])
  argv (usbip_attach server_addr busid) =
      with_sudo ("usbip" ∷ "attach" ∷ "-r" ∷ server_addr ∷ "-b" ∷ busid ∷ [])
  argv usbip_port = with_sudo ("usbip" ∷ "port" ∷ [])
  argv (usbip_detach port) =
      with_sudo
        ("usbip" ∷ "detach" ∷ "-p" ∷ (if ltb port 10 then "0" <> str_of port else str_of port) ∷ [])
  argv (vhci_detach port) = with_sudo (
      "sh" ∷ "-c" ∷ ("echo " <> (str_of port <> " > /sys/devices/platform/vhci_hcd.0/detach")) ∷ [])
  argv _ = []

abbrev pub replied : Reply → Result ExecResult
replied (answers r) = got r
replied fails = raised
replied cancelled = stopped

abbrev pub is_ok : ExecResult → Bool
is_ok r = r.exit_status == 0

abbrev pub is_vhci_driver_error : ExecResult → Bool
is_vhci_driver_error r = contains r.stderr "open vhci_driver"

abbrev nonempty : List ℕ → Bool
nonempty [] = false
nonempty (p ∷ ps) = true

abbrev serial_lines : String → List String
serial_lines out = select (λ l. not (is_empty l)) (map strip (splitlines out))

module _ (world : World) where
  unfoldable pub exec : Call → M ExecResult
  exec c t = (replied (world (length t) c), t ++ c ∷ [])

  -- `_run` with `check=True`
  abbrev pub checked : (check : Bool) → ExecResult → M ExecResult
  checked check r = if check && not (is_ok r) then fail else pure r

  unfoldable pub run : Call → (check : Bool) → M ExecResult
  unfolding exec
  run c check = exec c >>= checked check

  module _ (b : UsbipBridge) where
    unfoldable pub ensure_vhci : M Unit
    unfolding run
    ensure_vhci = run modprobe true >> pure tt

    unfoldable pub bind : M Unit
    unfolding run
    bind = if b.bind_required then run (usbip_bind b.busid) true >> pure tt else pure tt

    unfoldable pub unbind : M Unit
    unfolding run
    unbind = if b.bind_required then run (usbip_unbind b.busid) false >> pure tt else pure tt

    -- The loop over the stale ports, with those that are cleared.
    unfoldable pub clear_ports : List ℕ → M (List ℕ)
    unfolding run
    clear_ports [] = pure []
    clear_ports (p ∷ ps) = run (vhci_detach p) false >>= λ r.
        clear_ports ps >>= λ cleared. pure (if is_ok r then p ∷ cleared else cleared)

    abbrev pub stale_of : ExecResult → List ℕ
    stale_of probe =
        let (ports, devices) = parse_vhci_probe probe.stdout in
        stale_vhci_ports ports devices b.server_addr b.busid

    unfoldable pub clear_stale_vhci_ports : M (List ℕ)
    unfolding clear_ports
    clear_stale_vhci_ports = exec vhci_probe >>= λ probe. clear_ports (stale_of probe)

    -- Once more, where a stale port was cleared.
    abbrev pub retried : Call → ExecResult → M ExecResult
    retried c r =
        if not (is_ok r) && is_vhci_driver_error r
        then (clear_stale_vhci_ports >>= λ cleared.
            if nonempty cleared then run c false else pure r)
        else pure r

    unfoldable pub run_usbip : Call → (check : Bool) → M ExecResult
    unfolding clear_stale_vhci_ports
    run_usbip c check = run c false >>= λ first. retried c first >>= checked check

    unfoldable pub attach : (check : Bool) → M ExecResult
    unfolding run_usbip
    attach check = run_usbip (usbip_attach b.server_addr b.busid) check

    unfoldable pub is_attached : M Bool
    is_attached = run usbip_port false >>= λ r.
        pure (elim (parse_usbip_port r.stdout b.busid) [ none ↦ false | some n ↦ true ])

    abbrev pub detach_port : (check : Bool) → Option ℕ → M Unit
    detach_port check none = pure tt
    detach_port check (some n) = run (usbip_detach n) check >> pure tt

    unfoldable pub detach : (check : Bool) → M Unit
    unfolding run_usbip
    detach check =
        run_usbip usbip_port false >>= λ r. detach_port check (parse_usbip_port r.stdout b.busid)

    unfoldable pub list_serial_ports : M (List String)
    list_serial_ports = exec list_serial >>= λ r. pure (serial_lines r.stdout)

    abbrev pub settled : M Unit
    settled = if b.settles then exec settle >> pure tt else pure tt

    -- The teardown of `attached`.
    unfoldable pub teardown : M Unit
    unfolding detach unbind
    teardown = best_effort (detach false) >> best_effort unbind

    -- The steps of `attached` before its try block.
    unfoldable pub prepared : M (List String)
    unfolding list_serial_ports ensure_vhci bind
    prepared = list_serial_ports >>= λ ports_before. ensure_vhci >> (bind >> pure ports_before)

    -- `body` is what the caller does with the port, inside the `async with`.
    module _ {A : Type 0} (body : Option String → M A) where
      abbrev pub borrowed : (ports_before : List String) → M A
      borrowed ports_before =
          attach true
          >> (settled
              >> (list_serial_ports >>= λ ports_after.
                  body (diff_serial_ports ports_before ports_after)))

      unfoldable pub attached : M A
      unfolding prepared attach teardown
      attached = prepared >>= λ ports_before. finally (borrowed ports_before) teardown

    -- One poll of the keeper: whether the device is attached, and how often it was attached again.
    module _ (asks : Bool) where
      abbrev reattached : (count : ℕ) → ExecResult → Bool × ℕ
      reattached count r = if is_ok r then (true, suc count) else (false, count)

      abbrev pub ask_present : M Bool
      ask_present = if asks then (exec is_present >>= λ r. pure (is_ok r)) else pure true

      unfoldable pub ensure_attached : (reattach_count : ℕ) → M (Bool × ℕ)
      unfolding is_attached attach
      ensure_attached reattach_count = is_attached >>= λ listed.
          if listed
          then pure (true, reattach_count)
          else ask_present >>= λ present.
              if present
              then (attach false >>= λ r. pure (reattached reattach_count r))
              else pure (false, reattach_count)
