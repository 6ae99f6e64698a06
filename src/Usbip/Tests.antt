-- ===== src/Usbip/Tests.antt =====
-- A bridge that rebooted: the client's port 0 is left in use, port 1 is another job's.
use mathlib.Core.Path.{subst}
use sbc_mcu_dut_controller.Prelude.{
  ℕ, ◌+◌, ◌≤◌, String, true, false, Option, some, [], ◌∷◌, ◌≡◌, refl, ◌⊎◌, if◌then◌else◌, ltb,
  length, arith, All, ◌&&◌, ◌==◌,
}
use sbc_mcu_dut_controller.Bisect.Version.{number, digit_run, literal}
use sbc_mcu_dut_controller.Usbip.Parse.{
  VhciPort, to_int, status_row, record_row, probe_lines, parse_vhci_probe, is_stale,
  stale_vhci_ports, port_header, find_port_line, parse_usbip_port, diff_serial_ports,
}
use sbc_mcu_dut_controller.Usbip.Bridge.{
  modprobe, vhci_probe, usbip_port, list_serial, settle, usbip_bind, usbip_unbind, usbip_attach,
  usbip_detach, vhci_detach, ExecResult, Reply, answers, cancelled, got, stopped, World, M, pure,
  ◌>>=◌, best_effort, finally, UsbipBridge, argv, exec, run, ensure_vhci, bind, unbind, clear_ports,
  clear_stale_vhci_ports, stale_of, run_usbip, attach, is_attached, detach, list_serial_ports,
  teardown, borrowed, prepared, attached, ensure_attached,
}
use sbc_mcu_dut_controller.Usbip.Spared.{IsForeign, IsUnlisted, names, IsSpared, attached-IsSpared}
use sbc_mcu_dut_controller.Usbip.Unbound.{EndsWith, attached-EndsWith}
use sbc_mcu_dut_controller.Usbip.Retried.{length-attach}

abbrev board : UsbipBridge
board = record {
  server_addr = "10.0.0.5";
  busid = "1-1";
  sudo = true;
  settles = true;
  bind_required = true;
}

abbrev out : String → ExecResult
out s = record { exit_status = 0; stdout = s; stderr = "" }

abbrev driver_error : ExecResult
driver_error = record { exit_status = 1; stdout = ""; stderr = "libusbip: error: open vhci_driver" }

abbrev probe_text : String
probe_text =
    "hs  0000 006 002 00010078 000003 3-1\nhs  0001 006 002 00010079 000004 3-2\n--records--\n0 10.0.0.5 3240 1-1\n1 10.0.0.9 3240 1-4\n--devices--\n3-2\nusb3\n"

abbrev listing : String
listing = "Port 00: <Port in Use>\n 3-1 -> usbip://10.0.0.5:3240/1-1\n"

abbrev world : World
world n vhci_probe = answers (out probe_text)
world n (usbip_attach server_addr busid) = answers (if ltb n 5 then driver_error else out "")
world n usbip_port = answers (out listing)
world n list_serial =
    answers (out (if ltb n 3 then "/dev/ttyUSB0\n" else "/dev/ttyUSB0\n/dev/ttyACM0\n"))
world n c = answers (out "")

abbrev borrow : Option String → M (Option String)
borrow port = pure port

stale_ports : stale_of world board (out probe_text) ≡ 0 ∷ []
unfolding parse_vhci_probe stale_vhci_ports is_stale probe_lines status_row record_row to_int number
    digit_run
stale_ports = refl

use_trace : attached world board borrow [] ≡ (
  got (some "/dev/ttyACM0"),
  list_serial
      ∷ modprobe
      ∷ usbip_bind "1-1"
      ∷ usbip_attach "10.0.0.5" "1-1"
      ∷ vhci_probe
      ∷ vhci_detach 0
      ∷ usbip_attach "10.0.0.5" "1-1"
      ∷ settle
      ∷ list_serial
      ∷ usbip_port
      ∷ usbip_detach 0
      ∷ usbip_unbind "1-1"
      ∷ [],
)
unfolding attached prepared finally best_effort teardown attach detach unbind bind ensure_vhci
    list_serial_ports run_usbip clear_stale_vhci_ports clear_ports run exec ◌>>=◌ parse_vhci_probe
    stale_vhci_ports is_stale probe_lines status_row record_row to_int number digit_run
    parse_usbip_port find_port_line port_header literal diff_serial_ports
use_trace = refl

detach_argv : argv board (usbip_detach 3) ≡ "sudo" ∷ "usbip" ∷ "detach" ∷ "-p" ∷ "03" ∷ []
detach_argv = refl

-- The block of the busid 1-1.4 is taken for that of 1-1.
longer_busid :
    parse_usbip_port "Port 02: <Port in Use>\n 3-1 -> usbip://10.0.0.9:3240/1-1.4\n" "1-1" ≡ some 2
unfolding parse_usbip_port find_port_line port_header literal number digit_run
longer_busid = refl

-- A cancellation that arrives in the detach leaves the busid bound.
left_bound :
    teardown
      (λ n c. elim c as (λ _. Reply) [ usbip_port ↦ cancelled | _ ↦ answers (out "") ])
      board
      []
    ≡ (stopped, usbip_port ∷ [])
unfolding teardown best_effort detach run_usbip run exec ◌>>=◌
left_bound = refl

keeper_attaches :
    ensure_attached world
      (record board { busid = "1-2" })
      false
      4
      (settle ∷ settle ∷ settle ∷ settle ∷ [])
    ≡ (
      got (true, 5),
      settle ∷ settle ∷ settle ∷ settle ∷ usbip_port ∷ usbip_attach "10.0.0.5" "1-2" ∷ [],
    )
unfolding ensure_attached is_attached attach run_usbip run exec ◌>>=◌ parse_usbip_port
    find_port_line port_header literal number digit_run
keeper_attaches = refl

probed : (k : ℕ) (probe : ExecResult) → world k vhci_probe ≡ answers probe → out probe_text ≡ probe
probed k probe e = cc

foreign : IsForeign world board 1
unfolding parse_vhci_probe stale_vhci_ports is_stale probe_lines status_row record_row to_int number
    digit_run
foreign k probe e =
    subst
      (λ (r : ExecResult).
        All
          (λ (p : VhciPort).
            (p.port == 1 && is_stale (parse_vhci_probe r.stdout).1 "10.0.0.5" "1-1" p) ≡ false)
          (parse_vhci_probe r.stdout).0)
      (probed k probe e) (refl, (refl, tt))

listed : (k : ℕ) (r : ExecResult) → world k usbip_port ≡ answers r → out listing ≡ r
listed k r e = cc

unlisted : IsUnlisted world board 1
unfolding parse_usbip_port find_port_line port_header literal number digit_run
unlisted k r e =
    subst (λ (r : ExecResult). names 1 (parse_usbip_port r.stdout "1-1") ≡ false) (listed k r e)
      refl

one_stale :
    (k : ℕ) (probe : ExecResult)
    → world k vhci_probe ≡ answers probe
    → length (stale_of world board probe) ≤ 1
one_stale k probe e =
    subst (λ (r : ExecResult). length (stale_of world board r) ≤ 1) (probed k probe e)
      (rw stale_ports (omega arith))

ready : (prepared world board []).0 ≡ got ("/dev/ttyUSB0" ∷ [])
unfolding prepared bind ensure_vhci list_serial_ports run exec ◌>>=◌
ready = refl

kept_port_example : IsSpared 1 (attached world board borrow []).1
kept_port_example = attached-IsSpared world board 1 borrow foreign unlisted (λ port t p. p) [] tt

unbound_example :
    EndsWith (usbip_unbind "1-1") (attached world board borrow []).1
    ⊎ ((detach world board false
          (borrowed world board borrow ("/dev/ttyUSB0" ∷ []) (prepared world board []).1).1).0
        ≡ stopped)
unbound_example = attached-EndsWith world board borrow [] ("/dev/ttyUSB0" ∷ []) refl ready

attach_example : length (attach world board true (settle ∷ [])).1 ≤ length (settle ∷ []) + (3 + 1)
attach_example = length-attach world board 1 one_stale true (settle ∷ [])
