-- ===== src/HostRecovery/Shell.antt =====
-- src/hil_controller/host_recovery.py, the commands that it runs on a host: the presence probes and
-- the reboot. The transport answers the n-th command of a run, or raises, which stands for a timeout
-- and a lost connection too; a cancellation is left out. The number of matches of the dmesg pattern
-- in the answer's text is a part of the answer. A settle time is in whole seconds, one poll each, and
-- `poll_s` is not 0.
use sbc_mcu_dut_controller.Prelude.{
  ℕ, zero, suc, ◌/◌, String, Bool, true, false, Option, none, some, List, [], ◌∷◌, ◌++◌,
  if◌then◌else◌, leb, ◌==◌, truthy, or_else, length, codes, ◌<>◌,
}
use sbc_mcu_dut_controller.Store.{Device}

pub data Cmd : Type 0 where
  turn_on turn_off : ℕ → Cmd
  -- `test -e`
  test_node : String → Cmd
  -- `all_off.sh`, `all_on.sh`, `dmesg | tail`, `sudo reboot`, `true`
  all_off all_on dmesg_tail sudo_reboot ping : Cmd

pub data ExecReply : Type 0 where
  answered : (exit_status usb_errors : ℕ) → ExecReply
  raised : ExecReply

abbrev pub Transport : Type 0
Transport = Cmd → ℕ → ExecReply

-- `node.startswith("/")`
abbrev is_absolute : String → Bool
is_absolute node = elim (codes node) [ [] ↦ false | c ∷ _ ↦ c == 47 ]

unfoldable pub presence_node : Device → Option String
presence_node d = elim (or_else d.serial_port d.hub_port_path) [
  | none ↦ none
  | some n ↦
      if truthy (some n)
      then some (if is_absolute n then n else "/sys/bus/usb/devices/" <> n)
      else none
]

module _ (transport : Transport) where
  abbrev pub exec : Cmd → List Cmd → ExecReply × List Cmd
  exec c t = (transport c (length t), t ++ c ∷ [])

  -- `exit_status == 0`, and False for an exception
  abbrev pub succeeded : ExecReply → Bool
  succeeded (answered exit_status _) = exit_status == 0
  succeeded raised = false

  unfoldable pub node_present : String → List Cmd → Bool × List Cmd
  node_present node t = let (r, t') = exec (test_node node) t in (succeeded r, t')

  -- `for i in range(attempts)`
  unfoldable pub poll_node : ℕ → String → List Cmd → Bool × List Cmd
  unfolding node_present
  poll_node zero node t = (false, t)
  poll_node (suc attempts) node t =
      let (found, t') = node_present node t in
      if found then (true, t') else poll_node attempts node t'

  unfoldable pub await_node_present : (timeout_s : ℕ) → String → List Cmd → Bool × List Cmd
  unfolding poll_node
  await_node_present timeout_s node t = poll_node (if leb 1 timeout_s then timeout_s else 1) node t

  -- A dmesg that cannot be read counts as clean.
  unfoldable pub dmesg_usb_error_count : List Cmd → ℕ × List Cmd
  dmesg_usb_error_count t =
      let (r, t') = exec dmesg_tail t in
      (elim r [ answered _ usb_errors ↦ usb_errors | raised ↦ 0 ], t')

  -- The `try` block of `validate_presence_active`.
  unfoldable pub present_and_clean : (settle_s : ℕ) → String → List Cmd → Bool × List Cmd
  unfolding await_node_present dmesg_usb_error_count
  present_and_clean settle_s node t =
      let (found, t') = await_node_present settle_s node t in
      if found then (let (n, t'') = dmesg_usb_error_count t' in (n == 0, t'')) else (false, t')

  -- What follows the turn_on, by its reply.
  abbrev pub validated :
      ExecReply → (channel : ℕ) → (settle_s : ℕ) → String → List Cmd → Bool × List Cmd
  validated raised channel settle_s node t = (false, t)
  validated (answered _ _) channel settle_s node t =
      let (verdict, t') = present_and_clean settle_s node t in
      (verdict, (exec (turn_off channel) t').1)

  unfoldable pub validate_presence_active :
      (channel : ℕ) → (settle_s : ℕ) → String → List Cmd → Bool × List Cmd
  unfolding present_and_clean
  validate_presence_active channel settle_s node t =
      let (r, t') = exec (turn_on channel) t in validated r channel settle_s node t'

  -- The loop that waits for the host, `attempts` times.
  unfoldable pub wait_back : (attempts : ℕ) → List Cmd → Bool × List Cmd
  wait_back zero t = (false, t)
  wait_back (suc attempts) t =
      let (r, t') = exec ping t in if succeeded r then (true, t') else wait_back attempts t'

  -- `_await_node_present(…) if node else None`
  abbrev pub awaited : (settle_s : ℕ) → Option String → List Cmd → List Cmd
  awaited settle_s none t = t
  awaited settle_s (some node) t =
      if truthy (some node) then (await_node_present settle_s node t).1 else t

  -- One channel of the sequential bring-up, by the reply to its turn_on.
  abbrev pub checked_channel :
      ExecReply → (settle_s : ℕ) → (channel : ℕ) → Option String → List Cmd → List Cmd
  checked_channel raised settle_s channel _ t = t
  checked_channel (answered _ _) settle_s channel by_path t =
      (exec (turn_off channel) (dmesg_usb_error_count (awaited settle_s by_path t)).1).1

  unfoldable pub bring_up : (settle_s : ℕ) → List (ℕ × Option String) → List Cmd → List Cmd
  unfolding await_node_present dmesg_usb_error_count
  bring_up settle_s [] t = t
  bring_up settle_s ((channel, by_path) ∷ rest) t =
      let (r, t') = exec (turn_on channel) t in
      bring_up settle_s rest (checked_channel r settle_s channel by_path t')

  -- What follows the wait.
  abbrev pub powered_again :
      Bool → (settle_s : ℕ) → List (ℕ × Option String) → List Cmd → Bool × List Cmd
  powered_again false settle_s channels t = (false, t)
  powered_again true settle_s [] t =
      let (r, t') = exec all_on t in (elim r [ answered _ _ ↦ true | raised ↦ false ], t')
  powered_again true settle_s (c ∷ cs) t = (true, bring_up settle_s (c ∷ cs) t)

  -- `max(1, wait_back_s // poll_s)`
  abbrev pub poll_count : (wait_back_s poll_s : ℕ) → ℕ
  poll_count wait_back_s poll_s = if leb 1 (wait_back_s / poll_s) then wait_back_s / poll_s else 1

  unfoldable pub reboot_host :
      (wait_back_s poll_s settle_s : ℕ) → List (ℕ × Option String) → List Cmd → Bool × List Cmd
  unfolding wait_back bring_up
  reboot_host wait_back_s poll_s settle_s channels t =
      let (back, t') =
        wait_back (poll_count wait_back_s poll_s) (exec sudo_reboot (exec all_off t).1).1 in
      powered_again back settle_s channels t'
