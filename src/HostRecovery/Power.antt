-- ===== src/HostRecovery/Power.antt =====
-- Which channels the commands of src/hil_controller/host_recovery.py leave powered.
use sbc_mcu_dut_controller.Prelude.{
  ℕ, zero, suc, ◌+◌, ◌&&◌, String, Bool, true, false, Option, none, some, List, [], ◌∷◌, ◌++◌, ◌≡◌,
  refl, ◌≢◌, ap, ◌∙◌, arith, if◌then◌else◌, if_ind, ◌==◌, leb, truthy, length,
}
use sbc_mcu_dut_controller.HostRecovery.Shell.{
  Cmd, turn_on, turn_off, test_node, all_off, all_on, dmesg_tail, sudo_reboot, ping, ExecReply,
  answered, raised, Transport, exec, succeeded, node_present, poll_node, await_node_present,
  dmesg_usb_error_count, present_and_clean, validated, validate_presence_active, wait_back, awaited,
  checked_channel, bring_up, powered_again, poll_count, reboot_host,
}

-- What the commands so far leave: no channel powered, one, or, at some time, more than one.
pub data Power : Type 0 where
  idle several : Power
  one : ℕ → Power

-- The script ran and exited with 0.
abbrev pub took : ExecReply → Bool
took (answered exit_status _) = exit_status == 0
took raised = false

-- A command that turns a channel on may have done so whatever its reply; one that turns it off has only
-- where it took effect.
abbrev pub after : Power → Cmd → ExecReply → Power
after several c r = several
after idle (turn_on channel) r = one channel
after idle all_on r = several
after idle _ r = idle
after (one a) (turn_on channel) r = if channel == a then one a else several
after (one a) all_on r = several
after (one a) (turn_off channel) r = if channel == a && took r then idle else one a
after (one a) all_off r = if took r then idle else one a
after (one a) _ r = one a

-- The commands from the n-th on, each with its reply.
abbrev pub power : Transport → Power → (n : ℕ) → List Cmd → Power
power transport p n [] = p
power transport p n (c ∷ cs) = power transport (after p c (transport c n)) (suc n) cs

power-snoc :
    (transport : Transport) (p : Power) (n m : ℕ) (cs : List Cmd) (c : Cmd)
    → m ≡ n + length cs
    → power transport p n (cs ++ c ∷ []) ≡ after (power transport p n cs) c (transport c m)
power-snoc transport p n m [] c h =
    let e : n ≡ m = omega (arith, h) in ap (λ k. after p c (transport c k)) e
power-snoc transport p n m (d ∷ cs) c h =
    power-snoc transport (after p d (transport d n)) (suc n) m cs c (omega (arith, h))

-- A command that switches nothing keeps the power as it is.
abbrev Keeps : Cmd → Type 0
Keeps c = (p : Power) (r : ExecReply) → after p c r ≡ p

test-Keeps : (node : String) → Keeps (test_node node)
test-Keeps node idle r = refl
test-Keeps node several r = refl
test-Keeps node (one a) r = refl

dmesg-Keeps : Keeps dmesg_tail
dmesg-Keeps idle r = refl
dmesg-Keeps several r = refl
dmesg-Keeps (one a) r = refl

reboot-Keeps : Keeps sudo_reboot
reboot-Keeps idle r = refl
reboot-Keeps several r = refl
reboot-Keeps (one a) r = refl

ping-Keeps : Keeps ping
ping-Keeps idle r = refl
ping-Keeps several r = refl
ping-Keeps (one a) r = refl

on_off :
    (channel : ℕ) (r : ExecReply) → took r ≡ true → after (one channel) (turn_off channel) r ≡ idle
on_off channel r h = ground arith

module _ (transport : Transport) where
  abbrev now : List Cmd → Power
  now t = power transport idle 0 t

  now-snoc : (c : Cmd) (t : List Cmd) → now (t ++ c ∷ []) ≡ after (now t) c (transport c (length t))
  now-snoc c t = power-snoc transport idle 0 (length t) t c (omega arith)

  now-exec : (c : Cmd) (t : List Cmd) → Keeps c → now (exec transport c t).1 ≡ now t
  now-exec c t k = now-snoc c t ∙ k (now t) (transport c (length t))

  now-poll :
      (attempts : ℕ) (node : String) (t : List Cmd)
      → now (poll_node transport attempts node t).1 ≡ now t
  unfolding poll_node node_present
  now-poll zero node t = refl
  now-poll (suc attempts) node t =
      let t' : List Cmd = (exec transport (test_node node) t).1 in
      if_ind (λ (r : Bool × List Cmd). now r.1 ≡ now t)
        (succeeded transport (transport (test_node node) (length t)))
        (λ _. now-exec (test_node node) t (test-Keeps node))
        (λ _. now-poll attempts node t' ∙ now-exec (test_node node) t (test-Keeps node))

  now-dmesg : (t : List Cmd) → now (dmesg_usb_error_count transport t).1 ≡ now t
  unfolding dmesg_usb_error_count
  now-dmesg t = now-exec dmesg_tail t dmesg-Keeps

  now-await :
      (settle_s : ℕ) (node : String) (t : List Cmd)
      → now (await_node_present transport settle_s node t).1 ≡ now t
  unfolding await_node_present
  now-await settle_s node t = now-poll (if leb 1 settle_s then settle_s else 1) node t

  now-clean :
      (settle_s : ℕ) (node : String) (t : List Cmd)
      → now (present_and_clean transport settle_s node t).1 ≡ now t
  unfolding present_and_clean
  now-clean settle_s node t =
      let t' : List Cmd = (await_node_present transport settle_s node t).1 in
      if_ind (λ (r : Bool × List Cmd). now r.1 ≡ now t)
        ((await_node_present transport settle_s node t).0)
        (λ _. now-dmesg t' ∙ now-await settle_s node t) (λ _. now-await settle_s node t)

  now-turn_on :
      (channel : ℕ) (t : List Cmd)
      → now t ≡ idle
      → now (exec transport (turn_on channel) t).1 ≡ one channel
  now-turn_on channel t h =
      now-snoc (turn_on channel) t
      ∙ ap (λ p. after p (turn_on channel) (transport (turn_on channel) (length t))) h

  now-turn_off :
      (channel : ℕ) (t : List Cmd)
      → now t ≡ one channel
      → now (exec transport (turn_off channel) t).1
        ≡ after (one channel) (turn_off channel) (transport (turn_off channel) (length t))
  now-turn_off channel t h =
      now-snoc (turn_off channel) t
      ∙ ap (λ p. after p (turn_off channel) (transport (turn_off channel) (length t))) h

  now-awaited :
      (settle_s : ℕ) (by_path : Option String) (t : List Cmd)
      → now (awaited transport settle_s by_path t) ≡ now t
  now-awaited settle_s none t = refl
  now-awaited settle_s (some node) t =
      if_ind (λ t'. now t' ≡ now t) (truthy (some node)) (λ _. now-await settle_s node t)
        (λ _. refl)

  now-wait : (attempts : ℕ) (t : List Cmd) → now (wait_back transport attempts t).1 ≡ now t
  unfolding wait_back
  now-wait zero t = refl
  now-wait (suc attempts) t =
      if_ind (λ (r : Bool × List Cmd). now r.1 ≡ now t)
        (succeeded transport (transport ping (length t))) (λ _. now-exec ping t ping-Keeps)
        (λ _. now-wait attempts (exec transport ping t).1 ∙ now-exec ping t ping-Keeps)

-- What a validation leaves, by the replies to its turn_on and to its turn_off.
abbrev pub left_by : (on off : ExecReply) → ℕ → Power
left_by (answered _ _) off channel = if took off then idle else one channel
left_by raised off channel = one channel

off_left :
    (channel : ℕ) (r : ExecReply)
    → after (one channel) (turn_off channel) r ≡ (if took r then idle else one channel)
off_left channel r = ground arith

-- The commands of a validation before its turn_off.
abbrev pub looked : Transport → (channel settle_s : ℕ) → String → List Cmd → List Cmd
looked transport channel settle_s node t =
    (present_and_clean transport settle_s node (t ++ turn_on channel ∷ [])).1

-- A validation of a host with all channels off never powers a second channel. It leaves all of them off
-- where its turn_on was answered and its turn_off exited with 0. Where the turn_off raised or failed, and
-- where the turn_on raised, as on a timeout, after which no command turns the channel off, it may leave
-- that one channel on.
pub validate_presence_active-Power :
    (transport : Transport) (channel settle_s : ℕ) (node : String) (t : List Cmd)
    → power transport idle 0 t ≡ idle
    → power transport idle 0 (validate_presence_active transport channel settle_s node t).1
      ≡ left_by
          (transport (turn_on channel) (length t))
          (transport (turn_off channel) (length (looked transport channel settle_s node t)))
          channel
unfolding validate_presence_active
validate_presence_active-Power transport channel settle_s node t h =
    of (transport (turn_on channel) (length t))
  where
    t' : List Cmd
    t' = t ++ turn_on channel ∷ []

    off : ExecReply
    off = transport (turn_off channel) (length (looked transport channel settle_s node t))

    of :
        (r : ExecReply)
        → power transport idle 0 (validated transport r channel settle_s node t').1
          ≡ left_by r off channel
    of raised = now-turn_on transport channel t h
    of (answered e n) =
        now-turn_off transport channel (present_and_clean transport settle_s node t').1
          (now-clean transport settle_s node t' ∙ now-turn_on transport channel t h)
        ∙ off_left channel off

-- The commands that turn channels on are answered, and those that turn them off exit with 0.
pub record IsSwitched (transport : Transport) : Type 0 where
  pub turns_on : (channel n : ℕ) → transport (turn_on channel) n ≢ raised
  pub turns_off : (channel n : ℕ) → took (transport (turn_off channel) n) ≡ true
  pub clears : (n : ℕ) → took (transport all_off n) ≡ true

module _ (transport : Transport) (switched : IsSwitched transport) where
  -- One round of the bring-up.
  round-idle :
      (r : ExecReply) (settle_s channel : ℕ) (by_path : Option String) (t : List Cmd)
      → r ≢ raised
      → now transport t ≡ one channel
      → now transport (checked_channel transport r settle_s channel by_path t) ≡ idle
  round-idle raised settle_s channel by_path t u h = absurd (u refl)
  round-idle (answered e n) settle_s channel by_path t u h =
      let t' : List Cmd = awaited transport settle_s by_path t in
      let seen : List Cmd = (dmesg_usb_error_count transport t').1 in
      now-turn_off transport channel seen
        (now-dmesg transport t' ∙ now-awaited transport settle_s by_path t ∙ h)
      ∙ on_off channel (transport (turn_off channel) (length seen))
          (switched.turns_off channel (length seen))

  bring_up-idle :
      (settle_s : ℕ) (channels : List (ℕ × Option String)) (t : List Cmd)
      → now transport t ≡ idle
      → now transport (bring_up transport settle_s channels t) ≡ idle
  unfolding bring_up
  bring_up-idle settle_s [] t h = h
  bring_up-idle settle_s ((channel, by_path) ∷ rest) t h =
      let t' : List Cmd = (exec transport (turn_on channel) t).1 in
      let r : ExecReply = transport (turn_on channel) (length t) in
      bring_up-idle settle_s rest (checked_channel transport r settle_s channel by_path t') (
        round-idle r settle_s channel by_path t' (switched.turns_on channel (length t))
          (now-turn_on transport channel t h))

all_off-idle : (p : Power) (r : ExecReply) → p ≢ several → took r ≡ true → after p all_off r ≡ idle
all_off-idle idle r u h = refl
all_off-idle several r u h = absurd (u refl)
all_off-idle (one a) r u h = rw h refl

-- A reboot with a list of channels never has more than one of them powered, and ends with all of
-- them off, whether the host comes back or not, provided that at most one was powered before, that no
-- command that turns a channel on raises, and that each that turns channels off exits with 0.
pub reboot_host-Power :
    (transport : Transport)
    → IsSwitched transport
    → (wait_back_s poll_s settle_s : ℕ) (c : ℕ × Option String) (cs : List (ℕ × Option String))
      (t : List Cmd)
    → power transport idle 0 t ≢ several
    → power transport idle 0 (reboot_host transport wait_back_s poll_s settle_s (c ∷ cs) t).1 ≡ idle
unfolding reboot_host
reboot_host-Power transport switched wait_back_s poll_s settle_s c cs t h =
    of (wait_back transport attempts start).0 (wait_back transport attempts start).1
      (now-wait transport attempts start ∙ begun)
  where
    attempts : ℕ
    attempts = poll_count transport wait_back_s poll_s

    off : List Cmd
    off = t ++ all_off ∷ []

    start : List Cmd
    start = off ++ sudo_reboot ∷ []

    begun : now transport start ≡ idle
    begun =
        now-exec transport sudo_reboot off reboot-Keeps
        ∙ now-snoc transport all_off t
        ∙ all_off-idle (now transport t) (transport all_off (length t)) h
            (switched.clears (length t))

    of :
        (back : Bool) (t' : List Cmd)
        → now transport t' ≡ idle
        → now transport (powered_again transport back settle_s (c ∷ cs) t').1 ≡ idle
    of false t' k = k
    of true t' k = bring_up-idle transport switched settle_s (c ∷ cs) t' k
