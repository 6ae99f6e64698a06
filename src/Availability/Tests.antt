-- ===== src/Availability/Tests.antt =====
-- One device with a temporary outage beside one with a permanent outage.
use sbc_mcu_dut_controller.Prelude.{
  map, str_eq, List, ap, inl, inr, Bool-cases, eq_iff, if_ind, if◌then◌else◌, ℕ, ◌+◌, ◌≤◌, arith,
  String, false, none, some, [], ◌∷◌, ◌≡◌, refl,
}
use sbc_mcu_dut_controller.Store.{at, Device, Db}
use sbc_mcu_dut_controller.Availability.{
  give_up, next_retry, is_self_healable, backoff, target_record,
}
use sbc_mcu_dut_controller.Availability.Retries.{IsDue}
use sbc_mcu_dut_controller.Availability.Reconciler.{
  ProbeReply, present, absent, raised, reconcile_once, parse_iso, Settings, delay_after,
}
use sbc_mcu_dut_controller.Availability.Passes.{Pass, passes}
use sbc_mcu_dut_controller.Availability.Pointwise.{IsPeer}
use sbc_mcu_dut_controller.Availability.Ids.{of_id, Distinct-map}
use sbc_mcu_dut_controller.Availability.Row.{IsVisited, reconcile_once-IsVisited}
use sbc_mcu_dut_controller.Availability.Healed.{longest, passes-available}

abbrev out_of_service : String → String → Device
out_of_service id kind = record {
  id = id;
  host_id = some "rpi";
  kind = "mcu";
  model = "esp32";
  status = some "unavailable";
  serial_port = none;
  hub_host_id = none;
  hub_port_path = none;
  unavailable_kind = some kind;
  unavailable_reason = some "no answer";
  unavailable_since = some (at 5);
  retry_attempts = 1;
  retry_after = some (at 100);
  last_checked_at = none;
  build_target = none;
  power_control = none;
  solenoid_channel = none;
}

abbrev shelf : Db
shelf = record {
  hosts = [];
  devices = out_of_service "esp1" "temporary" ∷ out_of_service "esp2" "permanent" ∷ [];
  jobs = [];
  leases = [];
  lease_seq = 0;
}

abbrev settings : Settings
settings = record { max_attempts = 3; window_s = 180; steady_retry_s = none }

-- The default settings, three attempts in three minutes, space them a minute apart.
backoff_default : backoff 180 3 ≡ 60_000_000
unfolding backoff
backoff_default = refl

not_listed : (target_record (out_of_service "esp1" "temporary") none).available ≡ false
unfolding target_record
not_listed = refl

spent : (next_retry (some "temporary") 3 none 0 3 none).action ≡ give_up
unfolding next_retry is_self_healable
spent = refl

-- After the burst a steady interval goes on.
steady_goes_on :
    delay_after (record { max_attempts = 3; window_s = 180; steady_retry_s = some 60 }) 2
    ≡ 60_000_000
unfolding delay_after backoff
steady_goes_on = refl

abbrev steady : Settings
steady = record { max_attempts = 3; window_s = 180; steady_retry_s = some 60 }

-- The UPDATE of esp2 by another part of the controller
abbrev seen_at : Device → Device
seen_at d = if str_eq d.id "esp2" then record d { last_checked_at = some (at 7) } else d

seen_at-id : (d : Device) → (seen_at d).id ≡ d.id
seen_at-id d = if_ind {A = Device} (λ e. e.id ≡ d.id) (str_eq d.id "esp2") (λ _. refl) (λ _. refl)

seen_at-of_id : (ds : List Device) → of_id "esp1" (map seen_at ds) ≡ of_id "esp1" ds
seen_at-of_id [] = refl
seen_at-of_id (d ∷ ds) =
    let ih = seen_at-of_id ds in
    elim (Bool-cases (str_eq d.id "esp2")) [
      | inl it ↦
          let far : str_eq d.id "esp1" ≡ false =
            ap (λ i. str_eq i "esp1") ((eq_iff d.id "esp2").0 it) in
          rw (it, far) ih
      | inr other ↦ rw (other, ih) refl
    ]

abbrev pass : ProbeReply → ℕ → Pass
pass reply now = record {
  probe = λ _. reply;
  checked_at = λ _. at now;
  now = now;
  meanwhile = λ row ds. ds;
}

-- Another board is seen just before the healing pass writes.
abbrev busy_pass : Pass
busy_pass = record (pass present 300_000_000) { meanwhile = λ row ds. map seen_at ds }

quiet-IsPeer : IsPeer "esp1" (λ row ds. ds)
quiet-IsPeer = record { distinct = λ row ds h. h; kept = λ row ds. refl }

busy-IsPeer : IsPeer "esp1" (λ row ds. map seen_at ds)
busy-IsPeer = record {
  distinct = λ row ds h. Distinct-map seen_at seen_at-id ds h;
  kept = λ row ds. seen_at-of_id ds;
}

due : IsDue (parse_iso (some (at 100))) 300_000_000
unfolding parse_iso
due = omega arith

gap : 150_000_000 + longest steady 60 ≤ 300_000_000
unfolding backoff
gap = omega arith

back_example :
    (e : Device) × (of_id "esp1"
        (passes steady
          (pass absent 150_000_000 ∷ busy_pass ∷ pass absent 400_000_000 ∷ [])
          shelf).devices
      ≡ some e)
    × (e.status ≡ some "available")
back_example =
    passes-available steady 60 "esp1" (pass absent 150_000_000 ∷ []) busy_pass
      (pass absent 400_000_000 ∷ []) shelf (out_of_service "esp1" "temporary") refl
      ((refl, tt), (tt, tt)) refl refl due (gap, tt) (quiet-IsPeer, tt) busy-IsPeer
      (quiet-IsPeer, tt) (λ _ _. refl)

-- The UPDATE of esp2 comes between the query and that of esp1.
after_pass_example :
    (e : Device) × (of_id "esp1"
        (reconcile_once
          (λ _. raised)
          (λ _. at 200)
          settings
          150
          (λ row ds. map seen_at ds)
          shelf).devices
      ≡ some e)
    × IsVisited settings 150 raised (out_of_service "esp1" "temporary") e
after_pass_example =
    reconcile_once-IsVisited (λ _. raised) (λ _. at 200) settings 150 "esp1"
      (λ row ds. map seen_at ds) busy-IsPeer shelf (out_of_service "esp1" "temporary")
      ((refl, tt), (tt, tt)) refl
