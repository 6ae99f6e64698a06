-- ===== src/HostRecovery/Recovered.antt =====
-- The pass of src/hil_controller/host_recovery.py over the hosts that need a reboot.
use sbc_mcu_dut_controller.Prelude.{
  String, Bool, true, false, ◌&&◌, ◌==◌, List, [], ◌∷◌, ◌++◌, ◌≡◌, refl, ap, sym, ◌∙◌,
  if◌then◌else◌, select,
}
use mathlib.Core.List.{append-nil, append_assoc}
use sbc_mcu_dut_controller.Store.{Stamp, Db}
use sbc_mcu_dut_controller.HostRecovery.{
  host_active_job_count, clear_host_recovered, list_reboot_required_hosts, RebootReply, ok, if_ok,
  reboot_if, recover_host, recover_each, recover_wedged_hosts,
}

module _ (reboot_fn : String → RebootReply) (meanwhile : String → Db → Db) (enabled : Bool)
    (now : String → Stamp)
    (steady : (h g : String) (db : Db)
      → (host_active_job_count g (meanwhile h db) == 0) ≡ (host_active_job_count g db == 0)) where
  abbrev is_idle : String → Db → Bool
  is_idle g db = host_active_job_count g db == 0

  abbrev step : Bool → String → List String × Db → List String × Db
  step b h acc = reboot_if reboot_fn meanwhile enabled now b h acc

  cleared-is_idle :
      (b : Bool) (h g : String) (acc : List String × Db)
      → is_idle g (if_ok reboot_fn meanwhile enabled now b h acc).1 ≡ is_idle g acc.1
  unfolding clear_host_recovered host_active_job_count
  cleared-is_idle true h g acc = refl
  cleared-is_idle false h g acc = refl

  step-is_idle :
      (b : Bool) (h g : String) (acc : List String × Db)
      → is_idle g (step b h acc).1 ≡ is_idle g acc.1
  step-is_idle true h g (xs, db) =
      cleared-is_idle (ok reboot_fn meanwhile enabled now h) h g (xs, meanwhile h db)
      ∙ steady h g db
  step-is_idle false h g acc = refl

  -- The test of the hosts that are recovered.
  abbrev chosen : Db → String → Bool
  chosen db h = is_idle h db && (enabled && ok reboot_fn meanwhile enabled now h)

  step-select :
      (idle on up : Bool) (h : String) (xs ys : List String) (db : Db)
      → up ≡ ok reboot_fn meanwhile enabled now h
      → (step (idle && on) h (xs, db)).0 ++ ys ≡ xs ++ (if idle && (on && up) then h ∷ ys else ys)
  step-select true true up h xs ys db e = rw (sym e) (of up)
    where
      of :
          (up : Bool)
          → (if_ok reboot_fn meanwhile enabled now up h (xs, meanwhile h db)).0 ++ ys
            ≡ xs ++ (if up then h ∷ ys else ys)
      of true = append_assoc xs (h ∷ []) ys
      of false = refl
  step-select true false up h xs ys db e = refl
  step-select false on up h xs ys db e = refl

  each-select :
      (hosts : List String) (start : Db) (acc : List String × Db)
      → ((g : String) → is_idle g acc.1 ≡ is_idle g start)
      → (recover_each reboot_fn meanwhile enabled now hosts acc).0
        ≡ acc.0 ++ select (chosen start) hosts
  unfolding recover_each recover_host
  each-select [] start acc e = sym (append-nil acc.0)
  each-select (h ∷ hosts) start acc e =
      let b : Bool = is_idle h acc.1 && enabled in
      each-select hosts start (step b h acc) (λ g. step-is_idle b h g acc ∙ e g)
      ∙ step-select (is_idle h acc.1) enabled (ok reboot_fn meanwhile enabled now h) h acc.0
          (select (chosen start) hosts) acc.1 refl
      ∙ ap
          (λ c.
            acc.0
            ++ (if c && (enabled && ok reboot_fn meanwhile enabled now h)
                then h ∷ select (chosen start) hosts
                else select (chosen start) hosts))
          (e h)

-- Where no host becomes free of jobs in flight, or gets its first, while a reboot of the pass is
-- awaited, the hosts that the pass recovers are, in order, those that need a reboot at its start, that no
-- job in flight is assigned to, and whose reboot completes, provided that the pass is enabled; it
-- recovers none otherwise.
pub recover_wedged_hosts-select :
    (reboot_fn : String → RebootReply) (meanwhile : String → Db → Db) (enabled : Bool)
    (now : String → Stamp)
    → ((h g : String) (db : Db)
        → (host_active_job_count g (meanwhile h db) == 0) ≡ (host_active_job_count g db == 0))
    → (db : Db)
    → (recover_wedged_hosts reboot_fn meanwhile enabled now db).0
      ≡ select
          (λ h.
            host_active_job_count h db == 0 && (enabled && ok reboot_fn meanwhile enabled now h))
          (list_reboot_required_hosts db)
unfolding recover_wedged_hosts
recover_wedged_hosts-select reboot_fn meanwhile enabled now steady db =
    each-select reboot_fn meanwhile enabled now steady (list_reboot_required_hosts db) db ([], db)
      (λ g. refl)
