-- ===== src/Queue/Worker/Tests.antt =====
-- Runs of the worker of queue/worker.py against concrete worlds.
use sbc_mcu_dut_controller.Prelude.{true, false, some, [], ◌∷◌, ◌++◌, ◌≡◌, refl}
use sbc_mcu_dut_controller.Queue.Worker.{
  Call, flash, run_adapter, harvest_artifacts, Reply, returns, raises, cancelled, Run, World,
  Worker, cancelled_result, deploy_git_source, bench_pipeline, flash_phase, launch_broker,
  start_observing, run_script, run_phase, body, handle, teardown, finish, guarded, run_inner, run,
}
use sbc_mcu_dut_controller.Queue.Worker.Quiet.{terminals}
use sbc_mcu_dut_controller.Queue.Worker.States.{run_inner-state}
use sbc_mcu_dut_controller.Queue.Worker.Teardown.{released, run_inner-released, teardown_cancelled}
use sbc_mcu_dut_controller.Queue.Worker.Deadline.{run-cancelled}

abbrev fresh : Run
fresh = record { calls = []; observing = false; capturing = false; brokering = false }

abbrev bench : Worker
bench = record {
  script = "blink";
  payload_kind = some "uf2";
  has_pipeline = false;
  launches_protomq = false;
  captures = true;
  observes = true;
  has_bind_runtime = false;
  has_deploy = false;
  has_run = true;
  passes = true;
}

abbrev sound : World
sound = record {
  reply = λ _ _. returns tt;
  flagged = λ _. false;
  observer_done = λ _. false;
  capture_done = λ _. true;
}

abbrev on_flash : Reply Unit → Call → Reply Unit
on_flash r flash = r
on_flash r _ = returns tt

abbrev on_run : Reply Unit → Call → Reply Unit
on_run r run_adapter = r
on_run r _ = returns tt

abbrev on_harvest : Reply Unit → Call → Reply Unit
on_harvest r harvest_artifacts = r
on_harvest r _ = returns tt

-- The flash raises.
abbrev bad_flash : World
bad_flash = record {
  reply = λ c _. on_flash raises c;
  flagged = λ _. false;
  observer_done = λ _. false;
  capture_done = λ _. true;
}

-- The script runs past the deadline, and the cancellation arrives in it.
abbrev slow_script : World
slow_script = record {
  reply = λ c _. on_run cancelled c;
  flagged = λ _. false;
  observer_done = λ _. false;
  capture_done = λ _. true;
}

-- A cancellation arrives while the artifacts are harvested.
abbrev cancelled_harvest : World
cancelled_harvest = record {
  reply = λ c _. on_harvest cancelled c;
  flagged = λ _. false;
  observer_done = λ _. false;
  capture_done = λ _. true;
}

-- The states of a run that goes through.
passes_states : terminals (run_inner sound bench fresh).1.calls ≡ "finished" ∷ []
unfolding run_inner guarded body flash_phase bench_pipeline deploy_git_source run_phase run_script
    launch_broker start_observing handle teardown finish terminals
passes_states = refl

error_state_example : terminals (run_inner bad_flash bench fresh).1.calls ≡ [] ++ "error" ∷ []
unfolding run_inner guarded body flash_phase bench_pipeline deploy_git_source run_phase run_script
    launch_broker start_observing handle teardown finish terminals
error_state_example =
    run_inner-state bad_flash bench (λ s r n. refl) fresh
      (record { state = "error"; result = "error" }) refl

released_example : released (run_inner bad_flash bench fresh).1 ≡ true
released_example = run_inner-released bad_flash bench (λ n. refl) (λ n h. cc) (λ n h. cc) fresh

cancelled_harvest_example :
    ((teardown cancelled_harvest bench fresh).0 ≡ cancelled)
    × (released (teardown cancelled_harvest bench fresh).1 ≡ released fresh)
cancelled_harvest_example = teardown_cancelled cancelled_harvest bench (λ n. refl) fresh

overrun_example : (run slow_script bench true fresh).0 ≡ returns cancelled_result
unfolding run run_inner guarded body flash_phase bench_pipeline deploy_git_source run_phase
    run_script launch_broker start_observing handle teardown finish terminals
overrun_example =
    run-cancelled slow_script bench true (λ n h. cc) (λ n h. cc) (λ n h. cc) (λ s r n. refl)
      (λ n. refl) fresh refl
