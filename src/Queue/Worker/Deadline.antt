-- ===== src/Queue/Worker/Deadline.antt =====
-- What becomes of a job that overruns `total_s`, in queue/worker.py's `run`.
use sbc_mcu_dut_controller.Prelude.{
  ℕ, String, Bool, true, false, Option, none, ◌≡◌, refl, ◌≢◌, length, one_of, if◌then◌else◌,
}
use sbc_mcu_dut_controller.Queue.Worker.{
  emit_state, bind_runtime, harvest_artifacts, purge_secrets, release, Reply, returns, cancelled,
  Run, World, ◌>>◌, Worker, WorkerResult, interactive_scripts, cancelled_result, call, when, body,
  handle, teardown, still_observing, still_capturing, finish, guarded, run_inner, run,
  stop_observer, stop_capture, stop_protomq, wait_for, answered, failed, interrupted, timed_out,
  timeout_result, pure, raises,
}
use sbc_mcu_dut_controller.Queue.Worker.Teardown.{
  Calm, Calm-when, Calm-then, Calm-swallow_all, Calm-call,
}

module _ (w : World) (job : Worker) (harvest : (n : ℕ) → w.reply harvest_artifacts n ≢ cancelled)
    (purge : (n : ℕ) → w.reply purge_secrets n ≢ cancelled)
    (give_back : (n : ℕ) → w.reply release n ≢ cancelled) where
  Calm-teardown : Calm (teardown w job)
  unfolding teardown
  Calm-teardown = record {
    at = λ t.
        (Calm-then _ _
            (Calm-when (still_observing w job t) _ (Calm-swallow_all (call w job stop_observer)))
            (Calm-then _ _
              (Calm-when (still_capturing w job t) _ (Calm-swallow_all (call w job stop_capture)))
              (Calm-then _ _ (Calm-when t.brokering _ (Calm-swallow_all (call w job stop_protomq)))
                (Calm-then _ _ (Calm-call w job harvest_artifacts harvest) (
                  Calm-then _ _ (Calm-call w job purge_secrets purge)
                    (Calm-call w job release give_back)))))).at
          t;
  }

  guarded-cancelled :
      ((s : String) (r : Option String) (n : ℕ) → w.reply (emit_state s r) n ≡ returns tt)
      → (t : Run) → (body w job t).0 ≡ cancelled
      → (guarded w job t).0 ≡ returns cancelled_result
  unfolding guarded handle finish
  guarded-cancelled emits t cut =
      rw cut
        (rw (emits "cancelled" none (length (body w job t).1.calls)) (rw (Calm-teardown.at _) refl))

-- A cancellation that arrives in the `try` block, such as the one that wait_for sends at the
-- deadline, is answered by the result "cancelled": with the deadline passed or not, `run` returns
-- that result and never "timeout", for an adapter with or without a bind_runtime, provided that
-- bind_runtime returns, the states are recorded and the teardown is not cancelled once more.
pub run-cancelled :
    (w : World) (job : Worker) (expired : Bool)
    → ((n : ℕ) → w.reply harvest_artifacts n ≢ cancelled)
    → ((n : ℕ) → w.reply purge_secrets n ≢ cancelled)
    → ((n : ℕ) → w.reply release n ≢ cancelled)
    → ((s : String) (r : Option String) (n : ℕ) → w.reply (emit_state s r) n ≡ returns tt)
    → ((n : ℕ) → w.reply bind_runtime n ≡ returns tt)
    → (t : Run)
    → (body w job (when job.has_bind_runtime (call w job bind_runtime) t).1).0 ≡ cancelled
    → (run w job expired t).0 ≡ returns cancelled_result
unfolding run run_inner
run-cancelled w job expired h p g emits binds t cut =
    by_script (one_of job.script interactive_scripts)
  where
    inner : (run_inner w job t).0 ≡ returns cancelled_result
    inner = bound job.has_bind_runtime cut
      where
        bound :
            (has : Bool)
            → (body w job (when has (call w job bind_runtime) t).1).0 ≡ cancelled
            → ((when has (call w job bind_runtime) >> guarded w job) t).0 ≡ returns cancelled_result
        bound true cut = rw (binds (length t.calls)) (guarded-cancelled w job h p g emits _ cut)
        bound false cut = guarded-cancelled w job h p g emits t cut

    by_script :
        (interactive : Bool)
        → (if interactive
            then run_inner w job t
            else let (r, t') = run_inner w job t in
              elim (wait_for expired r) as (λ _. Reply WorkerResult × Run) [
                | answered result ↦ (returns result, t')
                | failed ↦ (raises, t')
                | interrupted ↦ (cancelled, t')
                | timed_out ↦ (call w job (emit_state "timeout" none) >> pure timeout_result) t'
              ]).0
          ≡ returns cancelled_result
    by_script true = inner
    by_script false = rw inner refl
