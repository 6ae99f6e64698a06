-- ===== src/Queue/Worker.antt =====
-- src/hil_controller/queue/worker.py, `JobWorker`: one job from "preparing" to a terminal state.
-- The world decides every awaited call: it returns, raises an Exception, or is where a cancellation
-- arrives (asyncio.CancelledError, which `except Exception` does not catch). A run is a function
-- from the calls made so far to its reply and the calls made in all.
pub mod Quiet
pub mod States
pub mod Teardown
pub mod Deadline
pub mod Tests
use sbc_mcu_dut_controller.Prelude.{
  ℕ, String, Bool, true, false, not, ◌&&◌, ◌||◌, Option, none, some, List, [], ◌∷◌, ◌++◌,
  if◌then◌else◌, ◌==◌, str_eq, one_of, length,
}

pub data Call : Type 0 where
  -- `_emit("state", {"state": s})` and the `result` beside it
  emit_state : String → Option String → Call
  emit_log : String → Call
  bind_runtime acquire deploy capture_deploy_log flash : Call
  launch_protomq start_observer start_capture run_adapter store_run_log drain_capture : Call
  stop_observer stop_capture stop_protomq harvest_artifacts purge_secrets release : Call
  protomq_status : Call

pub data Reply (A : Type 0) : Type 0 where
  returns : A → Reply A
  -- an Exception
  raises : Reply A
  -- asyncio.CancelledError
  cancelled : Reply A

-- The calls made so far, and which helpers of the run phase are up: `_observe_task`,
-- `_capture_task` and `_ctrl_protomq` are not None.
pub record Run : Type 0 where
  pub calls : List Call
  pub observing : Bool
  pub capturing : Bool
  pub brokering : Bool

abbrev pub Exec : Type 0 → Type 0
Exec A = Run → Reply A × Run

-- How the n-th call ends; whether `cancel()` has set the flag after n calls; and whether the
-- observer's task and the capture's have ended by then.
pub record World : Type 0 where
  pub reply : Call → ℕ → Reply Unit
  pub flagged : ℕ → Bool
  pub observer_done : ℕ → Bool
  pub capture_done : ℕ → Bool

module _ {A : Type 0} where
  abbrev pub pure : A → Exec A
  pure a t = (returns a, t)

  -- `try: m` / `except (asyncio.CancelledError, Exception): pass`
  abbrev pub swallow_all : Exec A → Exec Unit
  swallow_all m t = (returns tt, (m t).1)

-- `try: m` / `except Exception: pass`
abbrev pub swallowed : Reply Unit → Reply Unit
swallowed cancelled = cancelled
swallowed _ = returns tt

abbrev pub swallow : Exec Unit → Exec Unit
swallow m t = let (r, t') = m t in (swallowed r, t')

module _ {A B : Type 0} where
  abbrev pub and_then : Reply A → (A → Exec B) → Exec B
  and_then (returns a) f t = f a t
  and_then raises f t = (raises, t)
  and_then cancelled f t = (cancelled, t)

  infixl 5 ◌>>=◌ ◌>>◌
  abbrev pub ◌>>=◌ : Exec A → (A → Exec B) → Exec B
  ◌>>=◌ m f t = let (r, t') = m t in and_then r f t'

  abbrev pub ◌>>◌ : Exec A → Exec B → Exec B
  m >> n = m >>= λ _. n

-- The constructor's arguments and what `hasattr` finds on the adapter.
pub record Worker : Type 0 where
  pub script : String
  -- payload.get("kind")
  pub payload_kind : Option String
  -- params.get("firmware") or params.get("stages")
  pub has_pipeline : Bool
  -- params.protomq.launch_on == "controller"
  pub launches_protomq : Bool
  -- params.capture.webcam_url, on an adapter with `on_line`
  pub captures : Bool
  -- params.protomq has a script and a broker_host
  pub observes : Bool
  pub has_bind_runtime : Bool
  pub has_deploy : Bool
  pub has_run : Bool
  -- what `adapter.run()` answers when it returns: outcome == "pass"
  pub passes : Bool

pub record WorkerResult : Type 0 where
  pub state : String
  pub result : String

abbrev pub interactive_scripts : List String
interactive_scripts = "firmware-bench" ∷ []

abbrev pub terminal_states : List String
terminal_states = "finished" ∷ "error" ∷ "timeout" ∷ "cancelled" ∷ []

-- The value of the `try` block: an early `return`, or the exit status of the script.
pub data Body : Type 0 where
  stop : WorkerResult → Body
  done : ℕ → Body

abbrev pub cancelled_result : WorkerResult
cancelled_result = record { state = "cancelled"; result = "cancelled" }

abbrev pub error_result : WorkerResult
error_result = record { state = "error"; result = "error" }

-- `if test: await …`
abbrev pub when : Bool → Exec Unit → Exec Unit
when true m = m
when false m = pure tt

-- `try: m` / `finally: cleanup`. An exception of the cleanup replaces the one under way.
abbrev pub finally_then : Reply Unit → Exec Unit → Exec Unit
finally_then r cleanup t = let (c, t') = cleanup t in and_then c (λ _ t''. (r, t'')) t'

module _ (w : World) (job : Worker) where
  abbrev pub call : Call → Exec Unit
  call c t = (w.reply c (length t.calls), record t { calls = t.calls ++ c ∷ [] })

  abbrev pub emit : String → Exec Unit
  emit s = call (emit_state s none)

  unfoldable pub deploy_git_source : Exec Unit
  deploy_git_source = when job.has_deploy (
      call (emit_log "deploy:info") >> λ t.
      let (r, t') = call deploy t in finally_then r (call capture_deploy_log) t')

  unfoldable pub bench_pipeline : Exec Unit
  bench_pipeline =
      when (one_of job.script interactive_scripts && job.has_pipeline)
        (emit "flashing" >> call flash)

  unfoldable pub flash_phase : Exec Unit
  unfolding deploy_git_source bench_pipeline
  flash_phase = elim job.payload_kind [
    | none ↦ bench_pipeline
    | some kind ↦
        if str_eq kind "git-source"
        then emit "flashing" >> deploy_git_source
        else if not (one_of kind ("fake" ∷ "none" ∷ []))
        then emit "flashing" >> call flash
        else bench_pipeline
  ]

  unfoldable pub launch_broker : Exec Unit
  launch_broker =
      call launch_protomq
      >> (λ t. (returns tt, record t { brokering = true }))
      >> call (emit_log "protomq")

  -- `except Exception` around the activation: a failure is logged, and there is no observer.
  abbrev pub observer_started : Reply Unit → Exec Unit
  observer_started (returns _) t = (returns tt, record t { observing = true })
  observer_started raises t = call (emit_log "protomq") t
  observer_started cancelled t = (cancelled, t)

  unfoldable pub start_observing : Exec Unit
  start_observing t = let (r, t') = call start_observer t in observer_started r t'

  -- `_maybe_start_hil_capture`: the construction of the capture may raise.
  abbrev pub start_capturing : Exec Unit
  start_capturing = call start_capture >> (λ t. (returns tt, record t { capturing = true }))

  unfoldable pub run_script : Exec ℕ
  run_script =
      if job.has_run
      then call run_adapter
        >> call (emit_log "stdout")
        >> call store_run_log
        >> pure (if job.passes then 0 else 1)
      else pure 0

  unfoldable pub run_phase : Exec Body
  unfolding run_script launch_broker start_observing
  run_phase = do
    emit "running"
    when job.launches_protomq launch_broker
    when job.observes start_observing
    when job.captures start_capturing
    status ← run_script
    when job.captures (swallow_all (call drain_capture))
    pure (done status)

  -- `if self._cancelled: emit cancelled; return`, else what follows.
  abbrev pub unless_flagged : Exec Body → Exec Body
  unless_flagged rest t =
      if w.flagged (length t.calls)
      then (emit "cancelled" >> pure (stop cancelled_result)) t
      else rest t

  -- The `try` block of `_run`.
  unfoldable pub body : Exec Body
  unfolding flash_phase run_phase
  body = do emit "preparing"; call acquire; unless_flagged (flash_phase >> unless_flagged run_phase)

  -- The two `except` clauses.
  unfoldable pub handle : Reply Body → Exec Body
  handle (returns b) = pure b
  handle cancelled = emit "cancelled" >> pure (stop cancelled_result)
  handle raises = emit "error" >> call (emit_log "stderr") >> pure (stop error_result)

  -- `_observe_task and not _observe_task.done()`
  abbrev pub still_observing : Run → Bool
  still_observing t = t.observing && not (w.observer_done (length t.calls))

  abbrev pub still_capturing : Run → Bool
  still_capturing t = t.capturing && not (w.capture_done (length t.calls))

  -- The `finally` block: the helpers that are up, the artifacts, the secrets, and the adapter.
  unfoldable pub teardown : Exec Unit
  teardown t =
      (do
        when (still_observing t) (swallow_all (call stop_observer))
        when (still_capturing t) (swallow_all (call stop_capture))
        when t.brokering (swallow_all (call stop_protomq))
        swallow (call harvest_artifacts)
        swallow (call purge_secrets)
        swallow (call release))
        t

  -- What follows the `try` statement; an early `return` in it skips this.
  unfoldable pub finish : Body → Exec WorkerResult
  finish (stop r) t = pure r t
  finish (done status) t =
      let verdict : String = if status == 0 then "pass" else "fail" in
      (do
        when t.observing (swallow (call protomq_status))
        call (emit_state "finished" (some verdict))
        pure (record { state = "finished"; result = verdict }))
        t

  -- The `try` statement and what follows it. An exception of the finally block wins over the reply
  -- under way.
  unfoldable pub guarded : Exec WorkerResult
  guarded t =
      let (tried, t₁) = body t in
      let (handled, t₂) = handle tried t₁ in
      let (closed, t₃) = teardown t₂ in and_then closed (λ _. and_then handled finish) t₃

  -- `JobWorker._run`
  unfoldable pub run_inner : Exec WorkerResult
  run_inner = when job.has_bind_runtime (call bind_runtime) >> guarded

-- `asyncio.wait_for(coroutine, timeout)`: at the deadline the coroutine is cancelled. If it lets the
-- CancelledError through, wait_for raises TimeoutError; if it answers all the same, wait_for returns
-- the answer.
pub data Waited (A : Type 0) : Type 0 where
  answered : A → Waited A
  timed_out failed interrupted : Waited A

abbrev pub wait_for : {A : Type 0} → Bool → Reply A → Waited A
wait_for expired (returns a) = answered a
wait_for expired raises = failed
wait_for expired cancelled = if expired then timed_out else interrupted

abbrev pub timeout_result : WorkerResult
timeout_result = record { state = "timeout"; result = "timeout" }

-- `JobWorker.run`; `expired` says whether the deadline of `total_s` has passed when `_run` ends. An
-- exception that `_run` raises of its own is taken to be no TimeoutError.
unfoldable pub run : World → Worker → (expired : Bool) → Exec WorkerResult
run w job expired t =
    if one_of job.script interactive_scripts
    then run_inner w job t
    else let (r, t') = run_inner w job t in
      elim (wait_for expired r) [
        | answered result ↦ (returns result, t')
        | failed ↦ (raises, t')
        | interrupted ↦ (cancelled, t')
        | timed_out ↦ (call w job (emit_state "timeout" none) >> pure timeout_result) t'
      ]
