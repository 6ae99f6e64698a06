-- ===== src/Queue/Worker/Quiet.antt =====
-- The parts of queue/worker.py's `_run` that emit no terminal state.
use sbc_mcu_dut_controller.Prelude.{
  String, Bool, true, false, not, Option, none, some, List, [], ◌∷◌, ◌++◌, ◌≡◌, refl, ap, ◌∙◌,
  arith, if◌then◌else◌, str_eq, one_of,
}
use mathlib.Core.List.{append-nil}
use sbc_mcu_dut_controller.Queue.Worker.{
  Call, emit_state, emit_log, deploy, capture_deploy_log, flash, launch_protomq, start_observer,
  run_adapter, store_run_log, stop_observer, stop_capture, stop_protomq, harvest_artifacts,
  purge_secrets, release, Reply, returns, raises, cancelled, Run, Exec, World, pure, swallow_all,
  swallow, and_then, ◌>>=◌, ◌>>◌, Worker, terminal_states, when, finally_then, call,
  deploy_git_source, bench_pipeline, flash_phase, launch_broker, observer_started, start_observing,
  run_script, teardown, still_observing, still_capturing,
}

-- The terminal states among the emitted ones, in order.
unfoldable pub terminals : List Call → List String
terminals [] = []
terminals (emit_state s r ∷ cs) =
    if one_of s terminal_states then s ∷ terminals cs else terminals cs
terminals (c ∷ cs) = terminals cs

pub terminals-append : (xs ys : List Call) → terminals (xs ++ ys) ≡ terminals xs ++ terminals ys
unfolding terminals
terminals-append [] ys = refl
terminals-append (emit_state s r ∷ xs) ys = ground (arith, terminals-append xs ys)
terminals-append (c ∷ xs) ys = terminals-append xs ys

abbrev pub emitted : Run → List String
emitted t = terminals t.calls

-- The run emits no terminal state.
pub record Quiet {A : Type 0} (m : Exec A) : Type 0 where
  pub at : (t : Run) → emitted (m t).1 ≡ emitted t

module _ (w : World) (job : Worker) where
  pub Quiet-call : (c : Call) → terminals (c ∷ []) ≡ [] → Quiet (call w job c)
  Quiet-call c q = record {
    at = λ t.
        terminals-append t.calls (c ∷ [])
        ∙ ap (λ z. terminals t.calls ++ z) q
        ∙ append-nil (terminals t.calls);
  }

module _ {A B : Type 0} where
  pub Quiet-bind :
      (m : Exec A) (f : A → Exec B) → Quiet m → ((a : A) → Quiet (f a)) → Quiet (m >>= f)
  Quiet-bind m f qm qf = record { at = λ t. after (m t).0 (m t).1 ∙ qm.at t }
    where
      after : (r : Reply A) (t : Run) → emitted (and_then r f t).1 ≡ emitted t
      after (returns a) t = (qf a).at t
      after raises t = refl
      after cancelled t = refl

  pub Quiet-then : (m : Exec A) (n : Exec B) → Quiet m → Quiet n → Quiet (m >> n)
  Quiet-then m n qm qn = Quiet-bind m (λ _. n) qm (λ _. qn)

pub Quiet-pure : {A : Type 0} (a : A) → Quiet (pure a)
Quiet-pure a = record { at = λ t. refl }

pub Quiet-when : (b : Bool) (m : Exec Unit) → Quiet m → Quiet (when b m)
Quiet-when true m q = q
Quiet-when false m q = Quiet-pure tt

pub Quiet-swallow : (m : Exec Unit) → Quiet m → Quiet (swallow m)
Quiet-swallow m q = record { at = q.at }

pub Quiet-swallow_all : (m : Exec Unit) → Quiet m → Quiet (swallow_all m)
Quiet-swallow_all m q = record { at = q.at }

pub Quiet-if :
    {A : Type 0} (b : Bool) (m n : Exec A) → Quiet m → Quiet n → Quiet (if b then m else n)
Quiet-if true m n qm qn = qm
Quiet-if false m n qm qn = qn

module _ (w : World) (job : Worker) where
  pub Quiet-deploy : Quiet (deploy_git_source w job)
  unfolding deploy_git_source terminals
  Quiet-deploy = Quiet-when job.has_deploy _ (
      Quiet-then _ _ (Quiet-call w job (emit_log "deploy:info") refl) (record {
        at = λ t.
            after (call w job deploy t).0 (call w job deploy t).1
            ∙ (Quiet-call w job deploy refl).at t;
      }))
    where
      after :
          (r : Reply Unit) (t : Run)
          → emitted (finally_then r (call w job capture_deploy_log) t).1 ≡ emitted t
      after r t =
          (Quiet-then (call w job capture_deploy_log) (λ t. (r, t))
              (Quiet-call w job capture_deploy_log refl) (record { at = λ t. refl })).at
            t

  pub Quiet-bench : Quiet (bench_pipeline w job)
  unfolding bench_pipeline terminals
  Quiet-bench = Quiet-when _ _ (
      Quiet-then _ _ (Quiet-call w job (emit_state "flashing" none) refl)
        (Quiet-call w job flash refl))

  pub Quiet-flash_phase : Quiet (flash_phase w job)
  unfolding flash_phase terminals
  Quiet-flash_phase = of job.payload_kind
    where
      flashing : Quiet (call w job (emit_state "flashing" none))
      flashing = Quiet-call w job (emit_state "flashing" none) refl

      of :
          (k : Option String)
          → Quiet (elim k as (λ _. Exec Unit) [
            | none ↦ bench_pipeline w job
            | some kind ↦
                if str_eq kind "git-source"
                then call w job (emit_state "flashing" none) >> deploy_git_source w job
                else if not (one_of kind ("fake" ∷ "none" ∷ []))
                then call w job (emit_state "flashing" none) >> call w job flash
                else bench_pipeline w job
          ])
      of none = Quiet-bench
      of (some kind) =
          Quiet-if (str_eq kind "git-source") _ _ (Quiet-then _ _ flashing Quiet-deploy) (
            Quiet-if (not (one_of kind ("fake" ∷ "none" ∷ []))) _ _
              (Quiet-then _ _ flashing (Quiet-call w job flash refl)) Quiet-bench)

  pub Quiet-launch : Quiet (launch_broker w job)
  unfolding launch_broker terminals
  Quiet-launch =
      Quiet-then _ _
        (Quiet-then _ _ (Quiet-call w job launch_protomq refl) (record { at = λ t. refl }))
        (Quiet-call w job (emit_log "protomq") refl)

  pub Quiet-observe : Quiet (start_observing w job)
  unfolding start_observing terminals
  Quiet-observe = record {
    at = λ t.
        after (call w job start_observer t).0 (call w job start_observer t).1
        ∙ (Quiet-call w job start_observer refl).at t;
  }
    where
      after : (r : Reply Unit) (t : Run) → emitted (observer_started w job r t).1 ≡ emitted t
      after (returns _) t = refl
      after raises t = (Quiet-call w job (emit_log "protomq") refl).at t
      after cancelled t = refl

  pub Quiet-run_script : Quiet (run_script w job)
  unfolding run_script terminals
  Quiet-run_script =
      Quiet-if job.has_run _ _
        (Quiet-then _ _
          (Quiet-then _ _
            (Quiet-then _ _ (Quiet-call w job run_adapter refl)
              (Quiet-call w job (emit_log "stdout") refl))
            (Quiet-call w job store_run_log refl))
          (Quiet-pure _))
        (Quiet-pure 0)

  pub Quiet-teardown : Quiet (teardown w job)
  unfolding teardown terminals
  Quiet-teardown = record {
    at = λ t.
        (Quiet-then _ _
            (Quiet-when (still_observing w job t) _
              (Quiet-swallow_all _ (Quiet-call w job stop_observer refl)))
            (Quiet-then _ _
              (Quiet-when (still_capturing w job t) _
                (Quiet-swallow_all _ (Quiet-call w job stop_capture refl)))
              (Quiet-then _ _
                (Quiet-when t.brokering _
                  (Quiet-swallow_all _ (Quiet-call w job stop_protomq refl)))
                (Quiet-then _ _ (Quiet-swallow _ (Quiet-call w job harvest_artifacts refl)) (
                  Quiet-then _ _ (Quiet-swallow _ (Quiet-call w job purge_secrets refl))
                    (Quiet-swallow _ (Quiet-call w job release refl))))))).at
          t;
  }
