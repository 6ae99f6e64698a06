-- ===== src/Queue/Worker/States.antt =====
-- The terminal state with which a run of queue/worker.py's `_run` ends.
use sbc_mcu_dut_controller.Prelude.{
  ℕ, String, true, Option, none, some, [], ◌∷◌, ◌++◌, ◌≡◌, refl, ap, ◌∙◌, if◌then◌else◌, ◌==◌,
  one_of, length, inl, inr, Bool-cases,
}
use sbc_mcu_dut_controller.Queue.Worker.{
  emit_state, emit_log, bind_runtime, acquire, drain_capture, start_capture, protomq_status, Reply,
  returns, raises, cancelled, Run, Exec, World, pure, and_then, ◌>>=◌, ◌>>◌, Worker, WorkerResult,
  terminal_states, Body, stop, done, cancelled_result, error_result, call, run_phase,
  unless_flagged, body, handle, finish, guarded, run_inner,
}
use sbc_mcu_dut_controller.Queue.Worker.Quiet.{
  Quiet-then, terminals, terminals-append, emitted, Quiet, Quiet-call, Quiet-when, Quiet-swallow,
  Quiet-swallow_all, Quiet-flash_phase, Quiet-launch, Quiet-observe, Quiet-run_script,
  Quiet-teardown,
}

-- What the `try` block has emitted: "cancelled" where it returned early, else nothing terminal.
abbrev Ends : Run → Reply Body → Run → Type 0
Ends t (returns (stop r)) t' = (r ≡ cancelled_result) × (emitted t' ≡ emitted t ++ "cancelled" ∷ [])
Ends t _ t' = emitted t' ≡ emitted t

-- What the handlers have emitted besides.
abbrev Handled : Run → Reply Body → Run → Type 0
Handled t (returns (stop r)) t' = emitted t' ≡ emitted t ++ r.state ∷ []
Handled t (returns (done n)) t' = emitted t' ≡ emitted t
Handled t _ t' = Unit

-- A quiet part in front changes nothing.
Ends-after : (r : Reply Body) (t t₁ t₂ : Run) → emitted t₁ ≡ emitted t → Ends t₁ r t₂ → Ends t r t₂
Ends-after (returns (stop x)) t t₁ t₂ e h = (h.0, h.1 ∙ ap (λ z. z ++ "cancelled" ∷ []) e)
Ends-after (returns (done n)) t t₁ t₂ e h = h ∙ e
Ends-after raises t t₁ t₂ e h = h ∙ e
Ends-after cancelled t t₁ t₂ e h = h ∙ e

Ends-bind :
    {A : Type 0} (m : Exec A) (f : A → Exec Body)
    → Quiet m
    → ((a : A) (t : Run) → Ends t (f a t).0 (f a t).1)
    → (t : Run) → Ends t ((m >>= f) t).0 ((m >>= f) t).1
Ends-bind m f q h t = after (m t).0 (m t).1 (q.at t)
  where
    after :
        (r : Reply _) (t₁ : Run)
        → emitted t₁ ≡ emitted t
        → Ends t (and_then r f t₁).0 (and_then r f t₁).1
    after (returns a) t₁ e = Ends-after (f a t₁).0 t t₁ (f a t₁).1 e (h a t₁)
    after raises t₁ e = e
    after cancelled t₁ e = e

module _ (w : World) (job : Worker)
    (emits : (s : String) (r : Option String) (n : ℕ)
      → w.reply (emit_state s r) n ≡ returns tt) where
  -- An emitted state joins the trace.
  emitted-call :
      (s : String) (r : Option String) (t : Run)
      → one_of s terminal_states ≡ true
      → emitted (call w job (emit_state s r) t).1 ≡ emitted t ++ s ∷ []
  unfolding terminals
  emitted-call s r t h = terminals-append t.calls (emit_state s r ∷ []) ∙ rw h

  Ends-unless_flagged :
      (rest : Exec Body)
      → ((t : Run) → Ends t (rest t).0 (rest t).1)
      → (t : Run) → Ends t (unless_flagged w job rest t).0 (unless_flagged w job rest t).1
  Ends-unless_flagged rest h t = elim (Bool-cases (w.flagged (length t.calls))) [
    | inl flagged ↦
        rw (flagged, emits "cancelled" none (length t.calls))
          (refl, emitted-call "cancelled" none t refl)
    | inr clear ↦ rw clear (h t)
  ]

  Ends-run_phase : (t : Run) → Ends t (run_phase w job t).0 (run_phase w job t).1
  unfolding run_phase terminals
  Ends-run_phase = Ends-bind _ _ (Quiet-call w job (emit_state "running" none) refl) λ _.
      Ends-bind _ _ (Quiet-when job.launches_protomq _ (Quiet-launch w job)) λ _.
        Ends-bind _ _ (Quiet-when job.observes _ (Quiet-observe w job)) λ _.
          Ends-bind _ _
            (Quiet-when job.captures _
              (Quiet-then _ _ (Quiet-call w job start_capture refl) (record { at = λ t. refl })))
            λ _. Ends-bind _ _ (Quiet-run_script w job) λ n.
              Ends-bind _ _
                (Quiet-when job.captures _
                  (Quiet-swallow_all _ (Quiet-call w job drain_capture refl)))
                λ _ t. refl

  Ends-body : (t : Run) → Ends t (body w job t).0 (body w job t).1
  unfolding body terminals
  Ends-body = Ends-bind _ _ (Quiet-call w job (emit_state "preparing" none) refl) λ _.
      Ends-bind _ _ (Quiet-call w job acquire refl) λ _.
        Ends-unless_flagged _
          (Ends-bind _ _ (Quiet-flash_phase w job) λ _. Ends-unless_flagged _ Ends-run_phase)

  Handled-handle :
      (t₀ t : Run) (r : Reply Body)
      → Ends t₀ r t
      → Handled t₀ (handle w job r t).0 (handle w job r t).1
  unfolding handle terminals
  Handled-handle t₀ t (returns (stop x)) e = e.1 ∙ rw e.0
  Handled-handle t₀ t (returns (done n)) e = e
  Handled-handle t₀ t cancelled e =
      rw (emits "cancelled" none (length t.calls))
        (emitted-call "cancelled" none t refl ∙ ap (λ z. z ++ "cancelled" ∷ []) e)
  Handled-handle t₀ t raises e = rw (emits "error" none (length t.calls)) (
      logged _ (call w job (emit_state "error" none) t).1
        (emitted-call "error" none t refl ∙ ap (λ z. z ++ "error" ∷ []) e))
    where
      logged :
          (r : Reply Unit) (t₂ : Run)
          → emitted t₂ ≡ emitted t₀ ++ "error" ∷ []
          → let after : Run = (call w job (emit_log "stderr") t₂).1 in
            Handled t₀
              (and_then r (λ _. pure (stop error_result)) after).0
              (and_then r (λ _. pure (stop error_result)) after).1
      logged (returns _) t₂ h = (Quiet-call w job (emit_log "stderr") refl).at t₂ ∙ h
      logged raises t₂ h = tt
      logged cancelled t₂ h = tt

  finish-state :
      (b : Body) (t₀ t₂ t₃ : Run) (r : WorkerResult)
      → Handled t₀ (returns b) t₂
      → emitted t₃ ≡ emitted t₂
      → (finish w job b t₃).0 ≡ returns r
      → emitted (finish w job b t₃).1 ≡ emitted t₀ ++ r.state ∷ []
  unfolding finish terminals
  finish-state (stop x) t₀ t₂ t₃ r h q e =
      let same : x ≡ r = cc in q ∙ h ∙ ap (λ (z : WorkerResult). emitted t₀ ++ z.state ∷ []) same
  finish-state (done n) t₀ t₂ t₃ r h q e =
      announced (if n == 0 then "pass" else "fail") _ _
        ((Quiet-when t₃.observing _ (Quiet-swallow _ (Quiet-call w job protomq_status refl))).at t₃)
        e
    where
      announced :
          (v : String) (x : Reply Unit) (t₄ : Run)
          → emitted t₄ ≡ emitted t₃
          → let last : Exec WorkerResult =
              call w job (emit_state "finished" (some v))
              >> pure (record { state = "finished"; result = v }) in
            (and_then x (λ _. last) t₄).0 ≡ returns r
            → emitted (and_then x (λ _. last) t₄).1 ≡ emitted t₀ ++ r.state ∷ []
      announced v raises t₄ p = λ e. cc
      announced v cancelled t₄ p = λ e. cc
      announced v (returns _) t₄ p = rw (emits "finished" (some v) (length t₄.calls)) λ e.
          let same : record { state = "finished"; result = v } ≡ r = cc in
          emitted-call "finished" (some v) t₄ refl
          ∙ ap (λ z. z ++ "finished" ∷ []) (p ∙ q ∙ h)
          ∙ ap (λ (z : WorkerResult). emitted t₀ ++ z.state ∷ []) same

  -- The teardown may replace the reply; what it leaves goes on to `finish`.
  after_teardown :
      (c : Reply Unit) (handled : Reply Body) (t t₂ t₃ : Run) (r : WorkerResult)
      → Handled t handled t₂
      → emitted t₃ ≡ emitted t₂
      → (and_then c (λ _. and_then handled (finish w job)) t₃).0 ≡ returns r
      → emitted (and_then c (λ _. and_then handled (finish w job)) t₃).1 ≡ emitted t ++ r.state ∷ []
  after_teardown raises handled t t₂ t₃ r h q e = cc
  after_teardown cancelled handled t t₂ t₃ r h q e = cc
  after_teardown (returns _) (returns b) t t₂ t₃ r h q e = finish-state b t t₂ t₃ r h q e
  after_teardown (returns _) raises t t₂ t₃ r h q e = cc
  after_teardown (returns _) cancelled t t₂ t₃ r h q e = cc

  guarded-state :
      (t : Run) (r : WorkerResult)
      → (guarded w job t).0 ≡ returns r
      → emitted (guarded w job t).1 ≡ emitted t ++ r.state ∷ []
  unfolding guarded
  guarded-state t r =
      after_teardown _ _ t _ _ r (Handled-handle t _ _ (Ends-body t)) ((Quiet-teardown w job).at _)

-- Where every emitted state is recorded, a run that returns, by whichever branch, has emitted
-- exactly one terminal state, and it is the state of the result that it returns.
pub run_inner-state :
    (w : World) (job : Worker)
    → ((s : String) (r : Option String) (n : ℕ) → w.reply (emit_state s r) n ≡ returns tt)
    → (t : Run) (r : WorkerResult) → (run_inner w job t).0 ≡ returns r
    → terminals (run_inner w job t).1.calls ≡ terminals t.calls ++ r.state ∷ []
unfolding run_inner terminals
run_inner-state w job emits t r =
    bound _ _ ((Quiet-when job.has_bind_runtime _ (Quiet-call w job bind_runtime refl)).at t)
  where
    bound :
        (x : Reply Unit) (t₀ : Run)
        → emitted t₀ ≡ emitted t
        → (and_then x (λ _. guarded w job) t₀).0 ≡ returns r
        → emitted (and_then x (λ _. guarded w job) t₀).1 ≡ emitted t ++ r.state ∷ []
    bound raises t₀ q e = cc
    bound cancelled t₀ q e = cc
    bound (returns _) t₀ q e = guarded-state w job emits t₀ r e ∙ ap (λ z. z ++ r.state ∷ []) q
