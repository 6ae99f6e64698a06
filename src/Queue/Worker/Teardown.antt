-- ===== src/Queue/Worker/Teardown.antt =====
-- Whether a run of queue/worker.py's `_run` gives the adapter back.
use sbc_mcu_dut_controller.Prelude.{
  ℕ, Bool, true, false, ◌||◌, List, [], ◌∷◌, ◌++◌, ◌≡◌, refl, ◌∙◌, ◌≢◌, arith, any, length,
}
use sbc_mcu_dut_controller.Queue.Worker.{
  Call, bind_runtime, harvest_artifacts, purge_secrets, release, Reply, returns, raises, cancelled,
  Run, Exec, World, and_then, ◌>>◌, swallow, Worker, Body, call, swallow_all, protomq_status,
  stop_observer, stop_capture, stop_protomq, when, body, handle, teardown, still_observing,
  still_capturing, finish, guarded, run_inner, stop, done,
}

-- `await self.adapter.release()` has been made.
abbrev is_release : Call → Bool
is_release release = true
is_release _ = false

abbrev pub released : Run → Bool
released t = any is_release t.calls

any-append : (p : Call → Bool) (xs ys : List Call) → any p (xs ++ ys) ≡ (any p xs || any p ys)
any-append p [] ys = refl
any-append p (x ∷ xs) ys = ground (arith, any-append p xs ys)

-- A call keeps what was released.
released-call :
    (w : World) (job : Worker) (c : Call) (t : Run)
    → released (call w job c t).1 ≡ (released t || is_release c)
released-call w job c t = ground (arith, any-append is_release t.calls (c ∷ []))

-- The action neither raises nor is cancelled.
pub record Calm (m : Exec Unit) : Type 0 where
  pub at : (t : Run) → (m t).0 ≡ returns tt

-- It ends with the adapter released.
record Releases {A : Type 0} (m : Exec A) : Type 0 where
  at : (t : Run) → released (m t).1 ≡ true

-- It makes no release undone.
record Keeps {A : Type 0} (m : Exec A) : Type 0 where
  at : (t : Run) → released t ≡ true → released (m t).1 ≡ true

Releases-then : (m n : Exec Unit) → Calm m → Releases n → Releases (m >> n)
Releases-then m n calm rel = record { at = λ t. rw (calm.at t) (rel.at (m t).1) }

pub Calm-then : (m n : Exec Unit) → Calm m → Calm n → Calm (m >> n)
Calm-then m n cm cn = record { at = λ t. rw (cm.at t) (cn.at (m t).1) }

pub Calm-when : (b : Bool) (m : Exec Unit) → Calm m → Calm (when b m)
Calm-when true m c = c
Calm-when false m c = record { at = λ t. refl }

pub Calm-swallow_all : (m : Exec Unit) → Calm (swallow_all m)
Calm-swallow_all m = record { at = λ t. refl }

Keeps-when : (b : Bool) (m : Exec Unit) → Keeps m → Keeps (when b m)
Keeps-when true m k = k
Keeps-when false m k = record { at = λ t h. h }

Keeps-swallow : (m : Exec Unit) → Keeps m → Keeps (swallow m)
Keeps-swallow m k = record { at = k.at }

module _ {A B : Type 0} where
  Keeps-and_then : (r : Reply A) (f : A → Exec B) → ((a : A) → Keeps (f a)) → Keeps (and_then r f)
  Keeps-and_then (returns a) f k = k a
  Keeps-and_then raises f k = record { at = λ t h. h }
  Keeps-and_then cancelled f k = record { at = λ t h. h }

  Keeps-then : (m : Exec A) (n : Exec B) → Keeps m → Keeps n → Keeps (m >> n)
  Keeps-then m n km kn = record {
    at = λ t h. (Keeps-and_then (m t).0 (λ _. n) (λ _. kn)).at (m t).1 (km.at t h);
  }

module _ (w : World) (job : Worker) where
  pub Calm-call : (c : Call) → ((n : ℕ) → w.reply c n ≢ cancelled) → Calm (swallow (call w job c))
  Calm-call c h = record { at = λ t. ground (arith, h (length t.calls)) }

  Keeps-call : (c : Call) → Keeps (call w job c)
  Keeps-call c = record { at = λ t h. released-call w job c t ∙ rw h }

  Keeps-finish : (b : Body) → Keeps (finish w job b)
  unfolding finish
  Keeps-finish (stop r) = record { at = λ t h. h }
  Keeps-finish (done n) = record {
    at = λ t.
        (Keeps-then _ _ (Keeps-when t.observing _ (Keeps-swallow _ (Keeps-call protomq_status)))
            (Keeps-then _ _ (Keeps-call _) (record { at = λ t h. h }))).at
          t;
  }

  Releases-teardown :
      ((n : ℕ) → w.reply harvest_artifacts n ≢ cancelled)
      → ((n : ℕ) → w.reply purge_secrets n ≢ cancelled)
      → Releases (teardown w job)
  unfolding teardown
  Releases-teardown h p = record {
    at = λ t.
        (Releases-then _ _
            (Calm-when (still_observing w job t) _ (Calm-swallow_all (call w job stop_observer)))
            (Releases-then _ _
              (Calm-when (still_capturing w job t) _ (Calm-swallow_all (call w job stop_capture)))
              (Releases-then _ _
                (Calm-when t.brokering _ (Calm-swallow_all (call w job stop_protomq)))
                (Releases-then _ _ (Calm-call harvest_artifacts h) (
                  Releases-then _ _ (Calm-call purge_secrets p)
                    (record { at = λ t. released-call w job release t ∙ ground arith })))))).at
          t;
  }

-- However the job goes, the adapter is released: whatever the adapter, the script, the broker or
-- the handlers answer, `release()` is called, provided that the runtime could be bound and that no
-- cancellation arrives while the artifacts are harvested or the secrets purged.
pub run_inner-released :
    (w : World) (job : Worker)
    → ((n : ℕ) → w.reply bind_runtime n ≡ returns tt)
    → ((n : ℕ) → w.reply harvest_artifacts n ≢ cancelled)
    → ((n : ℕ) → w.reply purge_secrets n ≢ cancelled)
    → (t : Run) → released (run_inner w job t).1 ≡ true
unfolding run_inner guarded
run_inner-released w job b h p t = bound job.has_bind_runtime
  where
    rest : (t₀ : Run) → released (guarded w job t₀).1 ≡ true
    rest t₀ =
        let (tried, t₁) = body w job t₀ in
        let (handled, t₂) = handle w job tried t₁ in
        let (closed, t₃) = teardown w job t₂ in
        (Keeps-and_then closed (λ _. and_then handled (finish w job))
            (λ _. Keeps-and_then handled (finish w job) (Keeps-finish w job))).at
          t₃ ((Releases-teardown w job h p).at t₂)

    bound :
        (has : Bool) → released ((when has (call w job bind_runtime) >> guarded w job) t).1 ≡ true
    bound false = rest t
    bound true = rw (b (length t.calls)) (rest _)

-- It is cancelled before it has released anything.
record Skips (m : Exec Unit) : Type 0 where
  at : (t : Run) → ((m t).0 ≡ cancelled) × (released (m t).1 ≡ released t)

record Leaves (m : Exec Unit) : Type 0 where
  at : (t : Run) → ((m t).0 ≡ returns tt) × (released (m t).1 ≡ released t)

Skips-then : (m n : Exec Unit) → Leaves m → Skips n → Skips (m >> n)
Skips-then m n l s = record {
  at = λ t.
      let (ends, same) = l.at t in let (cut, same') = s.at (m t).1 in rw ends (cut, same' ∙ same);
}

module _ (w : World) (job : Worker) where
  Leaves-when :
      (b : Bool) (c : Call) → is_release c ≡ false → Leaves (when b (swallow_all (call w job c)))
  Leaves-when true c h = record { at = λ t. (refl, released-call w job c t ∙ ground arith) }
  Leaves-when false c h = record { at = λ t. (refl, refl) }

  Skips-cancelled :
      (c : Call) (n : Exec Unit)
      → is_release c ≡ false
      → ((i : ℕ) → w.reply c i ≡ cancelled)
      → Skips (swallow (call w job c) >> n)
  Skips-cancelled c n h cut = record {
    at = λ t. rw (cut (length t.calls)) (refl, released-call w job c t ∙ ground arith);
  }

-- A cancellation that arrives while the finally block harvests the artifacts ends the block there:
-- the reply is the cancellation, and the adapter is not released.
pub teardown_cancelled :
    (w : World) (job : Worker)
    → ((n : ℕ) → w.reply harvest_artifacts n ≡ cancelled)
    → (t : Run) → ((teardown w job t).0 ≡ cancelled) × (released (teardown w job t).1 ≡ released t)
unfolding teardown
teardown_cancelled w job cut t =
    (Skips-then _ _ (Leaves-when w job (still_observing w job t) stop_observer refl) (
        Skips-then _ _ (Leaves-when w job (still_capturing w job t) stop_capture refl) (
          Skips-then _ _ (Leaves-when w job t.brokering stop_protomq refl)
            (Skips-cancelled w job harvest_artifacts _ refl cut)))).at
      t
