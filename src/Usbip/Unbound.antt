-- ===== src/Usbip/Unbound.antt =====
-- The end of a use of the device in src/hil_controller/adapters/usbip_bridge.py.
use sbc_mcu_dut_controller.Prelude.{
  String, true, false, Option, List, [], ◌∷◌, ◌++◌, ◌≡◌, refl, ◌∙◌, ap, length, ◌⊎◌, inl, inr,
}
use sbc_mcu_dut_controller.Usbip.Bridge.{
  Call, usbip_unbind, Reply, answers, fails, cancelled, Result, got, raised, stopped, World, M,
  pure, continue, ◌>>=◌, ◌>>◌, caught, best_effort, finally, UsbipBridge, replied, exec, checked,
  run, unbind, detach, teardown, borrowed, prepared, attached,
}

-- The trace ends with the call.
abbrev pub EndsWith : Call → List Call → Type 0
EndsWith c t = (before : List Call) × (t ≡ before ++ c ∷ [])

module _ {A B : Type 0} where
  bind-got :
      (m : M A) (t : List Call) (a : A)
      → (m t).0 ≡ got a
      → (f : A → M B) → (m >>= f) t ≡ f a (m t).1
  unfolding ◌>>=◌
  bind-got m t a h f = ap (λ r. continue r f (m t).1) h

-- What is done with the result of a call adds nothing to the trace.
then-trace : {A B : Type 0} (m : M A) (b : B) (t : List Call) → ((m >> pure b) t).1 ≡ (m t).1
unfolding ◌>>=◌
then-trace {A} {B} m b t = of (m t).0
  where
    of : (r : Result A) → (continue r (λ _. pure b) (m t).1).1 ≡ (m t).1
    of (got a) = refl
    of raised = refl
    of stopped = refl

module _ (world : World) (b : UsbipBridge) where
  run-trace : (c : Call) (t : List Call) → (run world c false t).1 ≡ t ++ c ∷ []
  unfolding run exec ◌>>=◌
  run-trace c t = of (world (length t) c)
    where
      of : (r : Reply) → (continue (replied r) (checked world false) (t ++ c ∷ [])).1 ≡ t ++ c ∷ []
      of (answers r) = refl
      of fails = refl
      of cancelled = refl

  unbind-EndsWith :
      (t : List Call)
      → b.bind_required ≡ true
      → EndsWith (usbip_unbind b.busid) (best_effort (unbind world b) t).1
  unfolding best_effort unbind
  unbind-EndsWith t bound = (
    t,
    rw bound (
        then-trace (run world (usbip_unbind b.busid) false) tt t
        ∙ run-trace (usbip_unbind b.busid) t),
  )

  teardown-EndsWith :
      (t : List Call)
      → b.bind_required ≡ true
      → EndsWith (usbip_unbind b.busid) (teardown world b t).1
        ⊎ ((detach world b false t).0 ≡ stopped)
  unfolding teardown best_effort ◌>>=◌
  teardown-EndsWith t bound = of (detach world b false t).0 refl
    where
      u : List Call
      u = (detach world b false t).1

      of :
          (r : Result Unit)
          → (detach world b false t).0 ≡ r
          → EndsWith
              (usbip_unbind b.busid)
              (continue (caught r) (λ _. best_effort (unbind world b)) u).1
            ⊎ ((detach world b false t).0 ≡ stopped)
      of (got a) e = inl (unbind-EndsWith u bound)
      of raised e = inl (unbind-EndsWith u bound)
      of stopped e = inr e

  -- Once the device is bound, a use of it ends with `usbip unbind`, whatever the commands answer or raise
  -- and however its body ends, provided that the server needs the bind and that no cancellation arrives
  -- in the `detach` of the teardown.
  pub attached-EndsWith :
      {A : Type 0} (body : Option String → M A) (t : List Call) (ports : List String)
      → b.bind_required ≡ true
      → (prepared world b t).0 ≡ got ports
      → EndsWith (usbip_unbind b.busid) (attached world b body t).1
        ⊎ ((detach world b false (borrowed world b body ports (prepared world b t).1).1).0
            ≡ stopped)
  unfolding attached finally
  attached-EndsWith body t ports bound h =
      rw
        (bind-got (prepared world b) t ports h
          (λ before. finally (borrowed world b body before) (teardown world b)))
        (teardown-EndsWith (borrowed world b body ports (prepared world b t).1).1 bound)
