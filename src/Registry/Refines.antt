-- ===== src/Registry/Refines.antt =====
-- The pointers, the table and the locked methods of internal/broker/endpoint.go keep the promise of
-- Registry/Spec: no caller can tell them from a plain directory.
use http_broker.Base.{ℕ, ◌≡◌, refl, ap, ◌∙◌, inl, inr, Bool, List, [], ◌∷◌, Option-cases, arith}
use http_broker.Registry.Defs.{BrokerSession, new_endpoint_registry}
use http_broker.Registry.System.{System, AreConsistent}
use http_broker.Registry.Waiters.{
  Call, set_provider_call, add_consumer_call, remove_provider_call, forget_call, register_call,
  unregister_call, wait_begin_call, wait_end_call, step, run, started, pick, step-AreConsistent,
  started-AreConsistent, pick-AreHeld,
}
use http_broker.Registry.Spec.{nothing, on_directory, promise, promises}
use http_broker.Registry.Flatten.{entries}
use http_broker.Registry.Abstraction.{names, abstraction, answer, answers}
use http_broker.Registry.Methods.{
  set_provider-provide, add_consumer-consume, remove_provider-depart, forget-alter,
  unregister-alter, register-insert, wait_begin-await, pick-pick_name, wait_end-alter,
}

module _ (resumable : BrokerSession → Bool) where
  wait_end-promise :
      (s : System) (i : ℕ)
      → AreConsistent s
      → promise resumable (abstraction s) (wait_end_call i)
        ≡ (abstraction (step resumable s (wait_end_call i)), nothing)
  unfolding promise step
  wait_end-promise s i v = elim (Option-cases (pick i s.waiting)) [
    | inl e ↦ ground (arith, e, pick-pick_name i s.waiting)
    | inr (((n, p), ws), e) ↦ ground (
      arith,
      e,
      pick-pick_name i s.waiting,
      wait_end-alter s.registry n p v.sound (pick-AreHeld s.registry i s.waiting n p ws e v.held).0,
    )
  ]

  -- One call, on a consistent system.
  pub step-promise :
      (s : System) (c : Call)
      → AreConsistent s
      → promise resumable (abstraction s) c
        ≡ (abstraction (step resumable s c), answer resumable s c)
  unfolding promise step answer
  step-promise s (set_provider_call n b ys) v =
      ap (on_directory (abstraction s)) (set_provider-provide resumable s.registry n b ys v.sound)
  step-promise s (add_consumer_call n b) v =
      ap (on_directory (abstraction s)) (add_consumer-consume resumable s.registry n b v.sound)
  step-promise s (remove_provider_call n id) v =
      ap (on_directory (abstraction s)) (remove_provider-depart s.registry n id v.sound)
  step-promise s (forget_call id role n) v =
      ap (λ d. on_directory (abstraction s) (d, nothing))
        (forget-alter s.registry id role n v.sound)
  step-promise s (register_call n id ys) v =
      ap (λ d. on_directory (abstraction s) (d, nothing))
        (register-insert s.registry n id ys v.sound)
  step-promise s (unregister_call n id) v =
      ap (λ d. on_directory (abstraction s) (d, nothing)) (unregister-alter s.registry n id v.sound)
  step-promise s (wait_begin_call n) v = wait_begin-await resumable s n v.sound
  step-promise s (wait_end_call i) v = wait_end-promise s i v

  run-promises_from :
      (s : System) (cs : List Call)
      → AreConsistent s
      → promises resumable (abstraction s) cs
        ≡ (abstraction (run resumable s cs), answers resumable s cs)
  unfolding promises run answers
  run-promises_from s [] v = refl
  run-promises_from s (c ∷ cs) v =
      let one = step-promise s c v in
      let more = run-promises_from (step resumable s c) cs (step-AreConsistent resumable s c v) in
      ap (λ u. let rest = promises resumable u.0 cs in (rest.0, u.1 ∷ rest.1)) one
      ∙ ap (λ u. (u.0, answer resumable s c ∷ u.1)) more

  -- Any calls on a new registry, in any order and with any number of waiting streams, whatever `Resumable`
  -- answers: every call answers what the directory of Registry/Spec answers, and the registry without its
  -- addresses is that directory, with the same streams waiting for the same names.
  pub run-promises :
      (cs : List Call)
      → promises resumable (record { directory = []; waiting = [] }) cs
        ≡ (abstraction (run resumable started cs), answers resumable started cs)
  unfolding new_endpoint_registry entries names
  run-promises cs = run-promises_from started cs started-AreConsistent
