-- ===== src/Registry/Register.antt =====
-- RegisterConsumerYamux of internal/broker/endpoint.go takes its two locks one after the other, so other
-- calls may come between its lookup and its change.
use http_broker.Base.{
  ℕ, ◌<◌, ◌≡◌, refl, inl, inr, Bool, some, List, [], ◌∷◌, Bytes, if◌then◌else◌, Bool-cases,
  Option-cases, arith, lookup, insert,
}
use http_broker.Registry.Defs.{
  BrokerSession, Endpoint, Registry, is_nil, points_to, delete_if_empty, store,
}
use http_broker.Registry.Ops.{
  set_provider, add_consumer, remove_provider, forget, forget_session, register_consumer_yamux,
  unregister_consumer_yamux, wait_begin, wait_end, owned_by_other,
}
use http_broker.Registry.Soundness.{IsSound, created}
use http_broker.Registry.View.{view, got, full, made, get_or_create-GotOrMade}
use http_broker.Registry.System.{System, AreConsistent}
use http_broker.Registry.Waiters.{
  Call, set_provider_call, add_consumer_call, remove_provider_call, forget_call, register_call,
  unregister_call, wait_begin_call, wait_end_call, step, run, noted, pick, run-AreConsistent,
}

-- The change, at the endpoint that the lookup found.
unfoldable pub register_at : Registry → ℕ → Bytes → ℕ → Registry
register_at r p session_id ys =
    let ep = r.heap p in
    store r p
      (record ep { consumer_yamux_sessions = insert session_id ys ep.consumer_yamux_sessions })

-- An address is in use for an endpoint of this name, in the table or not.
abbrev IsNamed : Bytes → ℕ → Registry → Type 0
IsNamed n p r = (p < r.next) × ((r.heap p).name ≡ n)

module _ (n : Bytes) (p : ℕ) where
  store-IsNamed :
      (r : Registry) (q : ℕ) (ep : Endpoint)
      → IsNamed n p r
      → ep.name ≡ (r.heap q).name
      → IsNamed n p (store r q ep)
  store-IsNamed r q ep h same = (h.0, ground (arith, h.1, same))

  delete_if_empty-IsNamed :
      (r : Registry) (m : Bytes) (q : ℕ) → IsNamed n p r → IsNamed n p (delete_if_empty r m q)
  unfolding delete_if_empty
  delete_if_empty-IsNamed r m q h = (ground (arith, h.0), ground (arith, h.1))

  created-IsNamed : (r : Registry) (m : Bytes) → IsNamed n p r → IsNamed n p (created r m)
  unfolding created
  created-IsNamed r m h = (omega (arith, h.0), ground (arith, h.0, h.1))

  tidied-IsNamed :
      (r : Registry) (m : Bytes) (q : ℕ) (ep : Endpoint)
      → IsNamed n p r
      → ep.name ≡ (r.heap q).name
      → IsNamed n p (delete_if_empty (store r q ep) m q)
  tidied-IsNamed r m q ep h same =
      delete_if_empty-IsNamed (store r q ep) m q (store-IsNamed r q ep h same)

  module _ (resumable : BrokerSession → Bool) where
    set_provider-IsNamed :
        (r : Registry) (m : Bytes) (s : BrokerSession) (ys : ℕ)
        → IsNamed n p r
        → IsNamed n p (set_provider resumable r m s ys).registry
    unfolding set_provider
    set_provider-IsNamed r m s ys h = elim (get_or_create-GotOrMade r m) [
      | full e l g ↦ rw (g, set_provider) h
      | got q e g ↦ elim (Bool-cases (is_nil (r.heap q).provider_session)) [
        | inr t ↦ rw (g, t, set_provider) h
        | inl t ↦ rw (g, t, set_provider) (store-IsNamed r q _ h refl)
      ]
      | made e l g ↦
          let w = created-IsNamed r m h in
          elim (Bool-cases (is_nil ((created r m).heap r.next).provider_session)) [
            | inr t ↦ rw (g, t, set_provider) w
            | inl t ↦ rw (g, t, set_provider) (store-IsNamed (created r m) r.next _ w refl)
          ]
    ]

    add_consumer-IsNamed :
        (r : Registry) (m : Bytes) (s : BrokerSession)
        → IsNamed n p r
        → IsNamed n p (add_consumer resumable r m s).registry
    unfolding add_consumer
    add_consumer-IsNamed r m s h = elim (get_or_create-GotOrMade r m) [
      | full e l g ↦ rw (g, add_consumer) h
      | got q e g ↦ rw (g, add_consumer) (store-IsNamed r q _ h refl)
      | made e l g ↦
          rw (g, add_consumer) (store-IsNamed (created r m) r.next _ (created-IsNamed r m h) refl)
    ]

  remove_provider-IsNamed :
      (r : Registry) (m id : Bytes) → IsNamed n p r → IsNamed n p (remove_provider r m id).0
  unfolding remove_provider
  remove_provider-IsNamed r m id h = elim (Option-cases (lookup m r.endpoints)) [
    | inl e ↦ rw (e, remove_provider) h
    | inr (q, e) ↦ elim (Bool-cases (owned_by_other (r.heap q).provider_session id)) [
      | inl t ↦ rw (e, t, remove_provider) h
      | inr t ↦ rw (e, t, remove_provider) (tidied-IsNamed r m q _ h refl)
    ]
  ]

  forget-IsNamed :
      (r : Registry) (id role m : Bytes) → IsNamed n p r → IsNamed n p (forget r id role m)
  unfolding forget forget_session
  forget-IsNamed r id role m h = elim (Option-cases (lookup m r.endpoints)) [
    | inl e ↦ rw (e, forget) h
    | inr (q, e) ↦
        rw (e, forget) (tidied-IsNamed r m q (forget_session (r.heap q) id role) h (ground arith))
  ]

  register_consumer_yamux-IsNamed :
      (r : Registry) (m id : Bytes) (ys : ℕ)
      → IsNamed n p r
      → IsNamed n p (register_consumer_yamux r m id ys)
  unfolding register_consumer_yamux
  register_consumer_yamux-IsNamed r m id ys h = elim (Option-cases (lookup m r.endpoints)) [
    | inl e ↦ rw (e, register_consumer_yamux) h
    | inr (q, e) ↦ rw (e, register_consumer_yamux) (store-IsNamed r q _ h refl)
  ]

  unregister_consumer_yamux-IsNamed :
      (r : Registry) (m id : Bytes) → IsNamed n p r → IsNamed n p (unregister_consumer_yamux r m id)
  unfolding unregister_consumer_yamux
  unregister_consumer_yamux-IsNamed r m id h = elim (Option-cases (lookup m r.endpoints)) [
    | inl e ↦ rw (e, unregister_consumer_yamux) h
    | inr (q, e) ↦ rw (e, unregister_consumer_yamux) (tidied-IsNamed r m q _ h refl)
  ]

  wait_begin-IsNamed :
      (s : System) (m : Bytes)
      → IsNamed n p s.registry
      → IsNamed n p (noted s.waiting m (wait_begin s.registry m)).registry
  unfolding wait_begin
  wait_begin-IsNamed s m h = elim (get_or_create-GotOrMade s.registry m) [
    | full e l g ↦ rw (g, wait_begin) h
    | got q e g ↦ rw (g, wait_begin) (store-IsNamed s.registry q _ h refl)
    | made e l g ↦
        rw (g, wait_begin)
          (store-IsNamed (created s.registry m) s.registry.next _ (created-IsNamed s.registry m h)
            refl)
  ]

  module _ (resumable : BrokerSession → Bool) where
    step-IsNamed :
        (s : System) (c : Call) → IsNamed n p s.registry → IsNamed n p (step resumable s c).registry
    unfolding step wait_end
    step-IsNamed s (set_provider_call m b ys) h = set_provider-IsNamed resumable s.registry m b ys h
    step-IsNamed s (add_consumer_call m b) h = add_consumer-IsNamed resumable s.registry m b h
    step-IsNamed s (remove_provider_call m id) h = remove_provider-IsNamed s.registry m id h
    step-IsNamed s (forget_call id role m) h = forget-IsNamed s.registry id role m h
    step-IsNamed s (register_call m id ys) h = register_consumer_yamux-IsNamed s.registry m id ys h
    step-IsNamed s (unregister_call m id) h = unregister_consumer_yamux-IsNamed s.registry m id h
    step-IsNamed s (wait_begin_call m) h = wait_begin-IsNamed s m h
    step-IsNamed s (wait_end_call i) h = elim (Option-cases (pick i s.waiting)) [
      | inl e ↦ rw (e, step) h
      | inr (((m, q), ws), e) ↦ rw (e, step, wait_end) (tidied-IsNamed s.registry m q _ h refl)
    ]

    run-IsNamed :
        (s : System) (cs : List Call)
        → IsNamed n p s.registry
        → IsNamed n p (run resumable s cs).registry
    unfolding run
    run-IsNamed s [] h = h
    run-IsNamed s (c ∷ cs) h = run-IsNamed (step resumable s c) cs (step-IsNamed s c h)

-- The change at an endpoint that has left the table is seen under no name.
view-register_at :
    (r : Registry) (n m : Bytes) (p : ℕ) (id : Bytes) (ys : ℕ)
    → IsSound r
    → IsNamed n p r
    → view (register_at r p id ys) m ≡ (
        if points_to (lookup n r.endpoints) p
        then view (register_consumer_yamux r n id ys) m
        else view r m)
unfolding view register_at register_consumer_yamux points_to
view-register_at r n m p id ys v h = elim (Option-cases (lookup m r.endpoints)) [
  | inl e ↦ ground (arith, e)
  | inr (q, e) ↦ ground (arith, e, v.named m q e, h.1)
]

-- In a consistent system, a registration of a consumer's yamux session that has found its endpoint, after
-- any calls in between, in any order and with any number of waiting streams: if the name still leads to
-- that endpoint, every name is seen as after RegisterConsumerYamux as one step at that time; else the
-- registration is lost, and every name is seen as before it.
pub late_register :
    (resumable : BrokerSession → Bool) (s : System) (cs : List Call) (n m : Bytes) (p : ℕ)
    (id : Bytes) (ys : ℕ)
    → AreConsistent s
    → lookup n s.registry.endpoints ≡ some p
    → let r = (run resumable s cs).registry in
      view (register_at r p id ys) m ≡ (
        if points_to (lookup n r.endpoints) p
        then view (register_consumer_yamux r n id ys) m
        else view r m)
late_register resumable s cs n m p id ys v e =
    view-register_at (run resumable s cs).registry n m p id ys
      (run-AreConsistent resumable s cs v).sound
      (run-IsNamed n p resumable s cs (v.sound.allocated n p e, v.sound.named n p e))
