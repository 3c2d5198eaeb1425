-- ===== src/Registry/Stays.antt =====
-- A provider of internal/broker/endpoint.go stays until its own session leaves.
use http_broker.Base.{
  ℕ, ◌≡◌, ◌≢◌, ◌⊎◌, sym, ap, ◌∙◌, inl, inr, Bool, none, some, List, [], ◌∷◌, Bytes, bytes_eq_iff,
  Bool-cases, Option-cases, arith, lookup, All, ◌==◌, lookup-delete, lookup-insert,
}
use http_broker.Registry.Defs.{
  BrokerSession, Endpoint, Registry, is_nil, is_unused, points_to, delete_if_empty, store,
}
use http_broker.Registry.Ops.{
  set_provider, add_consumer, remove_provider, forget, forget_session, register_consumer_yamux,
  unregister_consumer_yamux, wait_begin, wait_end, owned_by_other,
}
use http_broker.Registry.Soundness.{IsSound, created}
use http_broker.Registry.View.{view, got, full, made, get_or_create-GotOrMade}
use http_broker.Registry.System.{System, AreConsistent}
use http_broker.Registry.Waiters.{
  Call, set_provider_call, add_consumer_call, remove_provider_call, forget_call, register_call,
  unregister_call, wait_begin_call, wait_end_call, step, run, noted, pick, step-AreConsistent,
}

-- The name leads to the endpoint at `p`, whose provider is `b`.
abbrev pub IsServed : Bytes → ℕ → BrokerSession → Registry → Type 0
IsServed n p b r = (lookup n r.endpoints ≡ some p) × ((r.heap p).provider_session ≡ some b)

module _ (n : Bytes) (p : ℕ) (b : BrokerSession) where
  store-IsServed :
      (r : Registry) (q : ℕ) (ep : Endpoint)
      → IsServed n p b r
      → (q ≡ p → ep.provider_session ≡ some b)
      → IsServed n p b (store r q ep)
  store-IsServed r q ep h same = elim (Bool-cases (q == p)) [
    | inl e ↦ (h.0, ground (arith, e, same (ground (arith, e))))
    | inr e ↦ (h.0, ground (arith, e, h.1))
  ]

  delete_if_empty-IsServed :
      (r : Registry) (m : Bytes) (q : ℕ) → IsServed n p b r → IsServed n p b (delete_if_empty r m q)
  unfolding delete_if_empty is_unused points_to
  delete_if_empty-IsServed r m q h = (
    ground (arith, h.0, h.1, lookup-delete m n r.endpoints, bytes_eq_iff m n),
    ground (arith, h.1),
  )

  created-IsServed :
      (r : Registry) (m : Bytes)
      → IsSound r
      → lookup m r.endpoints ≡ none
      → IsServed n p b r
      → IsServed n p b (created r m)
  unfolding created
  created-IsServed r m v e h = (
    ground (arith, h.0, e, lookup-insert m n r.next r.endpoints, bytes_eq_iff m n),
    ground (arith, h.1, v.allocated n p h.0),
  )

  -- A change of another endpoint, or one that leaves the provider.
  spared :
      (r : Registry) (m : Bytes) (q : ℕ)
      → IsSound r
      → IsServed n p b r
      → lookup m r.endpoints ≡ some q
      → (m ≢ n)
      → q ≢ p
  spared r m q v h e k same =
      k (sym (v.named m q e) ∙ ap (λ u. (r.heap u).name) same ∙ v.named n p h.0)

  forget_session-keeps :
      (ep : Endpoint) (id role : Bytes)
      → ep.provider_session ≡ some b
      → b.id ≢ id
      → (forget_session ep id role).provider_session ≡ some b
  unfolding forget_session owned_by_other
  forget_session-keeps ep id role h k = ground (arith, h, bytes_eq_iff b.id id)

  module _ (resumable : BrokerSession → Bool) where
    set_provider-IsServed :
        (r : Registry) (m : Bytes) (s : BrokerSession) (ys : ℕ)
        → IsSound r
        → IsServed n p b r
        → IsServed n p b (set_provider resumable r m s ys).registry
    unfolding set_provider
    set_provider-IsServed r m s ys v h = elim (get_or_create-GotOrMade r m) [
      | full e l g ↦ rw (g, set_provider) h
      | got q e g ↦ elim (Bool-cases (is_nil (r.heap q).provider_session)) [
        | inr t ↦ rw (g, t, set_provider) h
        | inl t ↦
            rw (g, t, set_provider) (store-IsServed r q _ h (λ same. absurd (cc (t, h.1, same))))
      ]
      | made e l g ↦
          let w = created-IsServed r m v e h in
          elim (Bool-cases (is_nil ((created r m).heap r.next).provider_session)) [
            | inr t ↦ rw (g, t, set_provider) w
            | inl t ↦
                rw (g, t, set_provider)
                  (store-IsServed (created r m) r.next _ w
                    (λ same. absurd (omega (arith, v.allocated n p h.0, same))))
          ]
    ]

    add_consumer-IsServed :
        (r : Registry) (m : Bytes) (s : BrokerSession)
        → IsSound r
        → IsServed n p b r
        → IsServed n p b (add_consumer resumable r m s).registry
    unfolding add_consumer
    add_consumer-IsServed r m s v h = elim (get_or_create-GotOrMade r m) [
      | full e l g ↦ rw (g, add_consumer) h
      | got q e g ↦
          rw (g, add_consumer)
            (store-IsServed r q _ h (λ same. ap (λ u. (r.heap u).provider_session) same ∙ h.1))
      | made e l g ↦
          rw (g, add_consumer)
            (store-IsServed (created r m) r.next _ (created-IsServed r m v e h)
              (λ same. absurd (omega (arith, v.allocated n p h.0, same))))
    ]

  remove_provider-IsServed :
      (r : Registry) (m id : Bytes)
      → IsSound r
      → IsServed n p b r
      → (m ≢ n) ⊎ (b.id ≢ id)
      → IsServed n p b (remove_provider r m id).0
  unfolding remove_provider
  remove_provider-IsServed r m id v h k = elim (Option-cases (lookup m r.endpoints)) [
    | inl e ↦ rw (e, remove_provider) h
    | inr (q, e) ↦ elim (Bool-cases (owned_by_other (r.heap q).provider_session id)) [
      | inl t ↦ rw (e, t, remove_provider) h
      | inr t ↦
          rw (e, t, remove_provider)
            (delete_if_empty-IsServed _ m q (
              store-IsServed r q _ h (λ same. absurd (elim k [
                | inl away ↦ spared r m q v h e away same
                | inr other ↦
                    unfold owned_by_other in
                    ground (
                      arith,
                      ap (λ u. (r.heap u).provider_session) same ∙ h.1,
                      t,
                      bytes_eq_iff b.id id,
                    )
              ]))))
    ]
  ]

  forget-IsServed :
      (r : Registry) (id role m : Bytes)
      → IsSound r
      → IsServed n p b r
      → (m ≢ n) ⊎ (b.id ≢ id)
      → IsServed n p b (forget r id role m)
  unfolding forget
  forget-IsServed r id role m v h k = elim (Option-cases (lookup m r.endpoints)) [
    | inl e ↦ rw (e, forget) h
    | inr (q, e) ↦
        rw (e, forget)
          (delete_if_empty-IsServed _ m q (
            store-IsServed r q _ h (λ same. elim k [
              | inl away ↦ absurd (spared r m q v h e away same)
              | inr other ↦
                  forget_session-keeps (r.heap q) id role
                    (ap (λ u. (r.heap u).provider_session) same ∙ h.1) other
            ])))
  ]

  register-IsServed :
      (r : Registry) (m id : Bytes) (ys : ℕ)
      → IsServed n p b r
      → IsServed n p b (register_consumer_yamux r m id ys)
  unfolding register_consumer_yamux
  register-IsServed r m id ys h = elim (Option-cases (lookup m r.endpoints)) [
    | inl e ↦ rw (e, register_consumer_yamux) h
    | inr (q, e) ↦
        rw (e, register_consumer_yamux)
          (store-IsServed r q _ h (λ same. ap (λ u. (r.heap u).provider_session) same ∙ h.1))
  ]

  unregister-IsServed :
      (r : Registry) (m id : Bytes)
      → IsServed n p b r
      → IsServed n p b (unregister_consumer_yamux r m id)
  unfolding unregister_consumer_yamux
  unregister-IsServed r m id h = elim (Option-cases (lookup m r.endpoints)) [
    | inl e ↦ rw (e, unregister_consumer_yamux) h
    | inr (q, e) ↦
        rw (e, unregister_consumer_yamux)
          (delete_if_empty-IsServed _ m q
            (store-IsServed r q _ h (λ same. ap (λ u. (r.heap u).provider_session) same ∙ h.1)))
  ]

  wait_begin-IsServed :
      (s : System) (m : Bytes)
      → IsSound s.registry
      → IsServed n p b s.registry
      → IsServed n p b (noted s.waiting m (wait_begin s.registry m)).registry
  unfolding wait_begin
  wait_begin-IsServed s m v h =
      let r = s.registry in
      elim (get_or_create-GotOrMade r m) [
        | full e l g ↦ rw (g, wait_begin) h
        | got q e g ↦
            rw (g, wait_begin)
              (store-IsServed r q _ h (λ same. ap (λ u. (r.heap u).provider_session) same ∙ h.1))
        | made e l g ↦
            rw (g, wait_begin)
              (store-IsServed (created r m) r.next _ (created-IsServed r m v e h)
                (λ same. absurd (omega (arith, v.allocated n p h.0, same))))
      ]

-- A call that is not the provider's own leaving.
abbrev pub Spares : Bytes → BrokerSession → Call → Type 0
Spares n b (remove_provider_call m id) = (m ≢ n) ⊎ (b.id ≢ id)
Spares n b (forget_call id role m) = (m ≢ n) ⊎ (b.id ≢ id)
Spares n b c = Unit

module _ (resumable : BrokerSession → Bool) (n : Bytes) (p : ℕ) (b : BrokerSession) where
  step-IsServed :
      (s : System) (c : Call)
      → AreConsistent s
      → IsServed n p b s.registry
      → Spares n b c
      → IsServed n p b (step resumable s c).registry
  unfolding step wait_end
  step-IsServed s (set_provider_call m t ys) v h k =
      set_provider-IsServed n p b resumable s.registry m t ys v.sound h
  step-IsServed s (add_consumer_call m t) v h k =
      add_consumer-IsServed n p b resumable s.registry m t v.sound h
  step-IsServed s (remove_provider_call m id) v h k =
      remove_provider-IsServed n p b s.registry m id v.sound h k
  step-IsServed s (forget_call id role m) v h k =
      forget-IsServed n p b s.registry id role m v.sound h k
  step-IsServed s (register_call m id ys) v h k = register-IsServed n p b s.registry m id ys h
  step-IsServed s (unregister_call m id) v h k = unregister-IsServed n p b s.registry m id h
  step-IsServed s (wait_begin_call m) v h k = wait_begin-IsServed n p b s m v.sound h
  step-IsServed s (wait_end_call i) v h k = elim (Option-cases (pick i s.waiting)) [
    | inl e ↦ rw (e, step) h
    | inr (((m, q), ws), e) ↦
        rw (e, step)
          (delete_if_empty-IsServed n p b _ m q (
            store-IsServed n p b s.registry q _ h
              (λ same. ap (λ u. (s.registry.heap u).provider_session) same ∙ h.1)))
  ]

  run-IsServed :
      (s : System) (cs : List Call)
      → AreConsistent s
      → IsServed n p b s.registry
      → All (Spares n b) cs
      → IsServed n p b (run resumable s cs).registry
  unfolding run
  run-IsServed s [] v h k = h
  run-IsServed s (c ∷ cs) v h k =
      run-IsServed (step resumable s c) cs (step-AreConsistent resumable s c v)
        (step-IsServed s c v h k.0) k.1

-- In a consistent system, a session that is the provider of an endpoint is still its provider after any
-- calls, in any order and from whatever sessions, among which there is no `RemoveProvider` and no `Forget`
-- with both that name and that session's id.
pub provider_stays :
    (resumable : BrokerSession → Bool) (s : System) (cs : List Call) (n : Bytes) (ep : Endpoint)
    (b : BrokerSession)
    → AreConsistent s
    → view s.registry n ≡ some ep
    → ep.provider_session ≡ some b
    → All (Spares n b) cs
    → (later : Endpoint) × (view (run resumable s cs).registry n ≡ some later)
      × (later.provider_session ≡ some b)
unfolding view
provider_stays resumable s cs n ep b v e h k = elim (Option-cases (lookup n s.registry.endpoints)) [
  | inl f ↦ absurd (ground arith)
  | inr (p, f) ↦
      let stays = run-IsServed resumable n p b s cs v (f, ground (arith, f)) k in
      ((run resumable s cs).registry.heap p, ground (arith, stays.0), stays.1)
]
