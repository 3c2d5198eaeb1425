-- ===== src/Server/Names.antt =====
-- The names in the broker's table: only those that authenticateConnect of internal/broker/server.go lets
-- through.
use http_broker.Base.{
  ℕ, ◌≡◌, inl, inr, Bool, true, false, none, some, List, [], ◌∷◌, Bytes, bytes_eq, Bool-cases,
  Option-cases, lookup, All, All-append,
}
use http_broker.Registry.Defs.{BrokerSession, Registry, is_nil, new_endpoint_registry}
use http_broker.Registry.Ops.{
  provider, set_provider, add_consumer, remove_provider, forget, register_consumer_yamux,
  unregister_consumer_yamux, wait_begin, wait_end, owned_by_other,
}
use http_broker.Registry.View.{got, full, made, get_or_create-GotOrMade}
use http_broker.Registry.Soundness.{created}
use http_broker.Registry.System.{System, AreConsistent}
use http_broker.Registry.Waiters.{
  Call, set_provider_call, add_consumer_call, remove_provider_call, forget_call, register_call,
  unregister_call, wait_begin_call, wait_end_call, step, run, started, noted, pick,
  run-started-AreConsistent,
}
use http_broker.Server.Connect.{authenticate_connect}
use http_broker.Server.Relay.{no_yamux, not_registered, registered}
use http_broker.Server.Broker.{
  Event, connects, disconnects, provider_starts, provider_ends, consumer_starts, consumer_ends,
  stream_waits, stream_leaves, session_of, history, calls_of, history_calls, history-run, IsName,
  AreNamed, insert-AreNamed, delete_if_empty-AreNamed, authenticate_connect-IsName,
}

-- A session that `authenticateConnect` let through.
abbrev pub IsAdmitted : Event → Type 0
IsAdmitted e = authenticate_connect (session_of e).role (session_of e).endpoint ≡ none

-- The name under which a call may make an endpoint.
abbrev MayMake : Call → Type 0
MayMake (set_provider_call n b ys) = IsName n
MayMake (add_consumer_call n b) = IsName n
MayMake (wait_begin_call n) = IsName n
MayMake c = Unit

module _ (resumable : BrokerSession → Bool) where
  set_provider-AreNamed :
      (r : Registry) (n : Bytes) (b : BrokerSession) (ys : ℕ)
      → IsName n
      → AreNamed r.endpoints
      → AreNamed (set_provider resumable r n b ys).registry.endpoints
  unfolding set_provider created
  set_provider-AreNamed r n b ys v a = elim (get_or_create-GotOrMade r n) [
    | full e l g ↦ rw (g, set_provider) a
    | got p e g ↦ elim (Bool-cases (is_nil (r.heap p).provider_session)) [
      | inl t ↦ rw (g, t, set_provider) a
      | inr t ↦ rw (g, t, set_provider) a
    ]
    | made e l g ↦ elim (Bool-cases (is_nil ((created r n).heap r.next).provider_session)) [
      | inl t ↦ rw (g, t, set_provider) (insert-AreNamed n r.next r.endpoints v a)
      | inr t ↦ rw (g, t, set_provider) (insert-AreNamed n r.next r.endpoints v a)
    ]
  ]

  add_consumer-AreNamed :
      (r : Registry) (n : Bytes) (b : BrokerSession)
      → IsName n
      → AreNamed r.endpoints
      → AreNamed (add_consumer resumable r n b).registry.endpoints
  unfolding add_consumer created
  add_consumer-AreNamed r n b v a = elim (get_or_create-GotOrMade r n) [
    | full e l g ↦ rw (g, add_consumer) a
    | got p e g ↦ rw (g, add_consumer) a
    | made e l g ↦ rw (g, add_consumer) (insert-AreNamed n r.next r.endpoints v a)
  ]

remove_provider-AreNamed :
    (r : Registry) (n id : Bytes)
    → AreNamed r.endpoints
    → AreNamed (remove_provider r n id).0.endpoints
unfolding remove_provider
remove_provider-AreNamed r n id a = elim (Option-cases (lookup n r.endpoints)) [
  | inl e ↦ rw (e, remove_provider) a
  | inr (p, e) ↦ elim (Bool-cases (owned_by_other (r.heap p).provider_session id)) [
    | inl t ↦ rw (e, t, remove_provider) a
    | inr t ↦ rw (e, t, remove_provider) (delete_if_empty-AreNamed _ n p a)
  ]
]

forget-AreNamed :
    (r : Registry) (id role n : Bytes)
    → AreNamed r.endpoints
    → AreNamed (forget r id role n).endpoints
unfolding forget
forget-AreNamed r id role n a = elim (Option-cases (lookup n r.endpoints)) [
  | inl e ↦ rw (e, forget) a
  | inr (p, e) ↦ rw (e, forget) (delete_if_empty-AreNamed _ n p a)
]

register-AreNamed :
    (r : Registry) (n id : Bytes) (ys : ℕ)
    → AreNamed r.endpoints
    → AreNamed (register_consumer_yamux r n id ys).endpoints
unfolding register_consumer_yamux
register-AreNamed r n id ys a = elim (Option-cases (lookup n r.endpoints)) [
  | inl e ↦ rw (e, register_consumer_yamux) a
  | inr (p, e) ↦ rw (e, register_consumer_yamux) a
]

unregister-AreNamed :
    (r : Registry) (n id : Bytes)
    → AreNamed r.endpoints
    → AreNamed (unregister_consumer_yamux r n id).endpoints
unfolding unregister_consumer_yamux
unregister-AreNamed r n id a = elim (Option-cases (lookup n r.endpoints)) [
  | inl e ↦ rw (e, unregister_consumer_yamux) a
  | inr (p, e) ↦ rw (e, unregister_consumer_yamux) (delete_if_empty-AreNamed _ n p a)
]

wait_begin-AreNamed :
    (b : System) (n : Bytes)
    → IsName n
    → AreNamed b.registry.endpoints
    → AreNamed (noted b.waiting n (wait_begin b.registry n)).registry.endpoints
unfolding wait_begin created
wait_begin-AreNamed b n v a =
    let r = b.registry in
    elim (get_or_create-GotOrMade r n) [
      | full e l g ↦ rw (g, wait_begin) a
      | got p e g ↦ rw (g, wait_begin) a
      | made e l g ↦ rw (g, wait_begin) (insert-AreNamed n r.next r.endpoints v a)
    ]

module _ (resumable : BrokerSession → Bool) where
  step-AreNamed :
      (b : System) (c : Call)
      → MayMake c
      → AreNamed b.registry.endpoints
      → AreNamed (step resumable b c).registry.endpoints
  unfolding step wait_end
  step-AreNamed b (set_provider_call n s ys) v a =
      set_provider-AreNamed resumable b.registry n s ys v a
  step-AreNamed b (add_consumer_call n s) v a = add_consumer-AreNamed resumable b.registry n s v a
  step-AreNamed b (remove_provider_call n id) v a = remove_provider-AreNamed b.registry n id a
  step-AreNamed b (forget_call id role n) v a = forget-AreNamed b.registry id role n a
  step-AreNamed b (register_call n id ys) v a = register-AreNamed b.registry n id ys a
  step-AreNamed b (unregister_call n id) v a = unregister-AreNamed b.registry n id a
  step-AreNamed b (wait_begin_call n) v a = wait_begin-AreNamed b n v a
  step-AreNamed b (wait_end_call i) v a = elim (Option-cases (pick i b.waiting)) [
    | inl e ↦ rw (e, step) a
    | inr (((n, p), ws), e) ↦ rw (e, step) (delete_if_empty-AreNamed _ n p a)
  ]

  run-AreNamed :
      (b : System) (cs : List Call)
      → All MayMake cs
      → AreNamed b.registry.endpoints
      → AreNamed (run resumable b cs).registry.endpoints
  unfolding run
  run-AreNamed b [] v a = a
  run-AreNamed b (c ∷ cs) v a = run-AreNamed (step resumable b c) cs v.1 (step-AreNamed b c v.0 a)

  calls_of-MayMake :
      (e : Event) → IsName (session_of e).endpoint → All MayMake (calls_of resumable e)
  calls_of-MayMake (connects s) v = elim (Bool-cases (bytes_eq s.role provider)) [
    | inl t ↦ rw t tt
    | inr t ↦ rw t (v, tt)
  ]
  calls_of-MayMake (disconnects s) v = (tt, tt)
  calls_of-MayMake (provider_starts s none) v = tt
  calls_of-MayMake (provider_starts s (some ys)) v = (v, tt)
  calls_of-MayMake (provider_ends s no_yamux) v = tt
  calls_of-MayMake (provider_ends s (not_registered e)) v = tt
  calls_of-MayMake (provider_ends s (registered ps)) v = (tt, tt)
  calls_of-MayMake (consumer_starts s none) v = tt
  calls_of-MayMake (consumer_starts s (some ys)) v = (tt, tt)
  calls_of-MayMake (consumer_ends s false) v = tt
  calls_of-MayMake (consumer_ends s true) v = (tt, tt)
  calls_of-MayMake (stream_waits s) v = (v, tt)
  calls_of-MayMake (stream_leaves s i) v = (tt, tt)

  history_calls-MayMake :
      (es : List Event) → All IsAdmitted es → All MayMake (history_calls resumable es)
  history_calls-MayMake [] v = tt
  history_calls-MayMake (e ∷ es) v =
      All-append MayMake (calls_of resumable e) (history_calls resumable es)
        (calls_of-MayMake e
          (authenticate_connect-IsName (session_of e).role (session_of e).endpoint v.0))
        (history_calls-MayMake es v.1)

  -- After any history of a new broker whose sessions `authenticateConnect` let through, in any order
  -- and whatever `Resumable` answers, the registry is consistent: the table holds 1024 endpoints at most,
  -- each used by a provider, a consumer or a waiting stream, and each waiting stream holds the endpoint of
  -- its name; and each name in the table has from 1 to 128 bytes.
  pub history-AreNamed :
      (es : List Event)
      → All IsAdmitted es
      → AreConsistent (history resumable started es)
        × AreNamed (history resumable started es).registry.endpoints
  history-AreNamed es v =
      let cs = history_calls resumable es in
      rw (history-run resumable started es) (
        run-started-AreConsistent resumable cs,
        run-AreNamed started cs (history_calls-MayMake es v) (unfold new_endpoint_registry in tt),
      )
