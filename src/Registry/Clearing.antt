-- ===== src/Registry/Clearing.antt =====
-- That nothing stays in the registry of internal/broker/endpoint.go that is not owed, and that an endpoint
-- of which nothing is owed is gone.
use http_broker.Base.{
  ◌≡◌, refl, sym, ap, subst, ◌∙◌, ◌≢◌, ◌-◌, inl, inr, Bool, true, false, not, ◌&&◌, Option, none,
  some, List, [], ◌∷◌, Bytes, ℕ, bytes_eq_refl, Bool-cases, Option-cases, arith, lookup, insert,
  delete, lookup-insert,
}
use http_broker.Registry.Defs.{BrokerSession, Endpoint, is_nil, is_unused}
use http_broker.Registry.View.{view}
use http_broker.Registry.Modify.{count}
use http_broker.Registry.Waiters.{
  Call, set_provider_call, add_consumer_call, remove_provider_call, forget_call, register_call,
  unregister_call, wait_begin_call, wait_end_call, run, started, run-started-AreConsistent,
}
use http_broker.Registry.Spec.{
  Directory, Promise, entry, depart, await, without_provider, without_session, is_provided_by,
  promise, promises, pick_name,
}
use http_broker.Registry.Matches.{held_by_other, without_session-forget_session}
use http_broker.Registry.Flatten.{flatten}
use http_broker.Registry.Abstraction.{lookup-flatten-some}
use http_broker.Registry.Refines.{run-promises}
use http_broker.Registry.Debts.{
  Owed, put, owe, owes, none_owed, IsOwed, AreOwed, insert-AreOwed, keep-AreOwed, same-AreOwed,
  alter-AreOwed, entry-IsOwed,
}
use http_broker.Registry.Settling.{
  Spares-provider, Spares-yamux, settle_provider, settle_yamux, forget-IsOwed, forget-Spares,
  waiters-IsOwed, provide-AreOwed, consume-AreOwed,
}

depart-AreOwed :
    (o : Owed) (d : Directory) (n id : Bytes)
    → AreOwed o d
    → AreOwed (record o { provider = put o.provider n id false }) (depart d n id (lookup n d)).0
depart-AreOwed o d n id h = go (lookup n d) refl
  where
    go :
        (e : Option Endpoint)
        → lookup n d ≡ e
        → AreOwed (record o { provider = put o.provider n id false }) (depart d n id e).0
    go none e = same-AreOwed o _ n d (Spares-provider o n id false) (λ ep f. absurd (cc (e, f))) h
    go (some ep) e =
        let old = h n ep e in
        let other_holds = not (is_nil ep.provider_session) && not (is_provided_by ep id) in
        elim (Bool-cases other_holds) [
          | inl other ↦ rw other (
              same-AreOwed o _ n d (Spares-provider o n id false)
                (λ ep' f.
                  subst (IsOwed (record o { provider = put o.provider n id false }) n)
                    (ground (arith, e, f))
                    (settle_provider o n id ep (inl (sym (held_by_other ep id) ∙ other)) old))
                h)
          | inr mine ↦ rw mine (
              keep-AreOwed o _ n (without_provider ep) d (Spares-provider o n id false)
                (record {
                  of_provider = λ b k. absurd (cc k);
                  of_consumer = λ k c f. absurd (unfold lookup in cc f);
                  of_yamux = λ k ys f. absurd (unfold lookup in cc f);
                })
                h)
        ]

register-AreOwed :
    (o : Owed) (d : Directory) (n id : Bytes) (ys : ℕ)
    → AreOwed o d
    → AreOwed
        (record o { yamux = put o.yamux n id true })
        (elim (lookup n d) [
          | none ↦ d
          | some ep ↦
              insert n
                (record ep { consumer_yamux_sessions = insert id ys ep.consumer_yamux_sessions })
                d
        ])
register-AreOwed o d n id ys h = elim (Option-cases (lookup n d)) [
  | inl e ↦ rw e (same-AreOwed o _ n d (Spares-yamux o n id true) (λ ep f. absurd (cc (e, f))) h)
  | inr (ep, e) ↦
      let old = h n ep e in
      rw e (
        insert-AreOwed o _ n _ d (Spares-yamux o n id true)
          (record {
            of_provider = old.of_provider;
            of_consumer = old.of_consumer;
            of_yamux = λ k zs g. ground (
              arith,
              lookup-insert id k ys ep.consumer_yamux_sessions,
              g,
              old.of_yamux k zs,
              bytes_eq_refl n,
            );
          })
          h)
]

module _ (resumable : BrokerSession → Bool) where
  await-AreOwed :
      (o : Owed) (s : Promise) (n : Bytes)
      → AreOwed o s.directory
      → AreOwed o (await s n (entry n s.directory)).0.directory
  await-AreOwed o s n h = go (entry n s.directory) refl
    where
      go : (e : Option Endpoint) → entry n s.directory ≡ e → AreOwed o (await s n e).0.directory
      go none e = h
      go (some ep) e =
          insert-AreOwed o o n _ s.directory (λ m ep' other k. k)
            (waiters-IsOwed o n ep _ (entry-IsOwed o n s.directory ep h e)) h

  pub promise-AreOwed :
      (o : Owed) (s : Promise) (c : Call)
      → AreOwed o s.directory
      → AreOwed (owe o c) (promise resumable s c).0.directory
  unfolding promise owe
  promise-AreOwed o s (set_provider_call n b ys) h =
      provide-AreOwed resumable o s.directory n b ys h
  promise-AreOwed o s (add_consumer_call n b) h = consume-AreOwed resumable o s.directory n b h
  promise-AreOwed o s (remove_provider_call n id) h = depart-AreOwed o s.directory n id h
  promise-AreOwed o s (forget_call id role n) h =
      alter-AreOwed o (owe o (forget_call id role n)) n (λ ep. without_session ep id role)
        s.directory (forget-Spares o n id role)
        (λ ep k.
          subst (IsOwed (owe o (forget_call id role n)) n)
            (sym (without_session-forget_session ep id role)) (forget-IsOwed o n id role ep k))
        h
  promise-AreOwed o s (register_call n id ys) h = register-AreOwed o s.directory n id ys h
  promise-AreOwed o s (unregister_call n id) h =
      alter-AreOwed o (record o { yamux = put o.yamux n id false }) n
        (λ ep. record ep { consumer_yamux_sessions = delete id ep.consumer_yamux_sessions })
        s.directory (Spares-yamux o n id false) (λ ep k. settle_yamux o n id ep k) h
  promise-AreOwed o s (wait_begin_call n) h = await-AreOwed o s n h
  promise-AreOwed o s (wait_end_call i) h = elim (Option-cases (pick_name i s.waiting)) [
    | inl e ↦ rw (e, promise) h
    | inr ((n, ns), e) ↦
        rw (e, promise)
          (alter-AreOwed o o n (λ ep. record ep { waiters = ep.waiters - 1 }) s.directory
            (λ m ep other k. k) (λ ep k. waiters-IsOwed o n ep _ k) h)
  ]

  promises-AreOwed :
      (o : Owed) (s : Promise) (cs : List Call)
      → AreOwed o s.directory
      → AreOwed (owes o cs) (promises resumable s cs).0.directory
  unfolding promises owes
  promises-AreOwed o s [] h = h
  promises-AreOwed o s (c ∷ cs) h =
      promises-AreOwed (owe o c) (promise resumable s c).0 cs (promise-AreOwed o s c h)

  -- What a registry has is owed.
  run-AreOwed :
      (cs : List Call) → AreOwed (owes none_owed cs) (flatten (run resumable started cs).registry)
  run-AreOwed cs =
      subst (AreOwed (owes none_owed cs)) (ap (λ u. u.0.directory) (run-promises resumable cs)) (
        promises-AreOwed none_owed (record { directory = []; waiting = [] }) cs
          (λ n ep e. absurd (unfold lookup in cc e)))

no_entry {ℓ} :
    {V : Type ℓ} (m : List (Bytes × V)) → ((k : Bytes) (v : V) → lookup k m ≢ some v) → m ≡ []
unfolding lookup
no_entry [] h = refl
no_entry ((k, v) ∷ m) h = absurd (h k v (ground (arith, bytes_eq_refl k)))

-- An endpoint of which nothing is owed and for which no stream waits is not in use.
settled_unused :
    (o : Owed) (n : Bytes) (ep : Endpoint)
    → IsOwed o n ep
    → ((id : Bytes) → o.provider n id ≡ false)
    → ((id : Bytes) → o.consumer n id ≡ false)
    → ((id : Bytes) → o.yamux n id ≡ false)
    → ep.waiters ≡ 0
    → is_unused ep ≡ true
unfolding is_unused
settled_unused o n ep h p c y w =
    let consumers = no_entry ep.consumer_sessions (λ k s e. cc (h.of_consumer k s e, c k)) in
    let yamuxes = no_entry ep.consumer_yamux_sessions (λ k ys e. cc (h.of_yamux k ys e, y k)) in
    elim (Option-cases ep.provider_session) [
      | inl gone ↦ ground (arith, gone, consumers, yamuxes, w)
      | inr (b, own) ↦ absurd (cc (h.of_provider b own, p b.id))
    ]

-- After any calls on a new registry, in any order and whatever `Resumable` answers: a name is not in the
-- table if no stream waits for it and each of its sessions has been taken out after it was put in (a
-- provider by RemoveProvider or Forget, a consumer by Forget, a consumer's yamux session by
-- UnregisterConsumerYamux).
pub settled_name_is_gone :
    (resumable : BrokerSession → Bool) (cs : List Call) (n : Bytes)
    → ((id : Bytes) → (owes none_owed cs).provider n id ≡ false)
    → ((id : Bytes) → (owes none_owed cs).consumer n id ≡ false)
    → ((id : Bytes) → (owes none_owed cs).yamux n id ≡ false)
    → count n (run resumable started cs).waiting ≡ 0
    → view (run resumable started cs).registry n ≡ none
unfolding view
settled_name_is_gone resumable cs n p c y w =
    let s = run resumable started cs in
    let v = run-started-AreConsistent resumable cs in
    elim (Option-cases (lookup n s.registry.endpoints)) [
      | inl e ↦ ground (arith, e)
      | inr (q, e) ↦
          let ep = s.registry.heap q in
          let here = run-AreOwed resumable cs n ep (lookup-flatten-some s.registry n q e) in
          let unused =
            settled_unused (owes none_owed cs) n ep here p c y
              (omega (arith, v.counted n q e, w)) in
          absurd (cc (unused, v.in_use n ep (ground (arith, e))))
    ]
