-- ===== src/Registry/Settling.antt =====
-- How the calls of internal/broker/endpoint.go change what is owed.
use http_broker.Base.{
  ◌≡◌, refl, ◌⊎◌, inl, inr, Bool, true, false, Option, none, some, Bytes, ℕ, bytes_eq, bytes_eq_iff,
  bytes_eq_refl, Bool-cases, Option-cases, arith, delete, lookup-insert, lookup-delete,
}
use http_broker.Registry.Defs.{BrokerSession, Endpoint, is_nil}
use http_broker.Registry.Ops.{provider, consumer, owned_by_other, forget_session}
use http_broker.Registry.Waiters.{forget_call}
use http_broker.Registry.Spec.{Directory, entry, provide, consume}
use http_broker.Registry.Debts.{
  Owed, put, owe, IsOwed, AreOwed, Spares, insert-AreOwed, same-AreOwed, entry-IsOwed,
}

pub Spares-provider :
    (o : Owed) (n id : Bytes) (v : Bool)
    → Spares n o (record o { provider = put o.provider n id v })
Spares-provider o n id v m ep other h = record {
  of_provider = λ b k. ground (arith, other, h.of_provider b k);
  of_consumer = h.of_consumer;
  of_yamux = h.of_yamux;
}

pub Spares-consumer :
    (o : Owed) (n id : Bytes) (v : Bool)
    → Spares n o (record o { consumer = put o.consumer n id v })
Spares-consumer o n id v m ep other h = record {
  of_provider = h.of_provider;
  of_consumer = λ k c e. ground (arith, other, h.of_consumer k c e);
  of_yamux = h.of_yamux;
}

pub Spares-yamux :
    (o : Owed) (n id : Bytes) (v : Bool) → Spares n o (record o { yamux = put o.yamux n id v })
Spares-yamux o n id v m ep other h = record {
  of_provider = h.of_provider;
  of_consumer = h.of_consumer;
  of_yamux = λ k ys e. ground (arith, other, h.of_yamux k ys e);
}

-- A provider that is to be taken out.
owe_provider :
    (o : Owed) (n id : Bytes) (ep : Endpoint)
    → IsOwed o n ep
    → IsOwed (record o { provider = put o.provider n id true }) n ep
owe_provider o n id ep h = record {
  of_provider = λ b k. ground (arith, h.of_provider b k);
  of_consumer = h.of_consumer;
  of_yamux = h.of_yamux;
}

-- A provider that is there under another id, after one was taken out.
pub settle_provider :
    (o : Owed) (n id : Bytes) (ep : Endpoint)
    → (owned_by_other ep.provider_session id ≡ true) ⊎ (ep.provider_session ≡ none)
    → IsOwed o n ep
    → IsOwed (record o { provider = put o.provider n id false }) n ep
unfolding owned_by_other
settle_provider o n id ep away h = record {
  of_provider = λ b k. elim away [
    | inl other ↦
        ground (arith, other, k, h.of_provider b k, bytes_eq_iff id b.id, bytes_eq_iff b.id id)
    | inr gone ↦ absurd (cc (gone, k))
  ];
  of_consumer = h.of_consumer;
  of_yamux = h.of_yamux;
}

pub settle_consumer :
    (o : Owed) (n id : Bytes) (ep : Endpoint)
    → IsOwed o n ep
    → IsOwed
        (record o { consumer = put o.consumer n id false })
        n
        (record ep { consumer_sessions = delete id ep.consumer_sessions })
settle_consumer o n id ep h = record {
  of_provider = h.of_provider;
  of_consumer = λ k c e.
      ground
        (arith, lookup-delete id k ep.consumer_sessions, e, h.of_consumer k c, bytes_eq_iff id k);
  of_yamux = h.of_yamux;
}

pub settle_yamux :
    (o : Owed) (n id : Bytes) (ep : Endpoint)
    → IsOwed o n ep
    → IsOwed
        (record o { yamux = put o.yamux n id false })
        n
        (record ep { consumer_yamux_sessions = delete id ep.consumer_yamux_sessions })
settle_yamux o n id ep h = record {
  of_provider = h.of_provider;
  of_consumer = h.of_consumer;
  of_yamux = λ k ys e.
      ground (
        arith,
        lookup-delete id k ep.consumer_yamux_sessions,
        e,
        h.of_yamux k ys,
        bytes_eq_iff id k,
      );
}

pub forget-IsOwed :
    (o : Owed) (n id role : Bytes) (ep : Endpoint)
    → IsOwed o n ep
    → IsOwed (owe o (forget_call id role n)) n (forget_session ep id role)
unfolding owe forget_session
forget-IsOwed o n id role ep h = elim (Bool-cases (bytes_eq role provider)) [
  | inl p ↦ elim (Option-cases ep.provider_session) [
    | inl gone ↦
        let same : forget_session ep id role ≡ ep = ground (arith, p, gone) in
        rw (same, p, owe) (settle_provider o n id ep (inr gone) h)
    | inr (b, own) ↦ elim (Bool-cases (owned_by_other ep.provider_session id)) [
      | inl other ↦
          let same : forget_session ep id role ≡ ep = ground (arith, p, other) in
          rw (same, p, owe) (settle_provider o n id ep (inl other) h)
      | inr mine ↦
          let rest = record ep { provider_session = none; provider_yamux = none } in
          let left : forget_session ep id role ≡ rest = ground (arith, p, mine, own) in
          rw (left, p, owe)
            (settle_provider o n id rest (inr refl) (record {
              of_provider = λ c e. absurd (cc e);
              of_consumer = h.of_consumer;
              of_yamux = h.of_yamux;
            }))
    ]
  ]
  | inr q ↦ elim (Bool-cases (bytes_eq role consumer)) [
    | inl c ↦ rw (q, c, owe, forget_session) (settle_consumer o n id ep h)
    | inr d ↦ rw (q, d, owe, forget_session) h
  ]
]

pub forget-Spares : (o : Owed) (n id role : Bytes) → Spares n o (owe o (forget_call id role n))
unfolding owe
forget-Spares o n id role = elim (Bool-cases (bytes_eq role provider)) [
  | inl p ↦ rw (p, owe) (Spares-provider o n id false)
  | inr q ↦ elim (Bool-cases (bytes_eq role consumer)) [
    | inl c ↦ rw (q, c, owe) (Spares-consumer o n id false)
    | inr d ↦ rw (q, d, owe) (λ m ep other h. h)
  ]
]

-- More waiting streams, or fewer.
pub waiters-IsOwed :
    (o : Owed) (n : Bytes) (ep : Endpoint) (k : ℕ)
    → IsOwed o n ep
    → IsOwed o n (record ep { waiters = k })
waiters-IsOwed o n ep k h = record {
  of_provider = h.of_provider;
  of_consumer = h.of_consumer;
  of_yamux = h.of_yamux;
}

module _ (resumable : BrokerSession → Bool) where
  pub provide-AreOwed :
      (o : Owed) (d : Directory) (n : Bytes) (b : BrokerSession) (ys : ℕ)
      → AreOwed o d
      → AreOwed
          (record o { provider = put o.provider n b.id true })
          (provide resumable d n b ys (entry n d)).0
  provide-AreOwed o d n b ys h = go (entry n d) refl
    where
      go :
          (e : Option Endpoint)
          → entry n d ≡ e
          → AreOwed
              (record o { provider = put o.provider n b.id true })
              (provide resumable d n b ys e).0
      go none e =
          same-AreOwed o _ n d (Spares-provider o n b.id true)
            (λ ep f. owe_provider o n b.id ep (h n ep f)) h
      go (some ep) e =
          let old = entry-IsOwed o n d ep h e in
          elim (Bool-cases (is_nil ep.provider_session)) [
            | inr t ↦ rw t (
                same-AreOwed o _ n d (Spares-provider o n b.id true)
                  (λ ep' f. owe_provider o n b.id ep' (h n ep' f)) h)
            | inl t ↦ rw t (
                insert-AreOwed o _ n _ d (Spares-provider o n b.id true)
                  (record {
                    of_provider = λ c k. ground (arith, k, bytes_eq_refl n, bytes_eq_refl b.id);
                    of_consumer = old.of_consumer;
                    of_yamux = old.of_yamux;
                  })
                  h)
          ]

  pub consume-AreOwed :
      (o : Owed) (d : Directory) (n : Bytes) (b : BrokerSession)
      → AreOwed o d
      → AreOwed
          (record o { consumer = put o.consumer n b.id true })
          (consume resumable d n b (entry n d)).0
  consume-AreOwed o d n b h = go (entry n d) refl
    where
      go :
          (e : Option Endpoint)
          → entry n d ≡ e
          → AreOwed
              (record o { consumer = put o.consumer n b.id true })
              (consume resumable d n b e).0
      go none e =
          same-AreOwed o _ n d (Spares-consumer o n b.id true)
            (λ ep f.
              let old = h n ep f in
              record {
                of_provider = old.of_provider;
                of_consumer = λ k c g. ground (arith, old.of_consumer k c g);
                of_yamux = old.of_yamux;
              })
            h
      go (some ep) e =
          let old = entry-IsOwed o n d ep h e in
          insert-AreOwed o _ n _ d (Spares-consumer o n b.id true)
            (record {
              of_provider = old.of_provider;
              of_consumer = λ k c g. ground (
                arith,
                lookup-insert b.id k b ep.consumer_sessions,
                g,
                old.of_consumer k c,
                bytes_eq_refl n,
              );
              of_yamux = old.of_yamux;
            })
            h
