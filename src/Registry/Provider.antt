-- ===== src/Registry/Provider.antt =====
-- The provider of an endpoint, in internal/broker/endpoint.go: one at a time, and only its own session
-- takes it away.
use http_broker.Base.{
  ℕ, ◌≤◌, ◌≡◌, ◌≢◌, ◌==◌, ◌⊎◌, inl, inr, Bool, true, false, Option, none, some, [], Bytes, bytes_eq,
  bytes_eq_iff, bytes_eq_refl, if◌then◌else◌, Bool-cases, Option-cases, arith, length, lookup,
}
use http_broker.Registry.Defs.{
  BrokerSession, Endpoint, Registry, max_endpoints, new_endpoint, is_nil, is_unused,
}
use http_broker.Registry.Ops.{
  ok, err, endpoint_limit, already_has_provider, half_resumable_peers, set_provider,
  remove_provider, owned_by_other, yamux_values,
}
use http_broker.Registry.Soundness.{IsSound, created, created-IsSound}
use http_broker.Registry.View.{
  view, view-store, view_tidied, view-created, got, full, made, get_or_create-GotOrMade,
  lookup-created,
}

-- The endpoint that an operation works on: the one of that name, or a new one.
abbrev pub current : Option Endpoint → Bytes → Endpoint
current none n = new_endpoint n
current (some ep) n = ep

module _ (resumable : BrokerSession → Bool) where
  -- On a sound registry `SetProvider` either fails since the name is new and the table full, or
  -- fails since the endpoint has a provider, and then the registry stays as it was; or the endpoint
  -- had no provider, and its view is the old or a new one with this provider and its yamux session,
  -- every other name's view is as before, and the answer is the peers of the other resumability.
  pub set_provider_lem :
      (r : Registry) (n m : Bytes) (s : BrokerSession) (ys : ℕ)
      → IsSound r
      → let reply = set_provider resumable r n s ys in
        let old = current (view r n) n in
        let new = record old { provider_session = some s; provider_yamux = some ys } in
        ((reply.result ≡ err endpoint_limit)
          × (view r n ≡ none)
          × (max_endpoints ≤ length r.endpoints)
          × (reply.registry ≡ r))
        ⊎ ((reply.result ≡ err already_has_provider)
            × (is_nil old.provider_session ≡ false)
            × (reply.registry ≡ r))
        ⊎ ((reply.result ≡ ok (half_resumable_peers resumable new s))
            × (is_nil old.provider_session ≡ true)
            × (view reply.registry m ≡ (if bytes_eq n m then some new else view r m)))
  unfolding set_provider view
  set_provider_lem r n m s ys v = elim (get_or_create-GotOrMade r n) [
    | full e l g ↦ inl (ground arith, ground arith, l, ground arith)
    | made e l g ↦
        let new = record (new_endpoint n) { provider_session = some s; provider_yamux = some ys } in
        let w = created-IsSound r n e l v in
        inr (
          inr (
            unfold created in ground (arith, g, bytes_eq_refl n),
            ground arith,
            ground (
              arith,
              g,
              view-store (created r n) n m r.next new w (lookup-created r n),
              view-created r n m v,
            ),
          ))
    | got p e g ↦ elim (Bool-cases (is_nil (r.heap p).provider_session)) [
      | inr h ↦ inr (inl (ground (arith, g, e, h), ground arith, ground (arith, g, e, h)))
      | inl h ↦ inr (
          inr (
            ground (arith, g, e, h),
            ground arith,
            ground (
              arith,
              g,
              e,
              h,
              view-store r n m p
                  (record (r.heap p) { provider_session = some s; provider_yamux = some ys }) v e,
            ),
          ))
    ]
  ]

-- A session that is not the provider of an endpoint that has one changes nothing by
-- `RemoveProvider`, and closes no consumer.
pub remove_provider_other :
    (r : Registry) (n id : Bytes) (ep : Endpoint) (s : BrokerSession)
    → view r n ≡ some ep
    → ep.provider_session ≡ some s
    → s.id ≢ id
    → remove_provider r n id ≡ (r, [])
unfolding remove_provider view owned_by_other
remove_provider_other r n id ep s e h k = elim (Option-cases (lookup n r.endpoints)) [
  | inl f ↦ absurd (ground arith)
  | inr (p, f) ↦ ground (arith, bytes_eq_iff s.id id)
]

-- The endpoint that a provider leaves, if streams wait on it; else it is dropped.
abbrev pub deserted : Endpoint → Option Endpoint
deserted ep =
    if ep.waiters == 0
    then none
    else some (record ep {
      provider_session = none;
      provider_yamux = none;
      consumer_yamux_sessions = [];
      consumer_sessions = [];
    })

-- On a sound registry, if the endpoint's provider is this session or there is none, `RemoveProvider`
-- closes every yamux session of a consumer; the endpoint is dropped, or, if streams wait on it, kept
-- without provider and consumers; every other name's view is as before.
pub remove_provider_own :
    (r : Registry) (n m id : Bytes) (ep : Endpoint)
    → IsSound r
    → view r n ≡ some ep
    → owned_by_other ep.provider_session id ≡ false
    → ((remove_provider r n id).1 ≡ yamux_values ep.consumer_yamux_sessions)
      × (view (remove_provider r n id).0 m ≡ (if bytes_eq n m then deserted ep else view r m))
unfolding remove_provider view is_unused
remove_provider_own r n m id ep v e o = elim (Option-cases (lookup n r.endpoints)) [
  | inl f ↦ absurd (ground arith)
  | inr (p, f) ↦
      let cleared = record (r.heap p) {
        provider_session = none;
        provider_yamux = none;
        consumer_yamux_sessions = [];
        consumer_sessions = [];
      } in
      (ground (arith, f), ground (arith, f, view_tidied r n m p cleared v f))
]
