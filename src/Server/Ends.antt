-- ===== src/Server/Ends.antt =====
-- The end of a provider: `onDisconnect` of internal/broker/server.go and the deferred function of
-- HandleProvider in internal/broker/relay.go run on two goroutines, so either may come first.
mod Tests
use http_broker.Base.{
  ℕ, ◌≡◌, ◌≢◌, refl, ap, ◌∙◌, sym, inl, inr, Bool, true, false, Option, none, some, List, [], ◌∷◌,
  Bytes, bytes_eq, bytes_eq_iff, bytes_eq_refl, if◌then◌else◌, Bool-cases, Option-cases, arith,
  lookup,
}
use http_broker.Registry.Defs.{BrokerSession, Endpoint, Registry, is_nil, is_unused}
use http_broker.Registry.Ops.{
  ok, provider, owned_by_other, forget, forget_session, remove_provider, set_provider, yamux_values,
}
use http_broker.Registry.Soundness.{IsSound, store-IsSound, delete_if_empty-IsSound}
use http_broker.Registry.View.{view, unless_unused}
use http_broker.Registry.Provider.{
  current, deserted, set_provider_lem, remove_provider_own, remove_provider_other,
}
use http_broker.Server.Connect.{on_disconnect}
use http_broker.Server.Stopping.{view-on_disconnect, forget-IsSound}

-- What a disconnect leaves of an endpoint.
abbrev forgotten : BrokerSession → Option Endpoint → Option Endpoint
forgotten b none = none
forgotten b (some ep) = unless_unused (forget_session ep b.id b.role)

remove_provider-IsSound :
    (r : Registry) (n id : Bytes) → IsSound r → IsSound (remove_provider r n id).0
unfolding remove_provider
remove_provider-IsSound r n id v = elim (Option-cases (lookup n r.endpoints)) [
  | inl e ↦ rw (e, remove_provider) v
  | inr (p, e) ↦ elim (Bool-cases (owned_by_other (r.heap p).provider_session id)) [
    | inl o ↦ rw (e, o, remove_provider) v
    | inr o ↦
        rw (e, o, remove_provider) (delete_if_empty-IsSound _ n p (store-IsSound r p _ v refl))
  ]
]

remove_provider-none :
    (r : Registry) (n id : Bytes) → view r n ≡ none → remove_provider r n id ≡ (r, [])
unfolding remove_provider view
remove_provider-none r n id e = elim (Option-cases (lookup n r.endpoints)) [
  | inl f ↦ ground (arith, f)
  | inr (p, f) ↦ absurd (ground (arith, e, f))
]

-- The endpoint of a provider that is gone is the same after its disconnect.
forgotten-deserted :
    (b : BrokerSession) (ep : Endpoint)
    → b.role ≡ provider
    → forgotten b (deserted ep) ≡ deserted ep
unfolding forget_session is_unused
forgotten-deserted b ep role = ground (arith, role, bytes_eq_refl provider)

-- The provider's own disconnect takes the provider away and leaves the rest.
forgotten_provider :
    (b : BrokerSession) (ep : Endpoint)
    → b.role ≡ provider
    → ep.provider_session ≡ some b
    → forgotten b (some ep)
      ≡ unless_unused (record ep { provider_session = none; provider_yamux = none })
unfolding forget_session owned_by_other
forgotten_provider b ep role own =
    ground (arith, role, own, bytes_eq_refl provider, bytes_eq_refl b.id)

-- The disconnect first: an endpoint that it drops had no consumer to close and no stream that waits.
hook_then_end :
    (r : Registry) (b : BrokerSession) (ep : Endpoint) (m : Bytes)
    → IsSound r
    → b.role ≡ provider
    → view r b.endpoint ≡ some ep
    → ep.provider_session ≡ some b
    → let reply = remove_provider (on_disconnect r b) b.endpoint b.id in
      (reply.1 ≡ yamux_values ep.consumer_yamux_sessions)
      × (view reply.0 m ≡ (if bytes_eq b.endpoint m then deserted ep else view r m))
hook_then_end r b ep m v role seen own =
    let r' = on_disconnect r b in
    let rest = record ep { provider_session = none; provider_yamux = none } in
    let v' : IsSound r' = unfold on_disconnect in forget-IsSound r b.id b.role b.endpoint v in
    let there : view r' m ≡ (if bytes_eq b.endpoint m then unless_unused rest else view r m) =
      view-on_disconnect r b m v ∙ rw (seen, forgotten_provider b ep role own) refl in
    let here : view r' b.endpoint ≡ unless_unused rest =
      view-on_disconnect r b b.endpoint v
      ∙ rw (bytes_eq_refl b.endpoint, seen) (forgotten_provider b ep role own) in
    elim (Bool-cases (is_unused rest)) [
      | inl u ↦
          let gone : view r' b.endpoint ≡ none = rw (here, u) refl in
          let same = remove_provider-none r' b.endpoint b.id gone in
          (
            rw same (unfold is_unused yamux_values in ground (arith, u)),
            rw same (there ∙ unfold is_unused in ground (arith, u)),
          )
      | inr u ↦
          let kept : view r' b.endpoint ≡ some rest = rw (here, u) refl in
          let end =
            remove_provider_own r' b.endpoint m b.id rest v' kept (unfold owned_by_other in refl) in
          (end.0, ground (arith, end.1, there))
    ]

-- On a sound registry, where a provider session is the provider of its endpoint: whether its disconnect hook
-- or the end of its HandleProvider comes first, the same yamux sessions of consumers are closed, all that
-- the endpoint had; and afterwards every name's view is the same: the endpoint is dropped, or, if streams
-- wait on it, kept without provider and consumers, and other names are as before.
pub provider_end_orders :
    (r : Registry) (b : BrokerSession) (ep : Endpoint) (m : Bytes)
    → IsSound r
    → b.role ≡ provider
    → view r b.endpoint ≡ some ep
    → ep.provider_session ≡ some b
    → let end_first = remove_provider r b.endpoint b.id in
      let hook_first = remove_provider (on_disconnect r b) b.endpoint b.id in
      let left = if bytes_eq b.endpoint m then deserted ep else view r m in
      (end_first.1 ≡ yamux_values ep.consumer_yamux_sessions)
      × (view (on_disconnect end_first.0 b) m ≡ left)
      × (hook_first.1 ≡ yamux_values ep.consumer_yamux_sessions)
      × (view hook_first.0 m ≡ left)
provider_end_orders r b ep m v role seen own =
    let mine : owned_by_other ep.provider_session b.id ≡ false =
      unfold owned_by_other in ground (arith, own, bytes_eq_refl b.id) in
    let removed = remove_provider_own r b.endpoint m b.id ep v seen mine in
    let here = remove_provider_own r b.endpoint b.endpoint b.id ep v seen mine in
    let one = (remove_provider r b.endpoint b.id).0 in
    let hooked = view-on_disconnect one b m (remove_provider-IsSound r b.endpoint b.id v) in
    let late = hook_then_end r b ep m v role seen own in
    (
      removed.0,
      ground (
        arith,
        hooked,
        removed.1,
        here.1,
        bytes_eq_refl b.endpoint,
        forgotten-deserted b ep role,
      ),
      late.0,
      late.1,
    )

-- The disconnect of a provider leaves an endpoint that has a consumer's yamux session.
hook_keeps :
    (r : Registry) (b : BrokerSession) (ep : Endpoint)
    → IsSound r
    → b.role ≡ provider
    → view r b.endpoint ≡ some ep
    → ep.provider_session ≡ some b
    → ep.consumer_yamux_sessions ≢ []
    → view (on_disconnect r b) b.endpoint
      ≡ some (record ep { provider_session = none; provider_yamux = none })
unfolding is_unused
hook_keeps r b ep v role seen own consumers =
    let rest = record ep { provider_session = none; provider_yamux = none } in
    let left : view (on_disconnect r b) b.endpoint ≡ unless_unused rest =
      view-on_disconnect r b b.endpoint v
      ∙ rw (bytes_eq_refl b.endpoint, seen) (forgotten_provider b ep role own) in
    left ∙ go ep.consumer_yamux_sessions consumers
  where
    go :
        (cs : List (Bytes × ℕ))
        → cs ≢ []
        → unless_unused (record ep {
          provider_session = none;
          provider_yamux = none;
          consumer_yamux_sessions = cs;
        })
          ≡ some (record ep {
            provider_session = none;
            provider_yamux = none;
            consumer_yamux_sessions = cs;
          })
    go [] k = absurd (k refl)
    go (x ∷ xs) k = ground arith

-- On a sound registry, where a provider session is the provider of its endpoint and the endpoint has a
-- consumer's yamux session: if the disconnect hook runs, then a provider with another id registers, and
-- then the first one's HandleProvider ends, the new one has the endpoint, with every consumer and every
-- yamux session of the old one's time, and that end changes nothing and closes no consumer.
pub successor_keeps_consumers :
    (resumable : BrokerSession → Bool) (r : Registry) (b c : BrokerSession) (ep : Endpoint) (ys : ℕ)
    → IsSound r
    → b.role ≡ provider
    → view r b.endpoint ≡ some ep
    → ep.provider_session ≡ some b
    → ep.consumer_yamux_sessions ≢ []
    → c.id ≢ b.id
    → let r' = (set_provider resumable (on_disconnect r b) b.endpoint c ys).registry in
      (view r' b.endpoint
        ≡ some (record ep { provider_session = some c; provider_yamux = some ys }))
      × (remove_provider r' b.endpoint b.id ≡ (r', []))
successor_keeps_consumers resumable r b c ep ys v role seen own consumers other =
    let v' : IsSound (on_disconnect r b) =
      unfold on_disconnect in forget-IsSound r b.id b.role b.endpoint v in
    let kept = hook_keeps r b ep v role seen own consumers in
    elim (set_provider_lem resumable (on_disconnect r b) b.endpoint b.endpoint c ys v') [
      | inl (e, unknown, room, same) ↦ absurd (cc (unknown, kept))
      | inr (inl (e, taken, same)) ↦ absurd (ground (arith, taken, kept))
      | inr (inr (e, was, found)) ↦
          let now = found ∙ rw (bytes_eq_refl b.endpoint, kept) refl in
          (
            now,
            remove_provider_other
                (set_provider resumable (on_disconnect r b) b.endpoint c ys).registry b.endpoint
                b.id (record ep { provider_session = some c; provider_yamux = some ys }) c now refl
                other,
          )
    ]
