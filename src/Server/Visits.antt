-- ===== src/Server/Visits.antt =====
-- A provider's stay at an endpoint, from HandleProvider of internal/broker/relay.go to its end.
use http_broker.Base.{
  ◌≡◌, refl, sym, subst, ap, ◌∙◌, inl, inr, Bool, false, not, Option, none, some, List, [], Bytes,
  ℕ, bytes_eq, bytes_eq_refl, if◌then◌else◌, Bool-cases, arith,
}
use http_broker.Registry.Defs.{BrokerSession, Endpoint, Registry, is_nil}
use http_broker.Registry.Ops.{set_provider, yamux_values, owned_by_other}
use http_broker.Registry.Soundness.{IsSound, store-IsSound, created, created-IsSound}
use http_broker.Registry.View.{view, got, full, made, get_or_create-GotOrMade}
use http_broker.Registry.Provider.{current, deserted, set_provider_lem, remove_provider_own}
use http_broker.Server.Relay.{registered, handle_provider, leave_provider}

module _ (resumable : BrokerSession → Bool) where
  -- A second provider of an endpoint that has one, on a sound registry, with any id and whether or not its
  -- yamux session opens: its `HandleProvider` changes nothing, and its end, at whatever time and on
  -- whatever registry there is then, changes nothing and closes no consumer.
  pub duplicate_provider :
      (r later : Registry) (s : BrokerSession) (client : Option ℕ) (ep : Endpoint)
      → IsSound r
      → view r s.endpoint ≡ some ep
      → is_nil ep.provider_session ≡ false
      → ((handle_provider resumable r s client).0 ≡ r)
        × (leave_provider later s (handle_provider resumable r s client).1 ≡ (later, []))
  unfolding handle_provider leave_provider
  duplicate_provider r later s none ep v e h = (refl, refl)
  duplicate_provider r later s (some ys) ep v e h =
      elim (set_provider_lem resumable r s.endpoint s.endpoint s ys v) [
        | inl (f, absent, limit, same) ↦ absurd (cc (e, absent))
        | inr (inl (f, taken, same)) ↦ (ground (arith, f, same), ground (arith, f))
        | inr (inr (f, free, seen)) ↦ absurd (ground (arith, free, e, h))
      ]

  set_provider-IsSound :
      (r : Registry) (n : Bytes) (s : BrokerSession) (ys : ℕ)
      → IsSound r
      → IsSound (set_provider resumable r n s ys).registry
  unfolding set_provider
  set_provider-IsSound r n s ys v = elim (get_or_create-GotOrMade r n) [
    | full e l g ↦ rw (g, set_provider) v
    | got p e g ↦ elim (Bool-cases (is_nil (r.heap p).provider_session)) [
      | inl t ↦ rw (g, t, set_provider) (store-IsSound r p _ v refl)
      | inr t ↦ rw (g, t, set_provider) v
    ]
    | made e l g ↦
        let w = created-IsSound r n e l v in
        elim (Bool-cases (is_nil ((created r n).heap r.next).provider_session)) [
          | inl t ↦ rw (g, t, set_provider) (store-IsSound (created r n) r.next _ w refl)
          | inr t ↦ rw (g, t, set_provider) w
        ]
  ]

  -- What a provider finds that registered: no provider before it, and itself after.
  registered_view :
      (r r' : Registry) (s : BrokerSession) (ys : ℕ) (peers : List BrokerSession) (m : Bytes)
      → IsSound r
      → handle_provider resumable r s (some ys) ≡ (r', registered peers)
      → let old = current (view r s.endpoint) s.endpoint in
        let new = record old { provider_session = some s; provider_yamux = some ys } in
        IsSound r' × (view r' m ≡ (if bytes_eq s.endpoint m then some new else view r m))
  unfolding handle_provider
  registered_view r r' s ys peers m v e = elim (set_provider_lem resumable r s.endpoint m s ys v) [
    | inl (f, absent, limit, same) ↦ absurd (ground (arith, e, f))
    | inr (inl (f, taken, same)) ↦ absurd (ground (arith, e, f))
    | inr (inr (f, free, seen)) ↦
        let path : (set_provider resumable r s.endpoint s ys).registry ≡ r' =
          ground (arith, e, f) in
        (
          subst IsSound path (set_provider-IsSound r s.endpoint s ys v),
          sym (ap (λ u. view u m) path) ∙ seen,
        )
  ]

  -- A provider that registers on a sound registry and leaves with no other call in between: at the end it
  -- closes the consumers' yamux sessions that the endpoint had at the start; the endpoint is dropped, or
  -- kept for the streams that wait on it, without provider and consumers; other names are as at the start.
  pub provider_visit :
      (r r' : Registry) (s : BrokerSession) (ys : ℕ) (peers : List BrokerSession) (m : Bytes)
      → IsSound r
      → handle_provider resumable r s (some ys) ≡ (r', registered peers)
      → let old = current (view r s.endpoint) s.endpoint in
        ((leave_provider r' s (registered peers)).1 ≡ yamux_values old.consumer_yamux_sessions)
        × (view (leave_provider r' s (registered peers)).0 m
            ≡ (if bytes_eq s.endpoint m then deserted old else view r m))
  unfolding leave_provider owned_by_other
  provider_visit r r' s ys peers m v e =
      let old = current (view r s.endpoint) s.endpoint in
      let new = record old { provider_session = some s; provider_yamux = some ys } in
      let here = registered_view r r' s ys peers s.endpoint v e in
      let there = registered_view r r' s ys peers m v e in
      let seen : view r' s.endpoint ≡ some new = ground (arith, here.1, bytes_eq_refl s.endpoint) in
      let own : not (bytes_eq s.id s.id) ≡ false = ground (arith, bytes_eq_refl s.id) in
      let gone = remove_provider_own r' s.endpoint m s.id new here.0 seen own in
      (gone.0, ground (arith, gone.1, there.1))
