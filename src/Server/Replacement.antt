-- ===== src/Server/Replacement.antt =====
-- The endpoint of a provider that died, after the fast reaper of internal/broker/server.go has evicted it.
mod Tests
use http_broker.Base.{
  ℕ, ◌+◌, ◌≤◌, ◌<◌, ◌≡◌, ◌≢◌, refl, ◌∙◌, sym, ◌⊎◌, inl, inr, Bool, true, false, Option, none, some,
  List, Bytes, bytes_eq, bytes_eq_iff, bytes_eq_refl, Option-cases, arith, lookup, length,
  HasDistinctKeys, All,
}
use http_broker.Registry.Defs.{BrokerSession, Endpoint, Registry, is_nil, max_endpoints}
use http_broker.Registry.Ops.{
  provider, owned_by_other, set_provider, err, already_has_provider, endpoint_limit,
}
use http_broker.Registry.Soundness.{IsSound}
use http_broker.Registry.Modify.{IsConsistent}
use http_broker.Registry.View.{view}
use http_broker.Registry.Provider.{current, set_provider_lem}
use http_broker.Server.Reaper.{broken_poll_grace}
use http_broker.Server.Stopping.{holds}
use http_broker.Server.FastReaper.{fast_reaper_interval, Watch, Beat, fast_reaper}
use http_broker.Server.Blackout.{IsDead, IsPaced, last_tick, IsPending, IsGone, evicted_from}

-- The provider of an endpoint that does not hold a session is another one.
other_provider :
    (b q : BrokerSession) (seen : Option Endpoint)
    → b.role ≡ provider
    → holds b seen ≡ false
    → (current seen b.endpoint).provider_session ≡ some q
    → q.id ≢ b.id
unfolding owned_by_other
other_provider b q none role out e = λ same. absurd (cc e)
other_provider b q (some ep) role out e = λ same.
    absurd (ground (arith, role, out, e, bytes_eq_refl provider, (bytes_eq_iff q.id b.id).1 same))

module _ (resumable : BrokerSession → Bool) where
  -- What becomes of a provider that registers where a session is out.
  abbrev pub Replaces : BrokerSession → BrokerSession → ℕ → Registry → Type 0
  Replaces b c ys r =
      let reply = set_provider resumable r b.endpoint c ys in
      ((later : Endpoint) × (view reply.registry b.endpoint ≡ some later)
        × (later.provider_session ≡ some c)
        × (later.provider_yamux ≡ some ys))
      ⊎ ((reply.result ≡ err already_has_provider)
          × ((q : BrokerSession) × ((current (view r b.endpoint) b.endpoint).provider_session
                ≡ some q)
              × (q.id ≢ b.id)))
      ⊎ ((reply.result ≡ err endpoint_limit)
          × (view r b.endpoint ≡ none)
          × (max_endpoints ≤ length r.endpoints))

  registers :
      (r : Registry) (b c : BrokerSession) (ys : ℕ)
      → IsSound r
      → b.role ≡ provider
      → holds b (view r b.endpoint) ≡ false
      → Replaces b c ys r
  registers r b c ys v role out =
      let n = b.endpoint in
      elim (set_provider_lem resumable r n n c ys v) [
        | inl (e, unknown, full_table, same) ↦ inr (inr (e, unknown, full_table))
        | inr (inl (e, taken, same)) ↦ elim (Option-cases (current (view r n) n).provider_session) [
          | inl free ↦ absurd (cc (taken, free))
          | inr (q, k) ↦ inr (inl (e, (q, k, other_provider b q (view r n) role out k)))
        ]
        | inr (inr (e, was, seen)) ↦ inl (
          record (current (view r n) n) { provider_session = some c; provider_yamux = some ys },
          ground (arith, seen, bytes_eq_refl n),
          refl,
          refl,
        )
      ]

  -- A provider's session whose client dies in a poll, on a consistent registry and with each session marked
  -- once at most, where it is marked as broken at `at`, was not evicted before, is known to the store, is
  -- open, not resumable and idle at each tick, and is not marked or registered again. If the ticks are at
  -- most an interval apart and go on until the grace has passed, whatever other sessions are marked and
  -- evicted meanwhile, and whatever they call of the registry: it is evicted at a tick, not before the
  -- grace and less than an interval after it (5 and 2 seconds), its endpoint does not have it as provider
  -- any more, and a provider that then registers for the endpoint is its provider, unless another one than
  -- the dead one has come before it, or the name has left a table that others have filled.
  pub dead_provider_replaced :
      (session_of : Bytes → Option BrokerSession) (w : Watch) (xs : List Beat) (b c : BrokerSession)
      (at ys : ℕ)
      → IsConsistent w.registry w.waiting
      → HasDistinctKeys w.polls
      → session_of b.id ≡ some b
      → b.role ≡ provider
      → lookup b.id w.polls ≡ some at
      → lookup b.id w.evicted ≡ none
      → All (IsDead session_of resumable b) xs
      → IsPaced session_of resumable at xs
      → at + broken_poll_grace ≤ last_tick session_of resumable at xs
      → let after = fast_reaper session_of resumable w xs in
        ((t : ℕ) × (lookup b.id after.evicted ≡ some t)
          × (at + broken_poll_grace ≤ t)
          × (t < at + broken_poll_grace + fast_reaper_interval))
        × (holds b (view after.registry b.endpoint) ≡ false)
        × Replaces b c ys after.registry
  dead_provider_replaced session_of w xs b c at ys v d s role marked unlogged dead pace late =
      let start : IsPending session_of resumable b at w = record {
        consistent = v;
        distinct = d;
        marked = marked;
        unlogged = unlogged;
      } in
      let (t, span, gone) =
        evicted_from session_of resumable at w xs b at start s role dead pace (omega arith) late in
      let r = (fast_reaper session_of resumable w xs).registry in
      (
        (t, gone.logged, span.0, span.1),
        gone.out,
        registers r b c ys gone.consistent.sound role gone.out,
      )
