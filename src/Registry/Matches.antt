-- ===== src/Registry/Matches.antt =====
-- Helpers of internal/broker/endpoint.go that do what Registry/Spec says in its own words.
use http_broker.Base.{
  ◌≡◌, refl, sym, subst, inl, inr, Bool, true, false, not, ◌&&◌, ◌||◌, List, [], ◌∷◌, Bytes,
  bytes_eq, bytes_eq_iff, Bool-cases, arith, keep_if, map,
}
use http_broker.Registry.Defs.{BrokerSession, Endpoint, is_nil}
use http_broker.Registry.Ops.{
  consumer, provider, owned_by_other, forget_session, mismatched, half_resumable_peers,
}
use http_broker.Registry.Spec.{is_provided_by, without_session, unlike}

-- A role is not both.
provider_is_no_consumer :
    (role : Bytes) → bytes_eq role provider ≡ true → bytes_eq role consumer ≡ false
unfolding bytes_eq
provider_is_no_consumer role e =
    subst (λ r. bytes_eq r consumer ≡ false) (sym ((bytes_eq_iff role provider).0 e)) refl

pub held_by_other :
    (ep : Endpoint) (id : Bytes)
    → (not (is_nil ep.provider_session) && not (is_provided_by ep id))
      ≡ owned_by_other ep.provider_session id
unfolding owned_by_other
held_by_other ep id = ground arith

pub without_session-forget_session :
    (ep : Endpoint) (id role : Bytes) → without_session ep id role ≡ forget_session ep id role
unfolding forget_session
without_session-forget_session ep id role = elim (Bool-cases (bytes_eq role provider)) [
  | inl e ↦ ground (arith, e, provider_is_no_consumer role e, held_by_other ep id)
  | inr e ↦ ground (arith, e)
]

module _ (resumable : BrokerSession → Bool) where
  mismatched-keep_if :
      (joined : BrokerSession) (cs : List (Bytes × BrokerSession))
      → keep_if
          (λ s. (resumable s && not (resumable joined)) || (not (resumable s) && resumable joined))
          (map (λ e. e.1) cs)
        ≡ mismatched resumable (resumable joined) cs
  unfolding mismatched
  mismatched-keep_if joined [] = refl
  mismatched-keep_if joined (c ∷ cs) = ground (arith, mismatched-keep_if joined cs)

  pub unlike-half_resumable_peers :
      (ep : Endpoint) (joined : BrokerSession)
      → unlike resumable ep joined ≡ half_resumable_peers resumable ep joined
  unfolding half_resumable_peers
  unlike-half_resumable_peers ep joined =
      ground (arith, mismatched-keep_if joined ep.consumer_sessions)
