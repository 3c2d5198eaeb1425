-- ===== src/Registry/Methods.antt =====
-- Each method of internal/broker/endpoint.go does to the directory what Registry/Spec says.
use http_broker.Base.{
  ℕ, zero, suc, ◌+◌, ◌-◌, ◌≡◌, refl, inl, inr, Bool, none, some, [], ◌∷◌, Bytes, Option-cases,
  arith, lookup, insert, delete,
}
use http_broker.Registry.Defs.{BrokerSession, Registry, new_endpoint}
use http_broker.Registry.Ops.{
  set_provider, add_consumer, remove_provider, forget, forget_session, register_consumer_yamux,
  unregister_consumer_yamux, wait_begin, wait_end, get_provider_yamux,
}
use http_broker.Registry.Soundness.{IsSound}
use http_broker.Registry.View.{got, full, made, get_or_create-GotOrMade}
use http_broker.Registry.Modify.{Waiting}
use http_broker.Registry.System.{System, heap_created}
use http_broker.Registry.Waiters.{wait_begin_call, noted, pick}
use http_broker.Registry.Spec.{
  closes, entry, pick_name, without_session, alter, provide, consume, depart, promise,
  provider_yamux_of,
}
use http_broker.Registry.Matches.{
  held_by_other, without_session-forget_session, unlike-half_resumable_peers,
}
use http_broker.Registry.Flatten.{flatten, flatten-store, flatten-tidied}
use http_broker.Registry.Abstraction.{
  names, abstraction, result_answer, start_answer, lookup-flatten-some, lookup-flatten-none,
  entry_got, entry_full, entry_made, first_use,
}

module _ (resumable : BrokerSession → Bool) where
  pub set_provider-provide :
      (r : Registry) (n : Bytes) (b : BrokerSession) (ys : ℕ)
      → IsSound r
      → provide resumable (flatten r) n b ys (entry n (flatten r)) ≡ (
        flatten (set_provider resumable r n b ys).registry,
        result_answer (set_provider resumable r n b ys).result,
      )
  unfolding set_provider
  set_provider-provide r n b ys v = elim (get_or_create-GotOrMade r n) [
    | full e l g ↦ rw (g, set_provider, entry_full r n e l) refl
    | got p e g ↦
        let new = record (r.heap p) { provider_session = some b; provider_yamux = some ys } in
        ground (
          arith,
          g,
          entry_got r n p e,
          flatten-store r n p new v e,
          unlike-half_resumable_peers resumable new b,
        )
    | made e l g ↦
        let new = record (new_endpoint n) { provider_session = some b; provider_yamux = some ys } in
        ground (
          arith,
          g,
          entry_made r n e l,
          first_use r n new v e l,
          heap_created r n,
          unlike-half_resumable_peers resumable new b,
        )
  ]

  pub add_consumer-consume :
      (r : Registry) (n : Bytes) (b : BrokerSession)
      → IsSound r
      → consume resumable (flatten r) n b (entry n (flatten r)) ≡ (
        flatten (add_consumer resumable r n b).registry,
        result_answer (add_consumer resumable r n b).result,
      )
  unfolding add_consumer
  add_consumer-consume r n b v = elim (get_or_create-GotOrMade r n) [
    | full e l g ↦ ground (arith, g, entry_full r n e l)
    | got p e g ↦
        let new = record (r.heap p) {
          consumer_sessions = insert b.id b (r.heap p).consumer_sessions;
        } in
        ground (
          arith,
          g,
          entry_got r n p e,
          flatten-store r n p new v e,
          unlike-half_resumable_peers resumable new b,
        )
    | made e l g ↦
        let new = record (new_endpoint n) { consumer_sessions = insert b.id b [] } in
        ground (
          arith,
          g,
          entry_made r n e l,
          first_use r n new v e l,
          heap_created r n,
          unlike-half_resumable_peers resumable new b,
        )
  ]

pub remove_provider-depart :
    (r : Registry) (n id : Bytes)
    → IsSound r
    → depart (flatten r) n id (lookup n (flatten r))
      ≡ (flatten (remove_provider r n id).0, closes (remove_provider r n id).1)
unfolding remove_provider
remove_provider-depart r n id v = elim (Option-cases (lookup n r.endpoints)) [
  | inl e ↦ ground (arith, e, lookup-flatten-none r n e)
  | inr (p, e) ↦
      let new = record (r.heap p) {
        provider_session = none;
        provider_yamux = none;
        consumer_yamux_sessions = [];
        consumer_sessions = [];
      } in
      ground (
        arith,
        e,
        lookup-flatten-some r n p e,
        flatten-tidied r n p new v e,
        held_by_other (r.heap p) id,
      )
]

pub forget-alter :
    (r : Registry) (id role n : Bytes)
    → IsSound r
    → alter n (λ ep. without_session ep id role) (flatten r) ≡ flatten (forget r id role n)
unfolding forget alter
forget-alter r id role n v = elim (Option-cases (lookup n r.endpoints)) [
  | inl e ↦ ground (arith, e, lookup-flatten-none r n e)
  | inr (p, e) ↦ ground (
    arith,
    e,
    lookup-flatten-some r n p e,
    flatten-tidied r n p (forget_session (r.heap p) id role) v e,
    without_session-forget_session (r.heap p) id role,
  )
]

pub unregister-alter :
    (r : Registry) (n id : Bytes)
    → IsSound r
    → alter n
        (λ ep. record ep { consumer_yamux_sessions = delete id ep.consumer_yamux_sessions })
        (flatten r)
      ≡ flatten (unregister_consumer_yamux r n id)
unfolding unregister_consumer_yamux alter
unregister-alter r n id v = elim (Option-cases (lookup n r.endpoints)) [
  | inl e ↦ ground (arith, e, lookup-flatten-none r n e)
  | inr (p, e) ↦
      let new = record (r.heap p) {
        consumer_yamux_sessions = delete id (r.heap p).consumer_yamux_sessions;
      } in
      ground (arith, e, lookup-flatten-some r n p e, flatten-tidied r n p new v e)
]

pub register-insert :
    (r : Registry) (n id : Bytes) (ys : ℕ)
    → IsSound r
    → (elim (lookup n (flatten r)) [
      | none ↦ flatten r
      | some ep ↦
          insert n
            (record ep { consumer_yamux_sessions = insert id ys ep.consumer_yamux_sessions })
            (flatten r)
    ])
      ≡ flatten (register_consumer_yamux r n id ys)
unfolding register_consumer_yamux
register-insert r n id ys v = elim (Option-cases (lookup n r.endpoints)) [
  | inl e ↦ ground (arith, e, lookup-flatten-none r n e)
  | inr (p, e) ↦
      let new = record (r.heap p) {
        consumer_yamux_sessions = insert id ys (r.heap p).consumer_yamux_sessions;
      } in
      ground (arith, e, lookup-flatten-some r n p e, flatten-store r n p new v e)
]

pub provider_yamux_of-lookup :
    (r : Registry) (n : Bytes) → provider_yamux_of (lookup n (flatten r)) ≡ get_provider_yamux r n
unfolding provider_yamux_of get_provider_yamux
provider_yamux_of-lookup r n = elim (Option-cases (lookup n r.endpoints)) [
  | inl e ↦ ground (arith, e, lookup-flatten-none r n e)
  | inr (p, e) ↦ ground (arith, e, lookup-flatten-some r n p e)
]

pub wait_begin-await :
    (resumable : BrokerSession → Bool) (s : System) (n : Bytes)
    → IsSound s.registry
    → promise resumable (abstraction s) (wait_begin_call n) ≡ (
      abstraction (noted s.waiting n (wait_begin s.registry n)),
      start_answer (wait_begin s.registry n).1,
    )
unfolding wait_begin promise names
wait_begin-await resumable s n v =
    let r = s.registry in
    elim (get_or_create-GotOrMade r n) [
      | full e l g ↦ ground (arith, g, entry_full r n e l)
      | got p e g ↦
          let new = record (r.heap p) { waiters = (r.heap p).waiters + 1 } in
          ground (arith, g, entry_got r n p e, flatten-store r n p new v e)
      | made e l g ↦
          let new = record (new_endpoint n) { waiters = 0 + 1 } in
          ground (arith, g, entry_made r n e l, first_use r n new v e l, heap_created r n)
    ]

pub pick-pick_name :
    (i : ℕ) (ws : Waiting)
    → pick_name i (names ws)
      ≡ (elim (pick i ws) [ none ↦ none | some ((n, p), vs) ↦ some (n, names vs) ])
unfolding pick pick_name names
pick-pick_name i [] = refl
pick-pick_name zero ((n, p) ∷ ws) = refl
pick-pick_name (suc i) ((n, p) ∷ ws) = elim (Option-cases (pick i ws)) [
  | inl e ↦ ground (arith, e, pick-pick_name i ws)
  | inr (((m, q), vs), e) ↦ ground (arith, e, pick-pick_name i ws)
]

pub wait_end-alter :
    (r : Registry) (n : Bytes) (p : ℕ)
    → IsSound r
    → lookup n r.endpoints ≡ some p
    → alter n (λ ep. record ep { waiters = ep.waiters - 1 }) (flatten r) ≡ flatten (wait_end r n p)
unfolding wait_end alter
wait_end-alter r n p v e =
    let new = record (r.heap p) { waiters = (r.heap p).waiters - 1 } in
    ground (arith, e, lookup-flatten-some r n p e, flatten-tidied r n p new v e)
