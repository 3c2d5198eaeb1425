-- ===== src/Registry/System.antt =====
-- The registry of internal/broker/endpoint.go under any sequence of calls, with the streams that wait
-- for a provider in between.
use http_broker.Base.{
  ℕ, ◌<◌, ◌≡◌, refl, sym, subst, ◌∙◌, inl, inr, Bool, false, none, some, List, [], ◌∷◌, Bytes,
  Bool-cases, Option-cases, arith, length, lookup, insert,
}
use http_broker.Registry.Defs.{
  BrokerSession, Endpoint, Registry, max_endpoints, new_endpoint, store, is_nil, is_empty,
  is_unused,
}
use http_broker.Registry.Ops.{
  set_provider, add_consumer, remove_provider, forget, forget_session, register_consumer_yamux,
  unregister_consumer_yamux, owned_by_other,
}
use http_broker.Registry.Soundness.{created}
use http_broker.Registry.View.{got, full, made, get_or_create-GotOrMade}
use http_broker.Registry.Modify.{
  Waiting, IsConsistent, tidied_in_use, count_absent, held-created, changed-IsConsistent,
  created-IsConsistent,
}

pub record System : Type 0 where
  pub registry : Registry
  pub waiting : Waiting

abbrev pub AreConsistent : System → Type 0
AreConsistent s = IsConsistent s.registry s.waiting

pub heap_created : (r : Registry) (n : Bytes) → (created r n).heap r.next ≡ new_endpoint n
unfolding created
heap_created r n = ground arith

is_empty-insert {ℓ} :
    {V : Type ℓ} (k : Bytes) (v : V) (m : List (Bytes × V)) → is_empty (insert k v m) ≡ false
unfolding insert
is_empty-insert k v [] = refl
is_empty-insert k v ((j, w) ∷ m) = ground arith

-- An endpoint that was created for its first use.
pub first_use :
    (r : Registry) (n : Bytes) (ep : Endpoint) (ws : Waiting)
    → IsConsistent r ws
    → lookup n r.endpoints ≡ none
    → length r.endpoints < max_endpoints
    → ep.name ≡ n
    → ep.waiters ≡ 0
    → is_unused ep ≡ false
    → IsConsistent (store (created r n) r.next ep) ws
first_use r n ep ws v e l same counts used =
    subst (λ u. IsConsistent u ws) (tidied_in_use (created r n) n r.next ep used)
      (created-IsConsistent r n ep ws ws v e l same (counts ∙ sym (count_absent r n ws e v.held))
        (held-created r n ws e v.held) (λ m k. refl))

-- A change that leaves an endpoint in use.
pub later_use :
    (r : Registry) (n : Bytes) (p : ℕ) (ep : Endpoint) (ws : Waiting)
    → IsConsistent r ws
    → lookup n r.endpoints ≡ some p
    → ep.name ≡ (r.heap p).name
    → ep.waiters ≡ (r.heap p).waiters
    → is_unused ep ≡ false
    → IsConsistent (store r p ep) ws
later_use r n p ep ws v e same counts used =
    subst (λ u. IsConsistent u ws) (tidied_in_use r n p ep used)
      (changed-IsConsistent r n p ep ws v e same counts)

module _ (resumable : BrokerSession → Bool) where
  pub set_provider-IsConsistent :
      (r : Registry) (ws : Waiting) (n : Bytes) (b : BrokerSession) (ys : ℕ)
      → IsConsistent r ws
      → IsConsistent (set_provider resumable r n b ys).registry ws
  unfolding set_provider
  set_provider-IsConsistent r ws n b ys v = elim (get_or_create-GotOrMade r n) [
    | full e l g ↦ rw (g, set_provider) v
    | got p e g ↦
        let ep = record (r.heap p) { provider_session = some b; provider_yamux = some ys } in
        elim (Bool-cases (is_nil (r.heap p).provider_session)) [
          | inr h ↦ rw (g, h, set_provider) v
          | inl h ↦
              rw (g, h, set_provider)
                (later_use r n p ep ws v e refl refl (unfold is_unused in refl))
        ]
    | made e l g ↦
        let ep = record (new_endpoint n) { provider_session = some b; provider_yamux = some ys } in
        rw (g, heap_created r n, set_provider)
          (first_use r n ep ws v e l refl refl (unfold is_unused in refl))
  ]

  pub add_consumer-IsConsistent :
      (r : Registry) (ws : Waiting) (n : Bytes) (b : BrokerSession)
      → IsConsistent r ws
      → IsConsistent (add_consumer resumable r n b).registry ws
  unfolding add_consumer
  add_consumer-IsConsistent r ws n b v = elim (get_or_create-GotOrMade r n) [
    | full e l g ↦ rw (g, add_consumer) v
    | got p e g ↦
        let cs = (r.heap p).consumer_sessions in
        let ep = record (r.heap p) { consumer_sessions = insert b.id b cs } in
        rw (g, add_consumer)
          (later_use r n p ep ws v e refl refl
            (unfold is_unused in ground (arith, is_empty-insert b.id b cs)))
    | made e l g ↦
        let ep = record (new_endpoint n) { consumer_sessions = insert b.id b [] } in
        rw (g, heap_created r n, add_consumer)
          (first_use r n ep ws v e l refl refl
            (unfold is_unused in ground (arith, is_empty-insert {V = BrokerSession} b.id b [])))
  ]

pub remove_provider-IsConsistent :
    (r : Registry) (ws : Waiting) (n id : Bytes)
    → IsConsistent r ws
    → IsConsistent (remove_provider r n id).0 ws
unfolding remove_provider
remove_provider-IsConsistent r ws n id v = elim (Option-cases (lookup n r.endpoints)) [
  | inl e ↦ rw (e, remove_provider) v
  | inr (p, e) ↦ elim (Bool-cases (owned_by_other (r.heap p).provider_session id)) [
    | inl o ↦ rw (e, o, remove_provider) v
    | inr o ↦ rw (e, o, remove_provider) (changed-IsConsistent r n p _ ws v e refl refl)
  ]
]

forget_session_same :
    (ep : Endpoint) (id role : Bytes)
    → ((forget_session ep id role).name ≡ ep.name)
      × ((forget_session ep id role).waiters ≡ ep.waiters)
unfolding forget_session
forget_session_same ep id role = ground arith

pub forget-IsConsistent :
    (r : Registry) (ws : Waiting) (id role n : Bytes)
    → IsConsistent r ws
    → IsConsistent (forget r id role n) ws
unfolding forget
forget-IsConsistent r ws id role n v = elim (Option-cases (lookup n r.endpoints)) [
  | inl e ↦ rw (e, forget) v
  | inr (p, e) ↦
      let (same, counts) = forget_session_same (r.heap p) id role in
      rw (e, forget)
        (changed-IsConsistent r n p (forget_session (r.heap p) id role) ws v e same counts)
]

pub register_consumer_yamux-IsConsistent :
    (r : Registry) (ws : Waiting) (n id : Bytes) (ys : ℕ)
    → IsConsistent r ws
    → IsConsistent (register_consumer_yamux r n id ys) ws
unfolding register_consumer_yamux
register_consumer_yamux-IsConsistent r ws n id ys v = elim (Option-cases (lookup n r.endpoints)) [
  | inl e ↦ rw (e, register_consumer_yamux) v
  | inr (p, e) ↦
      let cs = (r.heap p).consumer_yamux_sessions in
      let ep = record (r.heap p) { consumer_yamux_sessions = insert id ys cs } in
      rw (e, register_consumer_yamux)
        (later_use r n p ep ws v e refl refl
          (unfold is_unused in ground (arith, is_empty-insert id ys cs)))
]

pub unregister_consumer_yamux-IsConsistent :
    (r : Registry) (ws : Waiting) (n id : Bytes)
    → IsConsistent r ws
    → IsConsistent (unregister_consumer_yamux r n id) ws
unfolding unregister_consumer_yamux
unregister_consumer_yamux-IsConsistent r ws n id v = elim (Option-cases (lookup n r.endpoints)) [
  | inl e ↦ rw (e, unregister_consumer_yamux) v
  | inr (p, e) ↦ rw (e, unregister_consumer_yamux) (changed-IsConsistent r n p _ ws v e refl refl)
]
