-- ===== src/Registry/Debts.antt =====
-- What the calls of internal/broker/endpoint.go put into the registry and have not taken out again.
use http_broker.Base.{
  ◌≡◌, subst, inl, inr, Bool, true, false, ◌&&◌, Option, none, some, List, [], ◌∷◌, Bytes, ℕ,
  bytes_eq, bytes_eq_iff, if◌then◌else◌, Bool-cases, Option-cases, arith, lookup, insert, delete,
  lookup-insert, lookup-delete,
}
use http_broker.Registry.Defs.{BrokerSession, Endpoint, new_endpoint, is_unused}
use http_broker.Registry.Ops.{provider, consumer}
use http_broker.Registry.Waiters.{
  Call, set_provider_call, add_consumer_call, remove_provider_call, forget_call, register_call,
  unregister_call, wait_begin_call, wait_end_call,
}
use http_broker.Registry.Spec.{Directory, keep, alter, entry}

-- For each name and each id: whether a provider, a consumer or a consumer's yamux session is still to be
-- taken out.
pub record Owed : Type 0 where
  pub provider : Bytes → Bytes → Bool
  pub consumer : Bytes → Bytes → Bool
  pub yamux : Bytes → Bytes → Bool

abbrev pub put : (Bytes → Bytes → Bool) → Bytes → Bytes → Bool → Bytes → Bytes → Bool
put f n id b m k = if bytes_eq n m && bytes_eq id k then b else f m k

unfoldable pub owe : Owed → Call → Owed
owe o (set_provider_call n b ys) = record o { provider = put o.provider n b.id true }
owe o (add_consumer_call n b) = record o { consumer = put o.consumer n b.id true }
owe o (remove_provider_call n id) = record o { provider = put o.provider n id false }
owe o (forget_call id role n) =
    if bytes_eq role provider
    then record o { provider = put o.provider n id false }
    else if bytes_eq role consumer
    then record o { consumer = put o.consumer n id false }
    else o
owe o (register_call n id ys) = record o { yamux = put o.yamux n id true }
owe o (unregister_call n id) = record o { yamux = put o.yamux n id false }
owe o (wait_begin_call n) = o
owe o (wait_end_call i) = o

unfoldable pub owes : Owed → List Call → Owed
owes o [] = o
owes o (c ∷ cs) = owes (owe o c) cs

abbrev pub none_owed : Owed
none_owed = record { provider = λ n id. false; consumer = λ n id. false; yamux = λ n id. false }

-- All that an endpoint has is owed.
pub record IsOwed (o : Owed) (n : Bytes) (ep : Endpoint) : Type 0 where
  pub of_provider : (b : BrokerSession) → ep.provider_session ≡ some b → o.provider n b.id ≡ true
  pub of_consumer :
      (id : Bytes) (c : BrokerSession)
      → lookup id ep.consumer_sessions ≡ some c
      → o.consumer n id ≡ true
  pub of_yamux :
      (id : Bytes) (ys : ℕ) → lookup id ep.consumer_yamux_sessions ≡ some ys → o.yamux n id ≡ true

abbrev pub AreOwed : Owed → Directory → Type 0
AreOwed o d = (n : Bytes) (ep : Endpoint) → lookup n d ≡ some ep → IsOwed o n ep

-- What is owed for other names stays.
abbrev pub Spares : Bytes → Owed → Owed → Type 0
Spares n o o' = (m : Bytes) (ep : Endpoint) → bytes_eq n m ≡ false → IsOwed o m ep → IsOwed o' m ep

changed-AreOwed :
    (o o' : Owed) (n : Bytes) (d d' : Directory) (new : Option Endpoint)
    → Spares n o o'
    → ((m : Bytes) → lookup m d' ≡ (if bytes_eq n m then new else lookup m d))
    → ((ep : Endpoint) → new ≡ some ep → IsOwed o' n ep)
    → AreOwed o d
    → AreOwed o' d'
changed-AreOwed o o' n d d' new spared change here h m ep e = elim (Bool-cases (bytes_eq n m)) [
  | inl same ↦
      let found : new ≡ some ep = ground (arith, change m, same, e) in
      subst (λ u. IsOwed o' u ep) ((bytes_eq_iff n m).0 same) (here ep found)
  | inr other ↦ spared m ep other (h m ep (ground (arith, change m, other, e)))
]

pub insert-AreOwed :
    (o o' : Owed) (n : Bytes) (ep : Endpoint) (d : Directory)
    → Spares n o o'
    → IsOwed o' n ep
    → AreOwed o d
    → AreOwed o' (insert n ep d)
insert-AreOwed o o' n ep d spared new h =
    changed-AreOwed o o' n d (insert n ep d) (some ep) spared (λ m. lookup-insert n m ep d)
      (λ ep' e. subst (IsOwed o' n) (ground (arith, e)) new) h

pub keep-AreOwed :
    (o o' : Owed) (n : Bytes) (ep : Endpoint) (d : Directory)
    → Spares n o o'
    → IsOwed o' n ep
    → AreOwed o d
    → AreOwed o' (keep n ep d)
unfolding keep
keep-AreOwed o o' n ep d spared new h = elim (Bool-cases (is_unused ep)) [
  | inl u ↦
      rw (u, keep)
        (changed-AreOwed o o' n d (delete n d) none spared (λ m. lookup-delete n m d)
          (λ ep' e. absurd (cc e)) h)
  | inr u ↦ rw (u, keep) (insert-AreOwed o o' n ep d spared new h)
]

-- A directory that stays.
pub same-AreOwed :
    (o o' : Owed) (n : Bytes) (d : Directory)
    → Spares n o o'
    → ((ep : Endpoint) → lookup n d ≡ some ep → IsOwed o' n ep)
    → AreOwed o d
    → AreOwed o' d
same-AreOwed o o' n d spared here h =
    changed-AreOwed o o' n d d (lookup n d) spared (λ m. ground (arith, bytes_eq_iff n m)) here h

pub alter-AreOwed :
    (o o' : Owed) (n : Bytes) (f : Endpoint → Endpoint) (d : Directory)
    → Spares n o o'
    → ((ep : Endpoint) → IsOwed o n ep → IsOwed o' n (f ep))
    → AreOwed o d
    → AreOwed o' (alter n f d)
unfolding alter
alter-AreOwed o o' n f d spared change h = elim (Option-cases (lookup n d)) [
  | inl e ↦ rw (e, alter) (same-AreOwed o o' n d spared (λ ep found. absurd (cc (e, found))) h)
  | inr (ep, e) ↦ rw (e, alter) (keep-AreOwed o o' n (f ep) d spared (change ep (h n ep e)) h)
]

-- The endpoint that a caller may use.
pub entry-IsOwed :
    (o : Owed) (n : Bytes) (d : Directory) (ep : Endpoint)
    → AreOwed o d
    → entry n d ≡ some ep
    → IsOwed o n ep
unfolding entry
entry-IsOwed o n d ep h e = elim (Option-cases (lookup n d)) [
  | inr (ep', f) ↦ subst (IsOwed o n) (ground (arith, e, f)) (h n ep' f)
  | inl f ↦
      let new : new_endpoint n ≡ ep = ground (arith, e, f) in
      subst (IsOwed o n) new (record {
        of_provider = λ b k. absurd (cc k);
        of_consumer = λ id c k. absurd (unfold lookup in cc k);
        of_yamux = λ id ys k. absurd (unfold lookup in cc k);
      })
]
