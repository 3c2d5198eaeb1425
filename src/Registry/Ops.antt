-- ===== src/Registry/Ops.antt =====
-- The operations of `EndpointRegistry` in internal/broker/endpoint.go. A method runs under the locks of
-- the registry and the endpoint, so it is one step; `WaitForProvider` is several, and Register is about
-- `RegisterConsumerYamux`, which takes its locks one after the other.
use http_broker.Base.{
  ℕ, ◌+◌, ◌-◌, Bool, false, not, ◌&&◌, Option, none, some, List, [], ◌∷◌, Bytes, codes, bytes_eq,
  if◌then◌else◌, length, lookup, insert, delete,
}
use http_broker.Registry.Defs.{
  BrokerSession, Endpoint, Registry, get_or_create, delete_if_empty, store, is_nil,
}

abbrev pub consumer : Bytes
consumer = codes "consumer"

abbrev pub provider : Bytes
provider = codes "provider"

pub data Error : Type 0 where
  endpoint_limit already_has_provider : Error

pub data Result {ℓ} (A : Type ℓ) : Type ℓ where
  ok : A → Result A
  err : Error → Result A

-- The answer of a method and the registry that it leaves.
pub record Reply {ℓ} (A : Type ℓ) : Type ℓ where
  pub registry : Registry
  pub result : Result A

-- `Resumable` is a method of pollmux, asked under the locks.
module _ (resumable : BrokerSession → Bool) where
  abbrev pub differs : Bool → BrokerSession → Bool
  differs want s = if resumable s then not want else want

  unfoldable pub mismatched : Bool → List (Bytes × BrokerSession) → List BrokerSession
  mismatched want [] = []
  mismatched want ((k, c) ∷ cs) =
      let rest = mismatched want cs in if differs want c then c ∷ rest else rest

  -- `halfResumablePeersLocked`.
  unfoldable pub half_resumable_peers : Endpoint → BrokerSession → List BrokerSession
  half_resumable_peers ep joined =
      let want = resumable joined in
      if bytes_eq joined.role consumer
      then elim ep.provider_session [ none ↦ [] | some p ↦ if differs want p then p ∷ [] else [] ]
      else if bytes_eq joined.role provider
      then mismatched want ep.consumer_sessions
      else []

  -- `SetProvider`.
  unfoldable pub set_provider : Registry → Bytes → BrokerSession → ℕ → Reply (List BrokerSession)
  set_provider r name session ys = elim (get_or_create r name) [
    | none ↦ record { registry = r; result = err endpoint_limit }
    | some (r', p) ↦
        let ep = r'.heap p in
        if not (is_nil ep.provider_session)
        then record { registry = r'; result = err already_has_provider }
        else let ep' = record ep { provider_session = some session; provider_yamux = some ys } in
          record { registry = store r' p ep'; result = ok (half_resumable_peers ep' session) }
  ]

  -- `AddConsumer`.
  unfoldable pub add_consumer : Registry → Bytes → BrokerSession → Reply (List BrokerSession)
  add_consumer r name session = elim (get_or_create r name) [
    | none ↦ record { registry = r; result = err endpoint_limit }
    | some (r', p) ↦
        let ep = r'.heap p in
        let ep' = record ep {
          consumer_sessions = insert session.id session ep.consumer_sessions;
        } in
        record { registry = store r' p ep'; result = ok (half_resumable_peers ep' session) }
  ]

-- `GetProviderYamux`.
unfoldable pub get_provider_yamux : Registry → Bytes → Option ℕ
get_provider_yamux r name = elim (lookup name r.endpoints) [
  | none ↦ none
  | some p ↦ (r.heap p).provider_yamux
]

-- `WaitForProvider` from its first lock up to its loop: the error, or the endpoint waited on. Its fast path
-- before that is the method GetProviderYamux, with locks of its own.
pub data WaitStart : Type 0 where
  refused : WaitStart
  waits_on : ℕ → WaitStart

unfoldable pub wait_begin : Registry → Bytes → Registry × WaitStart
wait_begin r name = elim (get_or_create r name) [
  | none ↦ (r, refused)
  | some (r', p) ↦
      let ep = r'.heap p in (store r' p (record ep { waiters = ep.waiters + 1 }), waits_on p)
]

-- One round of its loop; the answer `(nil, false)` is `some none`, and `none` goes to `cond.Wait`.
unfoldable pub wait_check : Registry → ℕ → Bool → Option (Option ℕ)
wait_check r p done =
    if done
    then some none
    else elim (r.heap p).provider_yamux [ none ↦ none | some ys ↦ some (some ys) ]

-- Its deferred end.
unfoldable pub wait_end : Registry → Bytes → ℕ → Registry
wait_end r name p =
    let ep = r.heap p in delete_if_empty (store r p (record ep { waiters = ep.waiters - 1 })) name p

unfoldable pub yamux_values : List (Bytes × ℕ) → List ℕ
yamux_values [] = []
yamux_values ((k, ys) ∷ m) = ys ∷ yamux_values m

unfoldable pub owned_by_other : Option BrokerSession → Bytes → Bool
owned_by_other none id = false
owned_by_other (some s) id = not (bytes_eq s.id id)

-- `RemoveProvider`: the registry after it, and the yamux sessions that it closes.
unfoldable pub remove_provider : Registry → Bytes → Bytes → Registry × List ℕ
remove_provider r name session_id = elim (lookup name r.endpoints) [
  | none ↦ (r, [])
  | some p ↦
      let ep = r.heap p in
      if owned_by_other ep.provider_session session_id then (r, []) else (
        delete_if_empty
            (store r p (record ep {
              provider_session = none;
              provider_yamux = none;
              consumer_yamux_sessions = [];
              consumer_sessions = [];
            }))
            name p,
        yamux_values ep.consumer_yamux_sessions,
      )
]

-- The change that `Forget` makes to the endpoint.
unfoldable pub forget_session : Endpoint → Bytes → Bytes → Endpoint
forget_session ep session_id role =
    if bytes_eq role provider
    then if not (is_nil ep.provider_session) && not (owned_by_other ep.provider_session session_id)
      then record ep { provider_session = none; provider_yamux = none }
      else ep
    else if bytes_eq role consumer
    then record ep { consumer_sessions = delete session_id ep.consumer_sessions }
    else ep

-- `Forget`.
unfoldable pub forget : Registry → Bytes → Bytes → Bytes → Registry
forget r session_id role name = elim (lookup name r.endpoints) [
  | none ↦ r
  | some p ↦ delete_if_empty (store r p (forget_session (r.heap p) session_id role)) name p
]

-- `RegisterConsumerYamux`.
unfoldable pub register_consumer_yamux : Registry → Bytes → Bytes → ℕ → Registry
register_consumer_yamux r name session_id ys = elim (lookup name r.endpoints) [
  | none ↦ r
  | some p ↦
      let ep = r.heap p in
      store r p
        (record ep { consumer_yamux_sessions = insert session_id ys ep.consumer_yamux_sessions })
]

-- `UnregisterConsumerYamux`.
unfoldable pub unregister_consumer_yamux : Registry → Bytes → Bytes → Registry
unregister_consumer_yamux r name session_id = elim (lookup name r.endpoints) [
  | none ↦ r
  | some p ↦
      let ep = r.heap p in
      delete_if_empty
        (store r p
          (record ep { consumer_yamux_sessions = delete session_id ep.consumer_yamux_sessions }))
        name p
]

-- `HasProvider`.
unfoldable pub has_provider : Registry → Bytes → Bool
has_provider r name = elim (lookup name r.endpoints) [
  | none ↦ false
  | some p ↦ not (is_nil (r.heap p).provider_session)
]

-- `ConsumerCount`.
unfoldable pub consumer_count : Registry → Bytes → ℕ
consumer_count r name = elim (lookup name r.endpoints) [
  | none ↦ 0
  | some p ↦ length (r.heap p).consumer_yamux_sessions
]
