-- ===== src/Registry/Spec.antt =====
-- What the registry of internal/broker/endpoint.go promises: a directory from names to endpoints, with
-- no pointers, no addresses and no locks. An endpoint counts the streams that wait for it.
use http_broker.Base.{
  ℕ, zero, suc, ◌+◌, ◌-◌, Bool, false, not, ◌&&◌, ◌||◌, Option, none, some, List, [], ◌∷◌, Bytes,
  leb, if◌then◌else◌, length, lookup, insert, delete, bytes_eq, codes, keep_if, map,
}
use http_broker.Registry.Defs.{
  BrokerSession, Endpoint, max_endpoints, new_endpoint, is_nil, is_unused,
}
use http_broker.Registry.Ops.{Error, endpoint_limit, already_has_provider, yamux_values}
use http_broker.Registry.Waiters.{
  Call, set_provider_call, add_consumer_call, remove_provider_call, forget_call, register_call,
  unregister_call, wait_begin_call, wait_end_call,
}

abbrev pub Directory : Type 0
Directory = List (Bytes × Endpoint)

-- The directory, and for each waiting stream the name that it waits for.
pub record Promise : Type 0 where
  pub directory : Directory
  pub waiting : List Bytes

-- What a caller sees of a call.
pub data Answer : Type 0 where
  nothing : Answer
  fails : Error → Answer
  warns_of : List BrokerSession → Answer
  closes : List ℕ → Answer
  goes_waiting : Answer

-- An endpoint that nobody uses is not kept.
unfoldable pub keep : Bytes → Endpoint → Directory → Directory
keep n ep d = if is_unused ep then delete n d else insert n ep d

-- The endpoint that a caller may use under a name, if the directory is not full.
unfoldable pub entry : Bytes → Directory → Option Endpoint
entry n d = elim (lookup n d) [
  | some ep ↦ some ep
  | none ↦ if leb max_endpoints (length d) then none else some (new_endpoint n)
]

unfoldable pub pick_name : ℕ → List Bytes → Option (Bytes × List Bytes)
pick_name i [] = none
pick_name zero (n ∷ ns) = some (n, ns)
pick_name (suc i) (n ∷ ns) = elim (pick_name i ns) [ none ↦ none | some (m, ms) ↦ some (m, n ∷ ms) ]

unfoldable pub provider_yamux_of : Option Endpoint → Option ℕ
provider_yamux_of none = none
provider_yamux_of (some ep) = ep.provider_yamux

-- A change of an endpoint that is there.
unfoldable pub alter : Bytes → (Endpoint → Endpoint) → Directory → Directory
alter n f d = elim (lookup n d) [ none ↦ d | some ep ↦ keep n (f ep) d ]

abbrev pub without_provider : Endpoint → Endpoint
without_provider ep = record ep {
  provider_session = none;
  provider_yamux = none;
  consumer_yamux_sessions = [];
  consumer_sessions = [];
}

-- The provider of an endpoint is the session of this id.
abbrev pub is_provided_by : Endpoint → Bytes → Bool
is_provided_by ep id = elim ep.provider_session [ none ↦ false | some s ↦ bytes_eq s.id id ]

-- An endpoint without a session: no longer its provider if it was it, no longer among its consumers.
abbrev pub without_session : Endpoint → Bytes → Bytes → Endpoint
without_session ep id role =
    let gone = bytes_eq role (codes "provider") && is_provided_by ep id in
    record ep {
      provider_session = if gone then none else ep.provider_session;
      provider_yamux = if gone then none else ep.provider_yamux;
      consumer_sessions =
          if bytes_eq role (codes "consumer")
          then delete id ep.consumer_sessions
          else ep.consumer_sessions;
    }

-- The sessions on the other side of an endpoint from one that joins.
abbrev pub other_side : Endpoint → BrokerSession → List BrokerSession
other_side ep joined =
    if bytes_eq joined.role (codes "consumer")
    then elim ep.provider_session [ none ↦ [] | some p ↦ p ∷ [] ]
    else if bytes_eq joined.role (codes "provider")
    then map (λ e. e.1) ep.consumer_sessions
    else []

abbrev pub depart : Directory → Bytes → Bytes → Option Endpoint → Directory × Answer
depart d n id none = (d, closes [])
depart d n id (some ep) =
    if not (is_nil ep.provider_session) && not (is_provided_by ep id)
    then (d, closes [])
    else (keep n (without_provider ep) d, closes (yamux_values ep.consumer_yamux_sessions))

abbrev pub await : Promise → Bytes → Option Endpoint → Promise × Answer
await s n none = (s, fails endpoint_limit)
await s n (some ep) = (
  record {
    directory = insert n (record ep { waiters = ep.waiters + 1 }) s.directory;
    waiting = n ∷ s.waiting;
  },
  goes_waiting,
)

abbrev pub on_directory : Promise → Directory × Answer → Promise × Answer
on_directory s r = (record s { directory = r.0 }, r.1)

module _ (resumable : BrokerSession → Bool) where
  -- Those of which exactly one can resume.
  abbrev pub unlike : Endpoint → BrokerSession → List BrokerSession
  unlike ep joined =
      keep_if
        (λ s. (resumable s && not (resumable joined)) || (not (resumable s) && resumable joined))
        (other_side ep joined)

  abbrev pub provide : Directory → Bytes → BrokerSession → ℕ → Option Endpoint → Directory × Answer
  provide d n b ys none = (d, fails endpoint_limit)
  provide d n b ys (some ep) =
      let ep' = record ep { provider_session = some b; provider_yamux = some ys } in
      if is_nil ep.provider_session
      then (insert n ep' d, warns_of (unlike ep' b))
      else (d, fails already_has_provider)

  abbrev pub consume : Directory → Bytes → BrokerSession → Option Endpoint → Directory × Answer
  consume d n b none = (d, fails endpoint_limit)
  consume d n b (some ep) =
      let ep' = record ep { consumer_sessions = insert b.id b ep.consumer_sessions } in
      (insert n ep' d, warns_of (unlike ep' b))

  unfoldable pub promise : Promise → Call → Promise × Answer
  promise s (set_provider_call n b ys) =
      on_directory s (provide s.directory n b ys (entry n s.directory))
  promise s (add_consumer_call n b) = on_directory s (consume s.directory n b (entry n s.directory))
  promise s (remove_provider_call n id) =
      on_directory s (depart s.directory n id (lookup n s.directory))
  promise s (forget_call id role n) =
      on_directory s (alter n (λ ep. without_session ep id role) s.directory, nothing)
  promise s (register_call n id ys) = on_directory s (
    elim (lookup n s.directory) [
      | none ↦ s.directory
      | some ep ↦
          insert n (record ep { consumer_yamux_sessions = insert id ys ep.consumer_yamux_sessions })
            s.directory
    ],
    nothing,
  )
  promise s (unregister_call n id) = on_directory s (
    alter n (λ ep. record ep { consumer_yamux_sessions = delete id ep.consumer_yamux_sessions })
        s.directory,
    nothing,
  )
  promise s (wait_begin_call n) = await s n (entry n s.directory)
  promise s (wait_end_call i) = elim (pick_name i s.waiting) [
    | none ↦ (s, nothing)
    | some (n, ns) ↦ (
      record {
        directory = alter n (λ ep. record ep { waiters = ep.waiters - 1 }) s.directory;
        waiting = ns;
      },
      nothing,
    )
  ]

  unfoldable pub promises : Promise → List Call → Promise × List Answer
  promises s [] = (s, [])
  promises s (c ∷ cs) = let r = promise s c in let rest = promises r.0 cs in (rest.0, r.1 ∷ rest.1)
