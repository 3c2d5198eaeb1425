-- ===== src/Server/Broker.antt =====
-- The sessions of the broker over the registry: the hooks of internal/broker/server.go, the handlers and
-- the streams of internal/broker/relay.go, as events in any order.
use http_broker.Base.{
  ℕ, ◌≤◌, ◌≡◌, ◌≢◌, refl, sym, ap, ◌∙◌, inl, inr, Bool, true, false, Option, none, some, List, [],
  ◌∷◌, ◌++◌, Bytes, bytes_eq, bytes_eq_iff, if◌then◌else◌, Bool-cases, arith, length, lookup,
  insert, delete, All,
}
use http_broker.Registry.Defs.{
  BrokerSession, Registry, max_endpoint_name_len, delete_if_empty, is_unused, points_to,
}
use http_broker.Registry.Ops.{
  Result, ok, err, provider, set_provider, add_consumer, wait_begin, wait_end,
}
use http_broker.Registry.System.{System}
use http_broker.Registry.Waiters.{
  Call, set_provider_call, add_consumer_call, remove_provider_call, forget_call, register_call,
  unregister_call, wait_begin_call, wait_end_call, step, run, noted, pick,
}
use http_broker.Server.Connect.{authenticate_connect, on_connect, on_disconnect}
use http_broker.Server.Relay.{
  ProviderRun, no_yamux, not_registered, registered, handle_provider, leave_provider,
  handle_consumer, leave_consumer,
}

-- A stream is named by its place among the waiting ones.
pub data Event : Type 0 where
  connects disconnects : BrokerSession → Event
  provider_starts consumer_starts : BrokerSession → Option ℕ → Event
  provider_ends : BrokerSession → ProviderRun → Event
  consumer_ends : BrokerSession → Bool → Event
  stream_waits : BrokerSession → Event
  stream_leaves : BrokerSession → ℕ → Event

abbrev pub session_of : Event → BrokerSession
session_of (connects s) = s
session_of (disconnects s) = s
session_of (provider_starts s y) = s
session_of (consumer_starts s y) = s
session_of (provider_ends s r) = s
session_of (consumer_ends s r) = s
session_of (stream_waits s) = s
session_of (stream_leaves s i) = s

module _ (resumable : BrokerSession → Bool) where
  unfoldable pub happen : System → Event → System
  happen b (connects s) = record b { registry = (on_connect resumable b.registry s).0 }
  happen b (disconnects s) = record b { registry = on_disconnect b.registry s }
  happen b (provider_starts s y) = record b {
    registry = (handle_provider resumable b.registry s y).0;
  }
  happen b (provider_ends s r) = record b { registry = (leave_provider b.registry s r).0 }
  happen b (consumer_starts s y) = record b { registry = (handle_consumer b.registry s y).0 }
  happen b (consumer_ends s r) = record b { registry = leave_consumer b.registry s r }
  happen b (stream_waits s) = noted b.waiting s.endpoint (wait_begin b.registry s.endpoint)
  happen b (stream_leaves s i) = elim (pick i b.waiting) [
    | none ↦ b
    | some ((n, p), ws) ↦ record { registry = wait_end b.registry n p; waiting = ws }
  ]

  unfoldable pub history : System → List Event → System
  history b [] = b
  history b (e ∷ es) = history (happen b e) es

  -- Every event is a call of the registry, or none.
  abbrev pub calls_of : Event → List Call
  calls_of (connects s) =
      if bytes_eq s.role provider then [] else add_consumer_call s.endpoint s ∷ []
  calls_of (disconnects s) = forget_call s.id s.role s.endpoint ∷ []
  calls_of (provider_starts s none) = []
  calls_of (provider_starts s (some ys)) = set_provider_call s.endpoint s ys ∷ []
  calls_of (provider_ends s no_yamux) = []
  calls_of (provider_ends s (not_registered e)) = []
  calls_of (provider_ends s (registered ps)) = remove_provider_call s.endpoint s.id ∷ []
  calls_of (consumer_starts s none) = []
  calls_of (consumer_starts s (some ys)) = register_call s.endpoint s.id ys ∷ []
  calls_of (consumer_ends s false) = []
  calls_of (consumer_ends s true) = unregister_call s.endpoint s.id ∷ []
  calls_of (stream_waits s) = wait_begin_call s.endpoint ∷ []
  calls_of (stream_leaves s i) = wait_end_call i ∷ []

  happen-run : (b : System) (e : Event) → happen b e ≡ run resumable b (calls_of e)
  unfolding happen run step on_connect on_disconnect handle_provider leave_provider handle_consumer
      leave_consumer
  happen-run b (connects s) = elim (Bool-cases (bytes_eq s.role provider)) [
    | inl e ↦ ground (arith, e)
    | inr e ↦ go (add_consumer resumable b.registry s.endpoint s).result refl e
  ]
    where
      go :
          (x : Result (List BrokerSession))
          → (add_consumer resumable b.registry s.endpoint s).result ≡ x
          → bytes_eq s.role provider ≡ false
          → happen b (connects s) ≡ run resumable b (calls_of (connects s))
      go (ok ps) f e = ground (arith, e, f)
      go (err x) f e = ground (arith, e, f)
  happen-run b (disconnects s) = refl
  happen-run b (provider_starts s none) = refl
  happen-run b (provider_starts s (some ys)) =
      go (set_provider resumable b.registry s.endpoint s ys).result refl
    where
      go :
          (x : Result (List BrokerSession))
          → (set_provider resumable b.registry s.endpoint s ys).result ≡ x
          → happen b (provider_starts s (some ys))
            ≡ run resumable b (calls_of (provider_starts s (some ys)))
      go (ok ps) f = ground (arith, f)
      go (err x) f = ground (arith, f)
  happen-run b (provider_ends s no_yamux) = refl
  happen-run b (provider_ends s (not_registered e)) = refl
  happen-run b (provider_ends s (registered ps)) = refl
  happen-run b (consumer_starts s none) = refl
  happen-run b (consumer_starts s (some ys)) = refl
  happen-run b (consumer_ends s false) = refl
  happen-run b (consumer_ends s true) = refl
  happen-run b (stream_waits s) = refl
  happen-run b (stream_leaves s i) = refl

  run-append :
      (b : System) (cs ds : List Call)
      → run resumable b (cs ++ ds) ≡ run resumable (run resumable b cs) ds
  unfolding run
  run-append b [] ds = refl
  run-append b (c ∷ cs) ds = run-append (step resumable b c) cs ds

  abbrev pub history_calls : List Event → List Call
  history_calls [] = []
  history_calls (e ∷ es) = calls_of e ++ history_calls es

  pub history-run :
      (b : System) (es : List Event) → history b es ≡ run resumable b (history_calls es)
  unfolding history run
  history-run b [] = refl
  history-run b (e ∷ es) =
      history-run (happen b e) es
      ∙ ap (λ c. run resumable c (history_calls es)) (happen-run b e)
      ∙ sym (run-append b (calls_of e) (history_calls es))

-- A name that `authenticateConnect` lets through.
abbrev pub IsName : Bytes → Type 0
IsName n = (n ≢ []) × (length n ≤ max_endpoint_name_len)

abbrev pub AreNamed : List (Bytes × ℕ) → Type 0
AreNamed m = All (λ (e : Bytes × ℕ). IsName e.0) m

pub insert-AreNamed :
    (n : Bytes) (p : ℕ) (m : List (Bytes × ℕ)) → IsName n → AreNamed m → AreNamed (insert n p m)
unfolding insert
insert-AreNamed n p [] v a = (v, tt)
insert-AreNamed n p ((k, q) ∷ m) v a = elim (Bool-cases (bytes_eq k n)) [
  | inl e ↦ rw (e, insert) (v, a.1)
  | inr e ↦ rw (e, insert) (a.0, insert-AreNamed n p m v a.1)
]

pub delete-AreNamed : (n : Bytes) (m : List (Bytes × ℕ)) → AreNamed m → AreNamed (delete n m)
unfolding delete
delete-AreNamed n [] a = tt
delete-AreNamed n ((k, q) ∷ m) a = elim (Bool-cases (bytes_eq k n)) [
  | inl e ↦ rw (e, delete) (delete-AreNamed n m a.1)
  | inr e ↦ rw (e, delete) (a.0, delete-AreNamed n m a.1)
]

pub delete_if_empty-AreNamed :
    (r : Registry) (n : Bytes) (p : ℕ)
    → AreNamed r.endpoints
    → AreNamed (delete_if_empty r n p).endpoints
unfolding delete_if_empty
delete_if_empty-AreNamed r n p a = elim (Bool-cases (is_unused (r.heap p))) [
  | inl u ↦ elim (Bool-cases (points_to (lookup n r.endpoints) p)) [
    | inl t ↦ rw (u, t, delete_if_empty) (delete-AreNamed n r.endpoints a)
    | inr t ↦ rw (u, t, delete_if_empty) a
  ]
  | inr u ↦ rw (u, delete_if_empty) a
]

pub authenticate_connect-IsName :
    (role endpoint : Bytes) → authenticate_connect role endpoint ≡ none → IsName endpoint
unfolding authenticate_connect
authenticate_connect-IsName role endpoint e =
    (ground (arith, bytes_eq_iff endpoint []), ground arith)
