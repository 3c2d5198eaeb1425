-- ===== src/Server/Stopping.antt =====
-- `Stop` of internal/broker/server.go over the registry. The shutdown of the HTTP server and the sweeper's
-- goroutine are net/http's and pollmux's; CloseSession calls `onDisconnect` of the session, as pollmux
-- documents.
use http_broker.Base.{
  ℕ, ◌≡◌, refl, ap, inl, inr, Bool, true, false, not, ◌&&◌, Option, none, some, List, [], ◌∷◌, ◌++◌,
  Bytes, bytes_eq, bytes_eq_iff, bytes_eq_refl, if◌then◌else◌, Bool-cases, Option-cases, arith,
  lookup, lookup-delete, All,
}
use http_broker.Registry.Defs.{BrokerSession, Endpoint, Registry, is_nil, is_unused, store}
use http_broker.Registry.Ops.{provider, consumer, owned_by_other, forget, forget_session}
use http_broker.Registry.Soundness.{IsSound, store-IsSound, delete_if_empty-IsSound}
use http_broker.Registry.View.{view, view_tidied, unless_unused}
use http_broker.Server.Connect.{on_disconnect}

-- The fields of `Server` that `Stop` reads and writes: the registry, whether `stopSweeper` is set, which
-- only Start does, and whether `stopOnce` is used up.
pub record Server : Type 0 where
  pub registry : Registry
  pub has_sweeper : Bool
  pub stop_once : Bool

-- What `Stop` calls, in order.
pub data Effect : Type 0 where
  shuts_down_http : Effect
  closes_session : BrokerSession → Effect
  stops_sweeper : Effect

pub record Stopped (E : Type 0) : Type 0 where
  pub server : Server
  pub error : Option E
  pub effects : List Effect

-- The loop over the sessions of the store.
unfoldable pub close_sessions : Registry → List BrokerSession → Registry × List Effect
close_sessions r [] = (r, [])
close_sessions r (b ∷ bs) =
    let rest = close_sessions (on_disconnect r b) bs in (rest.0, closes_session b ∷ rest.1)

-- What Shutdown answers, an error if its context ends before the requests do, and what `s.store.All()`
-- answers after it are arguments.
unfoldable pub stop : {E : Type 0} → Option E → List BrokerSession → Server → Stopped E
stop answer sessions s =
    if s.stop_once
    then record { server = s; error = none; effects = [] }
    else let closed = close_sessions s.registry sessions in
      let last = if s.has_sweeper then stops_sweeper ∷ [] else [] in
      record {
        server = record s { registry = closed.0; stop_once = true };
        error = answer;
        effects = shuts_down_http ∷ (closed.1 ++ last);
      }

-- An endpoint holds a session as its provider or among its consumers, by the session's role.
abbrev pub holds : BrokerSession → Option Endpoint → Bool
holds b none = false
holds b (some ep) =
    if bytes_eq b.role provider
    then not (is_nil ep.provider_session) && not (owned_by_other ep.provider_session b.id)
    else bytes_eq b.role consumer && not (is_nil (lookup b.id ep.consumer_sessions))

forget_session_self :
    (b : BrokerSession) (ep : Endpoint) → holds b (some (forget_session ep b.id b.role)) ≡ false
unfolding forget_session
forget_session_self b ep =
    ground (arith, lookup-delete b.id b.id ep.consumer_sessions, bytes_eq_refl b.id)

forget_session_other :
    (b : BrokerSession) (ep : Endpoint) (id role : Bytes)
    → holds b (some ep) ≡ false
    → holds b (some (forget_session ep id role)) ≡ false
unfolding forget_session
forget_session_other b ep id role h = ground (arith, h, lookup-delete id b.id ep.consumer_sessions)

unless_unused-holds :
    (b : BrokerSession) (ep : Endpoint)
    → holds b (some ep) ≡ false
    → holds b (unless_unused ep) ≡ false
unless_unused-holds b ep h = elim (Bool-cases (is_unused ep)) [ inl u ↦ rw u refl | inr u ↦ rw u h ]

pub view-forget :
    (r : Registry) (id role n m : Bytes) (p : ℕ)
    → IsSound r
    → lookup n r.endpoints ≡ some p
    → view (forget r id role n) m
      ≡ (if bytes_eq n m then unless_unused (forget_session (r.heap p) id role) else view r m)
unfolding forget
view-forget r id role n m p v e =
    rw (e, forget) (view_tidied r n m p (forget_session (r.heap p) id role) v e)

pub forget-none :
    (r : Registry) (id role n : Bytes) → lookup n r.endpoints ≡ none → forget r id role n ≡ r
unfolding forget
forget-none r id role n e = rw (e, forget)

pub forget-IsSound : (r : Registry) (id role n : Bytes) → IsSound r → IsSound (forget r id role n)
unfolding forget forget_session
forget-IsSound r id role n v = elim (Option-cases (lookup n r.endpoints)) [
  | inl e ↦ rw (e, forget) v
  | inr (p, e) ↦
      rw (e, forget)
        (delete_if_empty-IsSound (store r p (forget_session (r.heap p) id role)) n p
          (store-IsSound r p (forget_session (r.heap p) id role) v (ground arith)))
]

-- A disconnect, seen by name.
pub view-on_disconnect :
    (r : Registry) (c : BrokerSession) (m : Bytes)
    → IsSound r
    → view (on_disconnect r c) m ≡ (
        if bytes_eq c.endpoint m
        then elim (view r c.endpoint) [
          | none ↦ none
          | some ep ↦ unless_unused (forget_session ep c.id c.role)
        ]
        else view r m)
unfolding on_disconnect view
view-on_disconnect r c m v = elim (Option-cases (lookup c.endpoint r.endpoints)) [
  | inl e ↦ ground (arith, forget-none r c.id c.role c.endpoint e, e, bytes_eq_iff c.endpoint m)
  | inr (p, e) ↦ ground (arith, view-forget r c.id c.role c.endpoint m p v e, e)
]

-- What every change to an endpoint by a disconnect keeps, the disconnect keeps.
pub on_disconnect_keeps :
    (Keeps : Option Endpoint → Type 0) (r : Registry) (c : BrokerSession) (n : Bytes)
    → IsSound r
    → ((ep : Endpoint) → Keeps (some ep) → Keeps (unless_unused (forget_session ep c.id c.role)))
    → Keeps (view r n)
    → Keeps (view (on_disconnect r c) n)
on_disconnect_keeps Keeps r c n v step h = elim (Bool-cases (bytes_eq c.endpoint n)) [
  | inr other ↦ rw (view-on_disconnect r c n v, other) h
  | inl same ↦
      let here : view r c.endpoint ≡ view r n = ap (view r) ((bytes_eq_iff c.endpoint n).0 same) in
      rw (view-on_disconnect r c n v, same, here) (go (view r n) h)
]
  where
    go :
        (seen : Option Endpoint)
        → Keeps seen
        → Keeps
            (elim seen [ none ↦ none | some ep ↦ unless_unused (forget_session ep c.id c.role) ])
    go none k = k
    go (some ep) k = step ep k

-- The disconnect of a session takes it out of its endpoint, and brings no other in.
pub on_disconnect_self :
    (r : Registry) (b : BrokerSession)
    → IsSound r
    → holds b (view (on_disconnect r b) b.endpoint) ≡ false
on_disconnect_self r b v =
    rw (view-on_disconnect r b b.endpoint v, bytes_eq_refl b.endpoint) (go (view r b.endpoint))
  where
    go :
        (seen : Option Endpoint)
        → holds b
            (elim seen [ none ↦ none | some ep ↦ unless_unused (forget_session ep b.id b.role) ])
          ≡ false
    go none = refl
    go (some ep) = unless_unused-holds b (forget_session ep b.id b.role) (forget_session_self b ep)

pub on_disconnect_other :
    (r : Registry) (b c : BrokerSession)
    → IsSound r
    → holds b (view r b.endpoint) ≡ false
    → holds b (view (on_disconnect r c) b.endpoint) ≡ false
on_disconnect_other r b c v h =
    on_disconnect_keeps (λ seen. holds b seen ≡ false) r c b.endpoint v
      (λ ep k.
        unless_unused-holds b (forget_session ep c.id c.role)
          (forget_session_other b ep c.id c.role k))
      h

close_sessions_other :
    (r : Registry) (bs : List BrokerSession) (b : BrokerSession)
    → IsSound r
    → holds b (view r b.endpoint) ≡ false
    → holds b (view (close_sessions r bs).0 b.endpoint) ≡ false
unfolding close_sessions on_disconnect
close_sessions_other r [] b v h = h
close_sessions_other r (c ∷ bs) b v h =
    close_sessions_other (on_disconnect r c) bs b (forget-IsSound r c.id c.role c.endpoint v)
      (on_disconnect_other r b c v h)

close_sessions-All :
    (r : Registry) (bs : List BrokerSession)
    → IsSound r
    → All (λ b. holds b (view (close_sessions r bs).0 b.endpoint) ≡ false) bs
unfolding close_sessions on_disconnect
close_sessions-All r [] v = tt
close_sessions-All r (b ∷ bs) v =
    let v' = forget-IsSound r b.id b.role b.endpoint v in
    (
      close_sessions_other (on_disconnect r b) bs b v' (on_disconnect_self r b v),
      close_sessions-All (on_disconnect r b) bs v',
    )

-- The closings of some sessions, one after the other.
abbrev pub closings : List BrokerSession → List Effect
closings [] = []
closings (b ∷ bs) = closes_session b ∷ closings bs

close_sessions-closings :
    (r : Registry) (bs : List BrokerSession) → (close_sessions r bs).1 ≡ closings bs
unfolding close_sessions
close_sessions-closings r [] = refl
close_sessions-closings r (b ∷ bs) =
    ap (◌∷◌ (closes_session b)) (close_sessions-closings (on_disconnect r b) bs)

-- The first Stop of a server whose registry is sound, whatever Shutdown answers: no endpoint has a session
-- of the store as its provider or among its consumers any more, whatever the order in which they are
-- closed; the error is Shutdown's; Shutdown comes first, then every session of the store is closed, and
-- the sweeper, if there is one, is stopped last. A further Stop, whatever it would find, calls nothing,
-- changes nothing and returns no error. Requests that are still in flight after a Shutdown that failed
-- are not part of this.
pub stop_forgets :
    {E : Type 0} (answer : Option E) (sessions : List BrokerSession) (s : Server)
    → IsSound s.registry
    → s.stop_once ≡ false
    → let stopped = stop answer sessions s in
      All (λ b. holds b (view stopped.server.registry b.endpoint) ≡ false) sessions
      × (stopped.error ≡ answer)
      × (stopped.effects
          ≡ shuts_down_http
            ∷ (closings sessions ++ (if s.has_sweeper then stops_sweeper ∷ [] else [])))
      × ((again : Option E) (found : List BrokerSession)
          → stop again found stopped.server
            ≡ record { server = stopped.server; error = none; effects = [] })
unfolding stop
stop_forgets answer sessions s v f = (
  rw (f, stop) (close_sessions-All s.registry sessions v),
  ground (arith, f),
  ground (arith, f, close_sessions-closings s.registry sessions),
  λ again found. ground (arith, f),
)
