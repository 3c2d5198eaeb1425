-- ===== src/Server/Evicting.antt =====
-- What a tick of the fast reaper of internal/broker/server.go does to the marks and to the registry.
use http_broker.Base.{
  ℕ, ◌≡◌, refl, inl, inr, false, Option, none, some, List, [], ◌∷◌, Bytes, bytes_eq, bytes_eq_iff,
  Bool-cases, Option-cases, arith, lookup, insert-HasDistinctKeys, HasDistinctKeys,
}
use http_broker.Registry.Defs.{BrokerSession, Registry}
use http_broker.Registry.Soundness.{IsSound}
use http_broker.Registry.Modify.{Waiting, IsConsistent}
use http_broker.Registry.System.{forget-IsConsistent}
use http_broker.Registry.View.{view}
use http_broker.Server.Connect.{on_disconnect}
use http_broker.Server.Reaper.{PollSession, mark_broken_poll, find_due, find_due-lookup}
use http_broker.Server.Stopping.{holds, forget-IsSound, on_disconnect_self, on_disconnect_other}
use http_broker.Server.FastReaper.{stamped, disconnect_id, disconnect_all}

pub find_due-HasDistinctKeys :
    (store : Bytes → Option PollSession) (now : ℕ) (polls : List (Bytes × ℕ))
    → HasDistinctKeys polls
    → HasDistinctKeys (find_due store now polls).0
unfolding find_due
find_due-HasDistinctKeys store now [] h = tt
find_due-HasDistinctKeys store now ((id, at) ∷ polls) h = ground (
  arith,
  h.0,
  find_due-HasDistinctKeys store now polls h.1,
  (find_due-lookup store now id polls h.1).0,
)

pub mark_broken_poll-HasDistinctKeys :
    (store : Bytes → Option PollSession) (at : ℕ) (polls : List (Bytes × ℕ)) (id : Bytes)
    → HasDistinctKeys polls
    → HasDistinctKeys (mark_broken_poll store at polls id)
unfolding mark_broken_poll
mark_broken_poll-HasDistinctKeys store at polls id h =
    ground (arith, insert-HasDistinctKeys id at polls h)

pub lookup-stamped :
    (k : Bytes) (now : ℕ) (due : List (Bytes × ℕ))
    → lookup k (stamped now due) ≡ elim (lookup k due) [ none ↦ none | some at ↦ some now ]
unfolding stamped lookup
lookup-stamped k now [] = refl
lookup-stamped k now ((id, at) ∷ due) = ground (arith, lookup-stamped k now due)

module _ (session_of : Bytes → Option BrokerSession) where
  pub disconnect_id-IsSound :
      (r : Registry) (id : Bytes) → IsSound r → IsSound (disconnect_id session_of r id)
  unfolding disconnect_id on_disconnect
  disconnect_id-IsSound r id v = elim (Option-cases (session_of id)) [
    | inl e ↦ rw (e, disconnect_id) v
    | inr (b, e) ↦ rw (e, disconnect_id) (forget-IsSound r b.id b.role b.endpoint v)
  ]

  pub disconnect_all-IsSound :
      (r : Registry) (due : List (Bytes × ℕ))
      → IsSound r
      → IsSound (disconnect_all session_of r due)
  unfolding disconnect_all
  disconnect_all-IsSound r [] v = v
  disconnect_all-IsSound r ((id, at) ∷ due) v =
      disconnect_all-IsSound (disconnect_id session_of r id) due (disconnect_id-IsSound r id v)

  pub disconnect_all-IsConsistent :
      (r : Registry) (ws : Waiting) (due : List (Bytes × ℕ))
      → IsConsistent r ws
      → IsConsistent (disconnect_all session_of r due) ws
  unfolding disconnect_all disconnect_id on_disconnect
  disconnect_all-IsConsistent r ws [] v = v
  disconnect_all-IsConsistent r ws ((id, at) ∷ due) v =
      disconnect_all-IsConsistent (disconnect_id session_of r id) ws due
        (elim (Option-cases (session_of id)) [
          | inl e ↦ rw (e, disconnect_id) v
          | inr (b, e) ↦ rw (e, disconnect_id) (forget-IsConsistent r ws b.id b.role b.endpoint v)
        ])

  -- A session that is out of its endpoint stays out.
  pub disconnect_all_other :
      (r : Registry) (due : List (Bytes × ℕ)) (b : BrokerSession)
      → IsSound r
      → holds b (view r b.endpoint) ≡ false
      → holds b (view (disconnect_all session_of r due) b.endpoint) ≡ false
  unfolding disconnect_all disconnect_id
  disconnect_all_other r [] b v h = h
  disconnect_all_other r ((id, at) ∷ due) b v h =
      disconnect_all_other (disconnect_id session_of r id) due b (disconnect_id-IsSound r id v)
        (elim (Option-cases (session_of id)) [
          | inl e ↦ rw (e, disconnect_id) h
          | inr (c, e) ↦ rw (e, disconnect_id) (on_disconnect_other r b c v h)
        ])

  -- A session that is evicted is out.
  pub disconnect_all_self :
      (r : Registry) (due : List (Bytes × ℕ)) (b : BrokerSession) (at : ℕ)
      → IsSound r
      → session_of b.id ≡ some b
      → lookup b.id due ≡ some at
      → holds b (view (disconnect_all session_of r due) b.endpoint) ≡ false
  unfolding disconnect_all lookup
  disconnect_all_self r [] b at v s h = absurd (cc h)
  disconnect_all_self r ((id, at') ∷ due) b at v s h = elim (Bool-cases (bytes_eq id b.id)) [
    | inl e ↦
        let here : disconnect_id session_of r id ≡ on_disconnect r b =
          unfold disconnect_id in ground (arith, s, (bytes_eq_iff id b.id).0 e) in
        disconnect_all_other (disconnect_id session_of r id) due b (disconnect_id-IsSound r id v)
          (rw here (on_disconnect_self r b v))
    | inr e ↦
        disconnect_all_self (disconnect_id session_of r id) due b at (disconnect_id-IsSound r id v)
          s (ground (arith, h, e))
  ]
