-- ===== src/Consumer/Accounts.antt =====
-- Where the connections of the SOCKS5 listener of internal/consumer/client.go are: the sessions' loops
-- refine the rounds of the queue.
use http_broker.Base.{ℕ, ◌+◌, ◌≤◌, ◌≡◌, refl, ap, ◌∙◌, inl, inr, List, [], ◌∷◌, ◌++◌, arith, length}
use http_broker.Consumer.Queue.{
  Round, accepts, accept_fails, serves, drains, act, acts, accept_conn, serve_conn, drain,
  new_queue, accepted_now, accepted_in, occurrences, queue_size, acts_account_for_all,
}
use http_broker.Consumer.Sessions.{
  Client, new_client, take_conn, Move, session_starts, session_ends, loop_turns, conn_comes,
  accept_ends, run_ends, move, moves, comes_now, comes_in, conns,
}
use http_broker.Consumer.Patience.{any_turn}

-- A move is a round of the queue, or leaves the queue.
data IsRound (k : Client) (m : Move) : Type 0 where
  no_round : (move k m).queue ≡ k.queue → comes_now k m ≡ [] → IsRound k m
  one_round :
      (r : Round)
      → (move k m).queue ≡ act k.queue r
      → comes_now k m ≡ accepted_now k.queue r
      → IsRound k m

queue-take_conn : (s : ℕ) (k : Client) → (take_conn s k).queue ≡ serve_conn k.queue
unfolding take_conn serve_conn
queue-take_conn s k = go k.queue.waiting refl
  where
    go : (w : List ℕ) → k.queue.waiting ≡ w → (take_conn s k).queue ≡ serve_conn k.queue
    go [] e = ground (arith, e)
    go (c ∷ cs) e = ground (arith, e)

move-IsRound : (k : Client) (m : Move) → IsRound k m
unfolding move comes_now act accepted_now
move-IsRound k (session_starts s) = no_round refl refl
move-IsRound k (session_ends s) = no_round refl refl
move-IsRound k (conn_comes c done p) = one_round (accepts c done p) refl refl
move-IsRound k accept_ends = one_round accept_fails refl refl
move-IsRound k run_ends = one_round drains refl refl
move-IsRound k (loop_turns s p) = elim (any_turn s p k) [
  | inl took ↦ one_round serves (ap (λ (j : Client). j.queue) took ∙ queue-take_conn s k) refl
  | inr (inl same) ↦ no_round (ap (λ (j : Client). j.queue) same) refl
  | inr (inr gone) ↦ no_round (ap (λ (j : Client). j.queue) gone) refl
]

moves-acts :
    (k : Client) (ms : List Move)
    → (rs : List Round) × ((moves k ms).queue ≡ acts k.queue rs)
      × (comes_in k ms ≡ accepted_in k.queue rs)
unfolding moves comes_in acts accepted_in
moves-acts k [] = ([], refl, refl)
moves-acts k (m ∷ ms) =
    let (rs, e, f) = moves-acts (move k m) ms in
    elim (move-IsRound k m) [
      | no_round same none_came ↦
          (rs, e ∙ ap (λ q. acts q rs) same, rw none_came (f ∙ ap (λ q. accepted_in q rs) same))
      | one_round r next came ↦ (
        r ∷ rs,
        e ∙ ap (λ q. acts q rs) next,
        rw came
            (ap (λ later. accepted_now k.queue r ++ later) (f ∙ ap (λ q. accepted_in q rs) next)),
      )
    ]

-- What was handed over is what the queue counts as served.
abbrev AreHanded : Client → Type 0
AreHanded k = conns k.handed ≡ k.queue.served

take_conn-AreHanded : (s : ℕ) (k : Client) → AreHanded k → AreHanded (take_conn s k)
unfolding take_conn serve_conn
take_conn-AreHanded s k h = go k.queue.waiting refl
  where
    go : (w : List ℕ) → k.queue.waiting ≡ w → AreHanded (take_conn s k)
    go [] e = ground (arith, e, h)
    go (c ∷ cs) e = ground (arith, e, h)

move-AreHanded : (k : Client) (m : Move) → AreHanded k → AreHanded (move k m)
unfolding move act accept_conn drain
move-AreHanded k (session_starts s) h = h
move-AreHanded k (session_ends s) h = h
move-AreHanded k (conn_comes c done p) h = ground (arith, h)
move-AreHanded k accept_ends h = h
move-AreHanded k run_ends h = h
move-AreHanded k (loop_turns s p) h = elim (any_turn s p k) [
  | inl took ↦ rw took (take_conn-AreHanded s k h)
  | inr (inl same) ↦ rw same h
  | inr (inr gone) ↦ rw gone h
]

moves-AreHanded : (k : Client) (ms : List Move) → AreHanded k → AreHanded (moves k ms)
unfolding moves
moves-AreHanded k [] h = h
moves-AreHanded k (m ∷ ms) h = moves-AreHanded (move k m) ms (move-AreHanded k m h)

-- From the start of a client, whatever sessions come and go, in whatever order the loops, acceptLoop and the
-- end of Run take their turns, and whichever of two ready cases is picked: every accepted connection waits,
-- was closed or was handed to a session's SOCKS5 server, exactly once each time it was accepted, and nothing
-- else is in these places; and at most 64 connections wait.
pub moves_account_for_all :
    (ms : List Move) (c : ℕ)
    → let k = moves new_client ms in
      (occurrences c k.queue.waiting + occurrences c k.queue.closed + occurrences c (conns k.handed)
        ≡ occurrences c (comes_in new_client ms))
      × (length k.queue.waiting ≤ queue_size)
unfolding new_client
moves_account_for_all ms c =
    let (rs, e, f) = moves-acts new_client ms in
    let all = acts_account_for_all rs c in
    let handed = moves-AreHanded new_client ms (unfold new_queue in refl) in rw (handed, e, f) all
