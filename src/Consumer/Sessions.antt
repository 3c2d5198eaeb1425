-- ===== src/Consumer/Sessions.antt =====
-- The sessions of internal/consumer/client.go over the queue of accepted connections: Run's Serve starts a
-- serveLoop for each session and cancels it at the session's end, and the loops of sessions that ended may
-- still run. A connection and a session are numbers.
use http_broker.Base.{
  ℕ, Bool, true, false, ◌&&◌, ◌||◌, Option, none, some, List, [], ◌∷◌, ◌++◌, if◌then◌else◌, ◌==◌,
}
use http_broker.Consumer.Queue.{
  Queue, new_queue, accepts, accept_fails, drains, act, accepted_now, serve_conn,
}

-- The queue, the serveLoops that run, each with whether its context is cancelled, and the connections
-- that were handed to a session's SOCKS5 server, the last one first.
pub record Client : Type 0 where
  pub queue : Queue
  pub loops : List (ℕ × Bool)
  pub handed : List (ℕ × ℕ)

unfoldable pub new_client : Client
new_client = record { queue = new_queue; loops = []; handed = [] }

unfoldable pub find_loop : ℕ → List (ℕ × Bool) → Option Bool
find_loop s [] = none
find_loop s ((t, cancelled) ∷ loops) = if t == s then some cancelled else find_loop s loops

unfoldable pub cancel_loop : ℕ → List (ℕ × Bool) → List (ℕ × Bool)
cancel_loop s [] = []
cancel_loop s ((t, cancelled) ∷ loops) =
    let rest = cancel_loop s loops in if t == s then (t, true) ∷ rest else (t, cancelled) ∷ rest

unfoldable pub end_loop : ℕ → List (ℕ × Bool) → List (ℕ × Bool)
end_loop s [] = []
end_loop s ((t, cancelled) ∷ loops) =
    let rest = end_loop s loops in if t == s then rest else (t, cancelled) ∷ rest

abbrev pub is_empty : List ℕ → Bool
is_empty [] = true
is_empty (c ∷ cs) = false

-- A receive of the loop of a session: `go server.ServeConn`, if there is a connection.
unfoldable pub take_conn : ℕ → Client → Client
take_conn s k = elim k.queue.waiting [
  | [] ↦ k
  | c ∷ cs ↦ record k { queue = serve_conn k.queue; handed = (c, s) ∷ k.handed }
]

-- The select of serveLoop. `prefers_done` says which of two ready cases Go picks.
unfoldable pub serve_turn : ℕ → Bool → Client → Client
serve_turn s prefers_done k = elim (find_loop s k.loops) [
  | none ↦ k
  | some cancelled ↦
      if cancelled && (prefers_done || is_empty k.queue.waiting)
      then record k { loops = end_loop s k.loops }
      else take_conn s k
]

-- A session starts or ends, a loop takes a turn, acceptLoop takes a connection or fails, Run ends.
pub data Move : Type 0 where
  session_starts session_ends : ℕ → Move
  loop_turns : ℕ → Bool → Move
  conn_comes : ℕ → Bool → Bool → Move
  accept_ends run_ends : Move

unfoldable pub move : Client → Move → Client
move k (session_starts s) = record k { loops = (s, false) ∷ k.loops }
move k (session_ends s) = record k { loops = cancel_loop s k.loops }
move k (loop_turns s prefers_done) = serve_turn s prefers_done k
move k (conn_comes c done prefers_done) = record k {
  queue = act k.queue (accepts c done prefers_done);
}
move k accept_ends = record k { queue = act k.queue accept_fails }
move k run_ends = record k { queue = act k.queue drains }

unfoldable pub moves : Client → List Move → Client
moves k [] = k
moves k (m ∷ ms) = moves (move k m) ms

-- The connections that acceptLoop accepts in these moves, in their order.
unfoldable pub comes_now : Client → Move → List ℕ
comes_now k (conn_comes c done prefers_done) = accepted_now k.queue (accepts c done prefers_done)
comes_now k (session_starts s) = []
comes_now k (session_ends s) = []
comes_now k (loop_turns s prefers_done) = []
comes_now k accept_ends = []
comes_now k run_ends = []

unfoldable pub comes_in : Client → List Move → List ℕ
comes_in k [] = []
comes_in k (m ∷ ms) = comes_now k m ++ comes_in (move k m) ms

abbrev pub conns : List (ℕ × ℕ) → List ℕ
conns [] = []
conns ((c, s) ∷ handed) = c ∷ conns handed
