-- ===== src/Consumer/Tests.antt =====
-- A queue that is served once, drained, and accepts after that.
use mathlib.Core.List.{Sublistᴰ}
use http_broker.Base.{
  ℕ, ◌≡◌, ◌+◌, ◌≤◌, ◌<◌, arith, refl, true, false, some, List, [], ◌∷◌, ◌++◌, Memᴰ, length,
}
use http_broker.Client.{outcome_transport_failed}
use http_broker.Consumer.Queue.{
  accepted_now, Round, accepts, serves, drains, acts, act, accept_conn, serve_conn, drain,
  drain_conns, new_queue, occurrences, queue_size,
}
use http_broker.Consumer.Sessions.{
  Client, new_client, find_loop, cancel_loop, take_conn, serve_turn, Move, session_starts,
  session_ends, loop_turns, conn_comes, move, moves, comes_in, comes_now, accept_ends, conns,
}
use http_broker.Consumer.Order.{line, serves_in_order}
use http_broker.Consumer.Patience.{turns, waiting_is_served}
use http_broker.Consumer.Accounts.{moves_account_for_all}
use http_broker.Consumer.Ending.{failed_case, closed_case, end_of_session, serve}

abbrev rounds : List Round
rounds = accepts 1 false false ∷ accepts 2 false false ∷ serves ∷ drains ∷ accepts 3 true false ∷ []

-- What comes between the drain and the close of the listener may stay in the queue.
left_behind : (acts new_queue rounds).waiting ≡ 3 ∷ []
unfolding acts act accept_conn serve_conn drain drain_conns new_queue
left_behind = refl

-- Two connections come; the session of the first loop ends, and another takes its place.
abbrev a_day : List Move
a_day =
    session_starts 0
    ∷ conn_comes 1 false false
    ∷ conn_comes 2 false false
    ∷ session_ends 0
    ∷ session_starts 5
    ∷ loop_turns 0 false
    ∷ loop_turns 5 false
    ∷ []

serves_in_order_example : Sublistᴰ (line (moves new_client a_day)) (comes_in new_client a_day)
serves_in_order_example = serves_in_order a_day

moves_account_for_all_example :
    let k = moves new_client a_day in
    (occurrences 2 k.queue.waiting + occurrences 2 k.queue.closed + occurrences 2 (conns k.handed)
      ≡ occurrences 2 (comes_in new_client a_day))
    × (length k.queue.waiting ≤ queue_size)
moves_account_for_all_example = moves_account_for_all a_day 2

-- The first connection is handed to the session that had ended.
handed_to_the_dead : (moves new_client a_day).handed ≡ (2, 5) ∷ (1, 0) ∷ []
unfolding moves move take_conn serve_turn find_loop cancel_loop act accept_conn serve_conn
    new_client new_queue
handed_to_the_dead = refl

abbrev busy : Client
busy =
    moves new_client (session_starts 5 ∷ conn_comes 1 false false ∷ conn_comes 2 false false ∷ [])

abbrev before : List ℕ
before = 1 ∷ []

busy-waiting : busy.queue.waiting ≡ before ++ 2 ∷ []
unfolding moves move act accept_conn new_client new_queue
busy-waiting = refl

busy-live : find_loop 5 busy.loops ≡ some false
unfolding moves move find_loop new_client
busy-live = refl

abbrev some_turns : List Move
some_turns = loop_turns 5 false ∷ conn_comes 3 false false ∷ loop_turns 5 true ∷ []

two_turns : length before < turns 5 some_turns
unfolding turns
two_turns = omega arith

waiting_is_served_example : Memᴰ 2 (conns (moves busy some_turns).handed)
waiting_is_served_example =
    waiting_is_served 5 2 before [] busy some_turns busy-waiting busy-live
      (refl, (refl, (refl, tt))) two_turns

-- The yamux session closes because the transport failed: either ready case reports that.
either_reports_failure :
    (serve (some 5) failed_case true ≡ outcome_transport_failed)
    × (serve (some 5) closed_case true ≡ outcome_transport_failed)
unfolding serve end_of_session
either_reports_failure = (refl, refl)

-- After an error of Accept no connection comes in, whatever sessions start.
abbrev after_error : List Move
after_error = accept_ends ∷ session_starts 0 ∷ conn_comes 1 false false ∷ loop_turns 0 false ∷ []

accepts_no_more : comes_in new_client after_error ≡ []
unfolding comes_in comes_now move serve_turn find_loop take_conn act accepted_now new_client
    new_queue
accepts_no_more = refl
