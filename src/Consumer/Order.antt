-- ===== src/Consumer/Order.antt =====
-- The order in which the connections of the SOCKS5 listener of internal/consumer/client.go are served.
use mathlib.Core.List.{Sublistᴰ, reverse_aux}
use mathlib.Core.List.Sublistᴰ.{slnil, cons, cons-cons, nil-sublist, trans, refl as sublist_refl}
use http_broker.Base.{
  ℕ, ◌≡◌, refl, subst, ◌⊎◌, inl, inr, Bool, not, ◌&&◌, ◌||◌, Option, none, some, List, [], ◌∷◌,
  ◌++◌, ltb, Bool-cases, arith, append_assoc, append-nil, length,
}
use http_broker.Consumer.Queue.{
  Queue, new_queue, queue_size, accepts, act, accept_conn, serve_conn, drain, accepted_now,
}
use http_broker.Consumer.Sessions.{
  Client, new_client, find_loop, take_conn, serve_turn, Move, session_starts, session_ends,
  loop_turns, conn_comes, accept_ends, run_ends, move, moves, comes_now, comes_in, conns,
}

-- The connections that were handed over, the first one first, and those that wait behind them.
abbrev pub line : Client → List ℕ
line k = reverse_aux (conns k.handed) k.queue.waiting

reverse_aux-append : (xs ys zs : List ℕ) → reverse_aux xs (ys ++ zs) ≡ reverse_aux xs ys ++ zs
reverse_aux-append [] ys zs = refl
reverse_aux-append (x ∷ xs) ys zs = reverse_aux-append xs (x ∷ ys) zs

reverse_aux-Sublistᴰ :
    (xs : List ℕ) {ys zs : List ℕ}
    → Sublistᴰ ys zs
    → Sublistᴰ (reverse_aux xs ys) (reverse_aux xs zs)
reverse_aux-Sublistᴰ [] h = h
reverse_aux-Sublistᴰ (x ∷ xs) h = reverse_aux-Sublistᴰ xs (cons-cons refl h)

append-Sublistᴰ : {xs ys : List ℕ} (zs : List ℕ) → Sublistᴰ xs ys → Sublistᴰ (xs ++ zs) (ys ++ zs)
append-Sublistᴰ zs slnil = sublist_refl zs
append-Sublistᴰ zs (cons h) = cons (append-Sublistᴰ zs h)
append-Sublistᴰ zs (cons-cons e h) = cons-cons e (append-Sublistᴰ zs h)

Sublistᴰ-append : {xs ys : List ℕ} (zs : List ℕ) → Sublistᴰ xs ys → Sublistᴰ xs (ys ++ zs)
Sublistᴰ-append zs slnil = nil-sublist zs
Sublistᴰ-append zs (cons h) = cons (Sublistᴰ-append zs h)
Sublistᴰ-append zs (cons-cons e h) = cons-cons e (Sublistᴰ-append zs h)

-- A connection that is accepted joins the end of the queue, or leaves it as it is.
pub act_joins :
    (c : ℕ) (done prefers_done : Bool) (q : Queue)
    → let r = accepts c done prefers_done in
      ((act q r).waiting ≡ q.waiting ++ accepted_now q r) ⊎ ((act q r).waiting ≡ q.waiting)
unfolding act accepted_now accept_conn
act_joins c done prefers_done q = elim (Bool-cases q.stopped) [
  | inl e ↦ inr (ground (arith, e))
  | inr f ↦ elim (Bool-cases (done && (prefers_done || not (ltb (length q.waiting) queue_size)))) [
    | inl e ↦ inr (ground (arith, f, e))
    | inr e ↦ elim (Bool-cases (ltb (length q.waiting) queue_size)) [
      | inl room ↦ inl (ground (arith, f, e, room))
      | inr room ↦ inr (ground (arith, f, e, room))
    ]
  ]
]

line-take_conn : (s : ℕ) (k : Client) → line (take_conn s k) ≡ line k
unfolding take_conn serve_conn
line-take_conn s k = go k.queue.waiting refl
  where
    go : (w : List ℕ) → k.queue.waiting ≡ w → line (take_conn s k) ≡ line k
    go [] e = ground (arith, e)
    go (c ∷ cs) e = ground (arith, e)

line-serve_turn : (s : ℕ) (p : Bool) (k : Client) → line (serve_turn s p k) ≡ line k
unfolding serve_turn
line-serve_turn s p k = go (find_loop s k.loops) refl
  where
    go : (l : Option Bool) → find_loop s k.loops ≡ l → line (serve_turn s p k) ≡ line k
    go none e = ground (arith, e)
    go (some cancelled) e = ground (arith, e, line-take_conn s k)

move-Sublistᴰ :
    (k : Client) (m : Move) (done : List ℕ)
    → Sublistᴰ (line k) done
    → Sublistᴰ (line (move k m)) (done ++ comes_now k m)
unfolding move comes_now act drain
move-Sublistᴰ k (session_starts s) done h = rw (append-nil done) h
move-Sublistᴰ k (session_ends s) done h = rw (append-nil done) h
move-Sublistᴰ k (loop_turns s p) done h = rw (append-nil done, line-serve_turn s p k) h
move-Sublistᴰ k accept_ends done h = rw (append-nil done) h
move-Sublistᴰ k run_ends done h =
    rw (append-nil done)
      (trans (reverse_aux-Sublistᴰ (conns k.handed) (nil-sublist k.queue.waiting)) h)
move-Sublistᴰ k (conn_comes c d p) done h =
    let new = accepted_now k.queue (accepts c d p) in
    elim (act_joins c d p k.queue) [
      | inr same ↦ rw same (Sublistᴰ-append new h)
      | inl joined ↦
          rw (joined, reverse_aux-append (conns k.handed) k.queue.waiting new)
            (append-Sublistᴰ new h)
    ]

moves-Sublistᴰ :
    (k : Client) (ms : List Move) (done : List ℕ)
    → Sublistᴰ (line k) done
    → Sublistᴰ (line (moves k ms)) (done ++ comes_in k ms)
unfolding moves comes_in
moves-Sublistᴰ k [] done h = rw (append-nil done) h
moves-Sublistᴰ k (m ∷ ms) done h =
    subst (λ all. Sublistᴰ (line (moves (move k m) ms)) all)
      (append_assoc done (comes_now k m) (comes_in (move k m) ms))
      (moves-Sublistᴰ (move k m) ms (done ++ comes_now k m) (move-Sublistᴰ k m done h))

-- From the start of a client, whatever sessions come and go, in whatever order the loops, acceptLoop and the
-- end of Run take their turns, and whichever of two ready cases is picked: the connections handed to SOCKS5
-- servers, in the order in which they were handed over, and behind them those that still wait, stand in the
-- order in which they were accepted, with no one twice that was accepted once.
pub serves_in_order :
    (ms : List Move) → Sublistᴰ (line (moves new_client ms)) (comes_in new_client ms)
unfolding new_client new_queue
serves_in_order ms = moves-Sublistᴰ new_client ms [] slnil
