-- ===== src/Consumer/Patience.antt =====
-- That a connection in the queue of internal/consumer/client.go is served while a session lasts.
use mathlib.Core.List.Memᴰ.{head, tail}
use http_broker.Base.{
  ℕ, suc, ◌<◌, ◌≡◌, refl, ap, ◌∙◌, inl, inr, ◌⊎◌, Bool, true, false, not, ◌&&◌, ◌||◌, Option, none,
  some, List, [], ◌∷◌, ◌++◌, Memᴰ, if◌then◌else◌, ◌==◌, Bool-cases, arith, append_assoc, length,
  All,
}
use http_broker.Consumer.Queue.{act, accepts, serve_conn, accepted_now}
use http_broker.Consumer.Sessions.{
  Client, find_loop, cancel_loop, end_loop, is_empty, take_conn, serve_turn, Move, session_starts,
  session_ends, loop_turns, conn_comes, accept_ends, run_ends, move, moves, conns,
}
use http_broker.Consumer.Order.{act_joins}

-- The turns of the loop of a session.
unfoldable pub turns : ℕ → List Move → ℕ
turns s [] = 0
turns s (loop_turns t p ∷ ms) = let n = turns s ms in if t == s then suc n else n
turns s (session_starts t ∷ ms) = turns s ms
turns s (session_ends t ∷ ms) = turns s ms
turns s (conn_comes c done p ∷ ms) = turns s ms
turns s (accept_ends ∷ ms) = turns s ms
turns s (run_ends ∷ ms) = turns s ms

-- A move that neither ends the session nor Run.
abbrev pub spares : ℕ → Move → Bool
spares s (session_ends t) = not (t == s)
spares s run_ends = false
spares s accept_ends = true
spares s (session_starts t) = true
spares s (loop_turns t p) = true
spares s (conn_comes c done p) = true

-- A connection was handed over, or fewer than n stand before it in the queue.
abbrev Ahead : ℕ → ℕ → Client → Type 0
Ahead c n k =
    Memᴰ c (conns k.handed)
    ⊎ ((xs : List ℕ) × (ys : List ℕ) × (k.queue.waiting ≡ xs ++ c ∷ ys) × (length xs < n))

find_loop-cancel_loop :
    (s t : ℕ) (loops : List (ℕ × Bool))
    → (t == s) ≡ false
    → find_loop s (cancel_loop t loops) ≡ find_loop s loops
unfolding find_loop cancel_loop
find_loop-cancel_loop s t [] h = refl
find_loop-cancel_loop s t ((u, b) ∷ loops) h = ground (arith, h, find_loop-cancel_loop s t loops h)

find_loop-end_loop :
    (s t : ℕ) (loops : List (ℕ × Bool))
    → (t == s) ≡ false
    → find_loop s (end_loop t loops) ≡ find_loop s loops
unfolding find_loop end_loop
find_loop-end_loop s t [] h = refl
find_loop-end_loop s t ((u, b) ∷ loops) h = ground (arith, h, find_loop-end_loop s t loops h)

-- The loop of a session that lasts takes a connection if there is one; another loop takes one, ends or
-- waits.
live_turn :
    (s : ℕ) (p : Bool) (k : Client)
    → find_loop s k.loops ≡ some false
    → serve_turn s p k ≡ take_conn s k
unfolding serve_turn
live_turn s p k h = ground (arith, h)

loops-take_conn : (s : ℕ) (k : Client) → (take_conn s k).loops ≡ k.loops
unfolding take_conn
loops-take_conn s k = go k.queue.waiting refl
  where
    go : (w : List ℕ) → k.queue.waiting ≡ w → (take_conn s k).loops ≡ k.loops
    go [] e = ground (arith, e)
    go (c ∷ cs) e = ground (arith, e)

pub any_turn :
    (s : ℕ) (p : Bool) (k : Client)
    → (serve_turn s p k ≡ take_conn s k)
      ⊎ (serve_turn s p k ≡ k)
      ⊎ (serve_turn s p k ≡ record k { loops = end_loop s k.loops })
unfolding serve_turn
any_turn s p k = go (find_loop s k.loops) refl
  where
    go :
        (l : Option Bool)
        → find_loop s k.loops ≡ l
        → (serve_turn s p k ≡ take_conn s k)
          ⊎ (serve_turn s p k ≡ k)
          ⊎ (serve_turn s p k ≡ record k { loops = end_loop s k.loops })
    go none e = inr (inl (ground (arith, e)))
    go (some cancelled) e = elim (Bool-cases (cancelled && (p || is_empty k.queue.waiting))) [
      | inl f ↦ inr (inr (ground (arith, e, f)))
      | inr f ↦ inl (ground (arith, e, f))
    ]

-- The session's loop goes on.
stays_live :
    (s : ℕ) (k : Client) (m : Move)
    → find_loop s k.loops ≡ some false
    → spares s m ≡ true
    → find_loop s (move k m).loops ≡ some false
unfolding move find_loop
stays_live s k (session_starts t) h ok = ground (arith, h)
stays_live s k (session_ends t) h ok = find_loop-cancel_loop s t k.loops (ground (arith, ok)) ∙ h
stays_live s k (conn_comes c done p) h ok = h
stays_live s k accept_ends h ok = h
stays_live s k run_ends h ok = absurd (cc ok)
stays_live s k (loop_turns t p) h ok = elim (Bool-cases (t == s)) [
  | inl same ↦
      let mine : find_loop t k.loops ≡ some false = ground (arith, same, h) in
      rw (live_turn t p k mine, loops-take_conn t k) h
  | inr other ↦ elim (any_turn t p k) [
    | inl took ↦ rw (took, loops-take_conn t k) h
    | inr (inl same) ↦ rw same h
    | inr (inr gone) ↦ rw gone (find_loop-end_loop s t k.loops other ∙ h)
  ]
]

-- A receive brings a connection one place nearer.
take_conn-Ahead : (s c n : ℕ) (k : Client) → Ahead c (suc n) k → Ahead c n (take_conn s k)
unfolding take_conn serve_conn
take_conn-Ahead s c n k (inl done) = go k.queue.waiting refl
  where
    go : (w : List ℕ) → k.queue.waiting ≡ w → Ahead c n (take_conn s k)
    go [] e = rw e (inl done)
    go (d ∷ ds) e = rw e (inl (tail done))
take_conn-Ahead s c n k (inr ([], ys, e, h)) = rw e (inl (head refl))
take_conn-Ahead s c n k (inr (x ∷ xs, ys, e, h)) = rw e (inr (xs, ys, refl, omega arith))

Ahead-suc : (c n : ℕ) (k : Client) → Ahead c n k → Ahead c (suc n) k
Ahead-suc c n k (inl done) = inl done
Ahead-suc c n k (inr (xs, ys, e, h)) = inr (xs, ys, e, omega arith)

serve_turn-Ahead : (s c n : ℕ) (p : Bool) (k : Client) → Ahead c n k → Ahead c n (serve_turn s p k)
serve_turn-Ahead s c n p k h = elim (any_turn s p k) [
  | inl took ↦ rw took (take_conn-Ahead s c n k (Ahead-suc c n k h))
  | inr (inl same) ↦ rw same h
  | inr (inr gone) ↦ rw gone h
]

-- A connection that comes stands behind.
comes-Ahead :
    (c n d : ℕ) (done p : Bool) (k : Client)
    → Ahead c n k
    → Ahead c n (move k (conn_comes d done p))
unfolding move
comes-Ahead c n d done p k (inl served) = inl served
comes-Ahead c n d done p k (inr (xs, ys, e, h)) =
    let new = accepted_now k.queue (accepts d done p) in
    elim (act_joins d done p k.queue) [
      | inr same ↦ inr (xs, ys, same ∙ e, h)
      | inl joined ↦
          inr (xs, ys ++ new, joined ∙ ap (λ w. w ++ new) e ∙ append_assoc xs (c ∷ ys) new, h)
    ]

moves-Ahead :
    (s c : ℕ) (k : Client) (ms : List Move)
    → find_loop s k.loops ≡ some false
    → All (λ m. spares s m ≡ true) ms
    → Ahead c (turns s ms) k
    → Memᴰ c (conns (moves k ms).handed)
unfolding moves turns move act
moves-Ahead s c k [] live calm (inl done) = done
moves-Ahead s c k [] live calm (inr (xs, ys, e, h)) = absurd (omega arith)
moves-Ahead s c k (session_starts t ∷ ms) live calm h =
    moves-Ahead s c (move k (session_starts t)) ms (stays_live s k (session_starts t) live calm.0)
      calm.1 h
moves-Ahead s c k (session_ends t ∷ ms) live calm h =
    moves-Ahead s c (move k (session_ends t)) ms (stays_live s k (session_ends t) live calm.0)
      calm.1 h
moves-Ahead s c k (accept_ends ∷ ms) live calm h =
    moves-Ahead s c (move k accept_ends) ms live calm.1 h
moves-Ahead s c k (run_ends ∷ ms) live calm h = absurd (cc calm.0)
moves-Ahead s c k (conn_comes d done p ∷ ms) live calm h =
    moves-Ahead s c (move k (conn_comes d done p)) ms live calm.1
      (comes-Ahead c (turns s ms) d done p k h)
moves-Ahead s c k (loop_turns t p ∷ ms) live calm h =
    moves-Ahead s c (serve_turn t p k) ms (stays_live s k (loop_turns t p) live calm.0) calm.1
      (elim (Bool-cases (t == s)) [
        | inl same ↦
            let mine : find_loop t k.loops ≡ some false = ground (arith, same, live) in
            let sooner : Ahead c (suc (turns s ms)) k = rw same at h in
            rw (live_turn t p k mine) (take_conn-Ahead t c (turns s ms) k sooner)
        | inr other ↦
            let later : Ahead c (turns s ms) k = rw other at h in
            serve_turn-Ahead t c (turns s ms) p k later
      ])

-- While a session lasts and Run does not end, and whatever else happens: a connection in the queue is handed
-- to a SOCKS5 server by the time that the session's loop has had more turns than there are connections
-- before it.
pub waiting_is_served :
    (s c : ℕ) (xs ys : List ℕ) (k : Client) (ms : List Move)
    → k.queue.waiting ≡ xs ++ c ∷ ys
    → find_loop s k.loops ≡ some false
    → All (λ m. spares s m ≡ true) ms
    → length xs < turns s ms
    → Memᴰ c (conns (moves k ms).handed)
waiting_is_served s c xs ys k ms e live calm h = moves-Ahead s c k ms live calm (inr (xs, ys, e, h))
