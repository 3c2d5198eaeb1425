-- ===== src/Consumer/Queue.antt =====
-- `connQueue` of internal/consumer/client.go between acceptLoop, serveLoop and the end of Run, as rounds
-- in any order. A connection is a number.
use http_broker.Base.{
  ℕ, suc, ◌+◌, ◌≤◌, ◌≡◌, refl, ap, ◌∙◌, Bool, true, false, not, ◌&&◌, ◌||◌, List, [], ◌∷◌, ◌++◌,
  if◌then◌else◌, ◌==◌, ltb, arith, length, length-append,
}

abbrev pub queue_size : ℕ
queue_size = 64

-- The buffer of the channel, the connections that were closed unserved and those handed to the SOCKS5
-- server, and whether acceptLoop has returned.
pub record Queue : Type 0 where
  pub waiting : List ℕ
  pub closed : List ℕ
  pub served : List ℕ
  pub stopped : Bool

unfoldable pub new_queue : Queue
new_queue = record { waiting = []; closed = []; served = []; stopped = false }

-- The select of acceptLoop on an accepted connection. `done` says whether the context is cancelled, and
-- `prefers_done` which of two ready cases Go picks.
unfoldable pub accept_conn : ℕ → Bool → Bool → Queue → Queue
accept_conn c done prefers_done q =
    let room = ltb (length q.waiting) queue_size in
    if done && (prefers_done || not room)
    then record q { closed = c ∷ q.closed; stopped = true }
    else if room
    then record q { waiting = q.waiting ++ c ∷ [] }
    else record q { closed = c ∷ q.closed }

-- The receive of serveLoop; on an empty queue it goes on waiting.
unfoldable pub serve_conn : Queue → Queue
serve_conn q = elim q.waiting [ [] ↦ q | c ∷ cs ↦ record q { waiting = cs; served = c ∷ q.served } ]

-- The loop at the end of Run.
unfoldable pub drain_conns : List ℕ → List ℕ → List ℕ
drain_conns [] closed = closed
drain_conns (c ∷ cs) closed = drain_conns cs (c ∷ closed)

unfoldable pub drain : Queue → Queue
drain q = record q { waiting = []; closed = drain_conns q.waiting q.closed }

-- `accept_fails` is an error of Accept, on which acceptLoop returns.
pub data Round : Type 0 where
  accepts : ℕ → Bool → Bool → Round
  accept_fails serves drains : Round

-- A connection that comes when acceptLoop has returned is not accepted.
unfoldable pub act : Queue → Round → Queue
act q (accepts c done prefers_done) = if q.stopped then q else accept_conn c done prefers_done q
act q accept_fails = record q { stopped = true }
act q serves = serve_conn q
act q drains = drain q

unfoldable pub acts : Queue → List Round → Queue
acts q [] = q
acts q (r ∷ rs) = acts (act q r) rs

-- The connections that acceptLoop accepts in these rounds.
unfoldable pub accepted_now : Queue → Round → List ℕ
accepted_now q (accepts c done prefers_done) = if q.stopped then [] else c ∷ []
accepted_now q accept_fails = []
accepted_now q serves = []
accepted_now q drains = []

unfoldable pub accepted_in : Queue → List Round → List ℕ
accepted_in q [] = []
accepted_in q (r ∷ rs) = accepted_now q r ++ accepted_in (act q r) rs

unfoldable pub occurrences : ℕ → List ℕ → ℕ
occurrences c [] = 0
occurrences c (d ∷ ds) = let n = occurrences c ds in if d == c then suc n else n

abbrev pub kept : ℕ → Queue → ℕ
kept c q = occurrences c q.waiting + occurrences c q.closed + occurrences c q.served

occurrences-append :
    (c : ℕ) (xs ys : List ℕ) → occurrences c (xs ++ ys) ≡ occurrences c xs + occurrences c ys
unfolding occurrences
occurrences-append c [] ys = omega arith
occurrences-append c (x ∷ xs) ys = ground (arith, occurrences-append c xs ys)

occurrences-drain_conns :
    (c : ℕ) (xs ys : List ℕ)
    → occurrences c (drain_conns xs ys) ≡ occurrences c xs + occurrences c ys
unfolding occurrences drain_conns
occurrences-drain_conns c [] ys = omega arith
occurrences-drain_conns c (x ∷ xs) ys = ground (arith, occurrences-drain_conns c xs (x ∷ ys))

kept-accept_conn :
    (c d : ℕ) (done prefers_done : Bool) (q : Queue)
    → kept c (accept_conn d done prefers_done q) ≡ kept c q + occurrences c (d ∷ [])
unfolding accept_conn occurrences
kept-accept_conn c d done prefers_done q = ground (arith, occurrences-append c q.waiting (d ∷ []))

kept-serve_conn : (c : ℕ) (q : Queue) → kept c (serve_conn q) ≡ kept c q
unfolding serve_conn occurrences
kept-serve_conn c q = go q.waiting refl
  where
    go : (w : List ℕ) → q.waiting ≡ w → kept c (serve_conn q) ≡ kept c q
    go [] e = ground (arith, e)
    go (d ∷ ds) e = ground (arith, e)

kept-drain : (c : ℕ) (q : Queue) → kept c (drain q) ≡ kept c q
unfolding drain occurrences
kept-drain c q = omega (arith, occurrences-drain_conns c q.waiting q.closed)

act-bound :
    (q : Queue) (r : Round) → length q.waiting ≤ queue_size → length (act q r).waiting ≤ queue_size
unfolding act accept_conn serve_conn drain
act-bound q (accepts c done prefers_done) h = ground (arith, length-append q.waiting (c ∷ []))
act-bound q accept_fails h = h
act-bound q serves h = go q.waiting refl
  where
    go : (w : List ℕ) → q.waiting ≡ w → length (serve_conn q).waiting ≤ queue_size
    go [] e = ground (arith, e)
    go (d ∷ ds) e = ground (arith, e, ap length e)
act-bound q drains h = omega arith

act-kept :
    (q : Queue) (r : Round) (c : ℕ) → kept c (act q r) ≡ kept c q + occurrences c (accepted_now q r)
unfolding act accepted_now occurrences
act-kept q (accepts d done prefers_done) c =
    ground (arith, kept-accept_conn c d done prefers_done q)
act-kept q accept_fails c = omega arith
act-kept q serves c = omega (arith, kept-serve_conn c q)
act-kept q drains c = omega (arith, kept-drain c q)

acts-kept :
    (q : Queue) (rs : List Round) (c : ℕ)
    → length q.waiting ≤ queue_size
    → (kept c (acts q rs) ≡ kept c q + occurrences c (accepted_in q rs))
      × (length (acts q rs).waiting ≤ queue_size)
unfolding acts accepted_in occurrences
acts-kept q [] c h = (omega arith, h)
acts-kept q (r ∷ rs) c h =
    let rest = acts-kept (act q r) rs c (act-bound q r h) in
    (
      omega (
        arith,
        rest.0,
        act-kept q r c,
        occurrences-append c (accepted_now q r) (accepted_in (act q r) rs),
      ),
      rest.1,
    )

nothing_kept : (c n : ℕ) → kept c new_queue + n ≡ n
unfolding new_queue occurrences
nothing_kept c n = omega arith

-- From a new queue, in whatever order acceptLoop, serveLoop and the end of Run take their rounds, and
-- whichever of two ready cases is picked: every accepted connection waits, was closed or was handed to the
-- SOCKS5 server, exactly once each time it was accepted, and nothing else is in these places; and at most
-- 64 connections wait.
pub acts_account_for_all :
    (rs : List Round) (c : ℕ)
    → (kept c (acts new_queue rs) ≡ occurrences c (accepted_in new_queue rs))
      × (length (acts new_queue rs).waiting ≤ queue_size)
acts_account_for_all rs c =
    let done = acts-kept new_queue rs c (unfold new_queue in omega arith) in
    (done.0 ∙ nothing_kept c (occurrences c (accepted_in new_queue rs)), done.1)
