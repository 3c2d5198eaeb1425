-- ===== src/Tunnel/Bridge.antt =====
-- `bridgeConns` of internal/broker/relay.go: two copies that run side by side, in any interleaving. A
-- `Close` of a yamux stream ends its writing half only, as yamux documents, so the other copy reads on.
use http_broker.Base.{
  ℕ, suc, ◌<◌, ◌≡◌, refl, ap, ◌∙◌, ◌⊎◌, inl, inr, Bool, true, false, List, [], ◌∷◌, ◌++◌,
  append_assoc, append-nil, Bytes, if◌then◌else◌, Bool-cases, arith, length, take, drop,
  take-append-drop, length-drop,
}

-- One goroutine: what its source still delivers before the end, what its destination has received,
-- whether the destination is closed for writing, and whether the goroutine is done.
pub record Copy : Type 0 where
  pub source : Bytes
  pub received : Bytes
  pub closed : Bool
  pub finished : Bool

pub record Bridge : Type 0 where
  pub to_a : Copy
  pub to_b : Copy

-- A turn of `_, err := io.Copy(dst, src); dst.Close()`: a chunk of `k + 1` bytes, or the end. A write to
-- a closed connection fails, and the rest of the source is lost.
unfoldable pub copy_turn : ℕ → Copy → Copy
copy_turn k c = if c.finished then c else elim c.source [
  | [] ↦ record c { closed = true; finished = true }
  | x ∷ s ↦ if c.closed then record c { finished = true } else record c {
    received = c.received ++ take (suc k) c.source;
    source = drop (suc k) c.source;
  }
]

-- Which goroutine runs next, and how much it reads.
pub data Turn : Type 0 where
  b_to_a a_to_b : ℕ → Turn

unfoldable pub bridge_turn : Bridge → Turn → Bridge
bridge_turn g (b_to_a k) = record g { to_a = copy_turn k g.to_a }
bridge_turn g (a_to_b k) = record g { to_b = copy_turn k g.to_b }

unfoldable pub bridge_conns : Bridge → List Turn → Bridge
bridge_conns g [] = g
bridge_conns g (t ∷ ts) = bridge_conns (bridge_turn g t) ts

-- The destination is closed by its own copy only, at the end.
pub record IsOpen (whole : Bytes) (c : Copy) : Type 0 where
  pub no_loss : c.received ++ c.source ≡ whole
  pub closes_last : c.closed ≡ c.finished
  pub ends_empty : (c.finished ≡ false) ⊎ (c.source ≡ [])

copy_turn-IsOpen :
    (whole : Bytes) (k : ℕ) (c : Copy) → IsOpen whole c → IsOpen whole (copy_turn k c)
unfolding copy_turn
copy_turn-IsOpen whole k c v = go c.source refl
  where
    go : (src : Bytes) → c.source ≡ src → IsOpen whole (copy_turn k c)
    go [] e = ground (arith, e)
    go (x ∷ s) e = ground (
      arith,
      e,
      append_assoc c.received (take (suc k) c.source) (drop (suc k) c.source),
      take-append-drop (suc k) c.source,
    )

-- A turn ends the copy or shortens what is left.
copy_turn_progress :
    (whole : Bytes) (k : ℕ) (c : Copy)
    → IsOpen whole c
    → ((copy_turn k c).finished ≡ true) ⊎ (length (copy_turn k c).source < length c.source)
unfolding copy_turn
copy_turn_progress whole k c v = go c.source refl
  where
    go :
        (src : Bytes)
        → c.source ≡ src
        → ((copy_turn k c).finished ≡ true) ⊎ (length (copy_turn k c).source < length c.source)
    go [] e = inl (ground (arith, e))
    go (x ∷ s) e = elim (Bool-cases c.finished) [
      | inl f ↦ inl (ground (arith, e, f))
      | inr f ↦ inr (ground (arith, e, f, length-drop (suc k) c.source, ap length e))
    ]

copy_turn_finished : (k : ℕ) (c : Copy) → c.finished ≡ true → copy_turn k c ≡ c
unfolding copy_turn
copy_turn_finished k c f = rw f

-- One goroutine alone, over the sizes of its turns.
unfoldable pub copy_turns : List ℕ → Copy → Copy
copy_turns [] c = c
copy_turns (k ∷ ks) c = copy_turns ks (copy_turn k c)

copy_turns-finished : (ks : List ℕ) (c : Copy) → c.finished ≡ true → copy_turns ks c ≡ c
unfolding copy_turns
copy_turns-finished [] c f = refl
copy_turns-finished (k ∷ ks) c f = rw (copy_turn_finished k c f) (copy_turns-finished ks c f)

copy_turns-IsOpen :
    (ks : List ℕ) (whole : Bytes) (c : Copy) → IsOpen whole c → IsOpen whole (copy_turns ks c)
unfolding copy_turns
copy_turns-IsOpen [] whole c v = v
copy_turns-IsOpen (k ∷ ks) whole c v =
    copy_turns-IsOpen ks whole (copy_turn k c) (copy_turn-IsOpen whole k c v)

-- A copy that gets more turns than it has bytes to pass ends.
copy_turns_end :
    (ks : List ℕ) (whole : Bytes) (c : Copy)
    → IsOpen whole c
    → length c.source < length ks
    → (copy_turns ks c).finished ≡ true
unfolding copy_turns
copy_turns_end [] whole c v lt = ground arith
copy_turns_end (k ∷ ks) whole c v lt = elim (copy_turn_progress whole k c v) [
  | inl f ↦ ap (λ d. d.finished) (copy_turns-finished ks (copy_turn k c) f) ∙ f
  | inr shorter ↦
      copy_turns_end ks whole (copy_turn k c) (copy_turn-IsOpen whole k c v) (omega arith)
]

-- The turns of one goroutine in a schedule.
unfoldable pub turns_to_a : List Turn → List ℕ
turns_to_a [] = []
turns_to_a (b_to_a k ∷ ts) = k ∷ turns_to_a ts
turns_to_a (a_to_b k ∷ ts) = turns_to_a ts

unfoldable pub turns_to_b : List Turn → List ℕ
turns_to_b [] = []
turns_to_b (b_to_a k ∷ ts) = turns_to_b ts
turns_to_b (a_to_b k ∷ ts) = k ∷ turns_to_b ts

-- The two goroutines do not disturb each other.
bridge_conns-splits :
    (ts : List Turn) (g : Bridge)
    → bridge_conns g ts ≡ record {
      to_a = copy_turns (turns_to_a ts) g.to_a;
      to_b = copy_turns (turns_to_b ts) g.to_b;
    }
unfolding bridge_conns bridge_turn turns_to_a turns_to_b copy_turns
bridge_conns-splits [] g = refl
bridge_conns-splits (b_to_a k ∷ ts) g = bridge_conns-splits ts (bridge_turn g (b_to_a k))
bridge_conns-splits (a_to_b k ∷ ts) g = bridge_conns-splits ts (bridge_turn g (a_to_b k))

-- A fresh copy of a source.
unfoldable pub open_copy : Bytes → Copy
open_copy sent = record { source = sent; received = []; closed = false; finished = false }

open_copy-IsOpen : (sent : Bytes) → IsOpen sent (open_copy sent)
unfolding open_copy
open_copy-IsOpen sent = record { no_loss = refl; closes_last = refl; ends_empty = inl refl }

-- What a copy that is done leaves: all of the source delivered, the destination closed.
unfoldable pub delivered : Bytes → Copy
delivered sent = record { source = []; received = sent; closed = true; finished = true }

IsOpen-delivered :
    (whole : Bytes) (c : Copy) → IsOpen whole c → c.finished ≡ true → c ≡ delivered whole
unfolding delivered
IsOpen-delivered whole c v f = elim v.ends_empty [
  | inl e ↦ ground (arith, e, f)
  | inr e ↦
      let all : c.received ≡ whole = ground (arith, e, v.no_loss, append-nil c.received) in
      let shut : c.closed ≡ true = v.closes_last ∙ f in
      λ i. record { source = e i; received = all i; closed = shut i; finished = f i }
]

pub copy_turns-delivered :
    (ks : List ℕ) (sent : Bytes)
    → length sent < length ks
    → copy_turns ks (open_copy sent) ≡ delivered sent
copy_turns-delivered ks sent lt =
    IsOpen-delivered sent (copy_turns ks (open_copy sent))
      (copy_turns-IsOpen ks sent (open_copy sent) (open_copy-IsOpen sent))
      (copy_turns_end ks sent (open_copy sent) (open_copy-IsOpen sent) (unfold open_copy in lt))

-- For every interleaving of the two copies of a bridge in which each goroutine runs more often than its
-- source has bytes, whatever the sizes of the reads: both connections have received all that the other
-- one sent, in order and no more, and each is closed for writing once, by the copy that fed it.
pub bridge_conns_delivers :
    (ts : List Turn) (from_a from_b : Bytes)
    → length from_b < length (turns_to_a ts)
    → length from_a < length (turns_to_b ts)
    → bridge_conns (record { to_a = open_copy from_b; to_b = open_copy from_a }) ts
      ≡ record { to_a = delivered from_b; to_b = delivered from_a }
bridge_conns_delivers ts from_a from_b la lb =
    bridge_conns-splits ts (record { to_a = open_copy from_b; to_b = open_copy from_a })
    ∙ ap (λ c. record { to_a = c; to_b = copy_turns (turns_to_b ts) (open_copy from_a) })
        (copy_turns-delivered (turns_to_a ts) from_b la)
    ∙ ap (λ c. record { to_a = delivered from_b; to_b = c })
        (copy_turns-delivered (turns_to_b ts) from_a lb)
