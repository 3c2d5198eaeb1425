-- ===== src/Scrubber/Chunks.antt =====
-- `ScrubConn` of internal/provider/scrubber.go: one stream, cut into writes in different ways.
use http_broker.Base.{
  ℕ, suc, ◌+◌, ◌≤◌, ◌<◌, ◌≡◌, ap, ◌∙◌, sym, List, [], ◌∷◌, ◌++◌, append-nil, Bytes, arith, length,
  length-append, ◌≡⟨◌⟩◌, ◌∎,
}
use http_broker.Scrubber.Conn.{max_header_bytes}
use http_broker.Scrubber.Stream.{Stream, pump, feed, pump_idle, write-pump}
use http_broker.Scrubber.Pump.{pump_fuel, buf-pump}
use http_broker.Scrubber.Cut.{pump-append}

pub feed-pump :
    (f : ℕ) (s : Stream) (p : Bytes) → length s.buf + length p < f → feed s p ≡ pump f s p
unfolding feed
feed-pump f s p h =
    rw (write-pump (suc (length s.buf + length p)) s p (omega arith), feed)
      (pump_fuel (suc (length s.buf + length p)) f s p (omega arith) h)

-- Two writes do what one write of all their bytes does: the same bytes have been sent, the same are
-- held back, and the scrubber is in the same place of the stream. The first write must not be so long
-- that, with what is held, it could run into the limit of a header.
pub feed-append :
    (s : Stream) (p q : Bytes)
    → length s.buf + length p ≤ max_header_bytes
    → feed s (p ++ q) ≡ feed (feed s p) q
feed-append s p q m = go q
  where
    n : ℕ
    n = suc (length s.buf + length p)

    first : feed s p ≡ pump n s p
    first = feed-pump n s p (omega arith)

    go : (q : Bytes) → feed s (p ++ q) ≡ feed (feed s p) q
    go [] = rw (append-nil p) (
        sym (
          feed-pump (suc (length (feed s p).buf + 0)) (feed s p) [] (omega arith)
          ∙ pump_idle _ (feed s p)))
    go (d ∷ q) =
        let big = suc (length s.buf + length p + length (d ∷ q)) in
        feed s (p ++ d ∷ q)
        ≡⟨ feed-pump big s (p ++ d ∷ q) (omega (arith, length-append p (d ∷ q))) ⟩
          pump big s (p ++ d ∷ q)
        ≡⟨ pump-append big n big s p d q (omega arith) (omega arith) (omega arith) m ⟩
          pump big (pump n s p) (d ∷ q)
        ≡⟨ ap (λ u. pump big u (d ∷ q)) (sym first) ⟩ pump big (feed s p) (d ∷ q)
        ≡⟨ sym (
            feed-pump big (feed s p) (d ∷ q)
              (omega (arith, ap (λ (u : Stream). length u.buf) first, buf-pump n s p))) ⟩
          feed (feed s p) (d ∷ q) ∎

-- `io.Copy`: one write after the other.
unfoldable pub feed_all : Stream → List Bytes → Stream
feed_all s [] = s
feed_all s (p ∷ ps) = feed_all (feed s p) ps

unfoldable pub joined : List Bytes → Bytes
joined [] = []
joined (p ∷ ps) = p ++ joined ps

-- No write of the stream comes to the limit of a header with what is held before it.
abbrev pub FitsHeader : Stream → List Bytes → Type 0
FitsHeader s [] = Unit
FitsHeader s (p ∷ ps) = (length s.buf + length p ≤ max_header_bytes) × FitsHeader (feed s p) ps

-- However a stream is cut into writes, the target has received the same bytes, the same are held
-- back and the scrubber stands at the same place as after the stream in one write, provided that no
-- write, with what is held before it, is longer than `max_header_bytes`.
pub feed_all-joined :
    (s : Stream) (ps : List Bytes) → FitsHeader s ps → feed_all s ps ≡ feed s (joined ps)
unfolding feed_all joined
feed_all-joined s [] h = sym (feed-pump (suc (length s.buf + 0)) s [] (omega arith) ∙ pump_idle _ s)
feed_all-joined s (p ∷ ps) h =
    feed_all-joined (feed s p) ps h.1 ∙ sym (feed-append s p (joined ps) h.0)
