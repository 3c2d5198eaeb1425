-- ===== src/Scrubber/Pump.antt =====
-- The machine behind `ScrubConn` of internal/provider/scrubber.go: its fuel, and what it holds back.
use http_broker.Base.{
  ℕ, zero, suc, ◌+◌, ◌≤◌, ◌<◌, ◌≡◌, refl, ap, inl, inr, some, [], ◌∷◌, ◌++◌, Bytes, if◌then◌else◌,
  Option-cases, arith, length, take, drop, length-append, length-drop,
}
use http_broker.Scrubber.Text.{index}
use http_broker.Scrubber.Headers.{looks_like_http_request}
use http_broker.Scrubber.Detect.{index-le}
use http_broker.Scrubber.Conn.{header_end}
use http_broker.Scrubber.Stream.{
  Stream, next_request, settle, skip_part, settle_rest, pump, set_body_accounting-buf,
}

-- The length of what is left behind a header.
pub rest_length :
    (s : Stream) (held : Bytes) (i : ℕ)
    → index held header_end ≡ some i
    → length (next_request s (i + 4) held).buf + length (drop (i + 4) held) < length held
rest_length s held i f = omega (
  arith,
  ap length (
      set_body_accounting-buf
        (record s {
          conn = s.conn ++ http_broker.Scrubber.Headers.scrub_proxy_headers (take (i + 4) held);
          buf = [];
        })
        (take (i + 4) held)),
  length-drop (i + 4) held,
  index-le held header_end {i = i} f,
)

-- The machine calls itself on less than it was given.
pub settle-cong :
    (m n : Stream → Bytes → Stream) (fuel : ℕ) (s : Stream) (held : Bytes)
    → ((s : Stream) (p : Bytes) → length s.buf + length p < fuel → m s p ≡ n s p)
    → length held ≤ fuel
    → settle m s held ≡ settle n s held
unfolding settle
settle-cong m n fuel s held same h = elim (Option-cases (index held header_end)) [
  | inl f ↦ ground arith
  | inr (i, f) ↦
      ground (arith, rest_length s held i f, same (next_request s (i + 4) held) (drop (i + 4) held))
]

pub settle_rest-cong :
    (m n : Stream → Bytes → Stream) (fuel : ℕ) (s : Stream) (p : Bytes)
    → ((s : Stream) (p : Bytes) → length s.buf + length p < fuel → m s p ≡ n s p)
    → length s.buf + length p ≤ fuel
    → settle_rest m s p ≡ settle_rest n s p
unfolding settle_rest
settle_rest-cong m n fuel s [] same h = refl
settle_rest-cong m n fuel s (c ∷ p) same h =
    settle-cong m n fuel s (s.buf ++ c ∷ p) same (omega (arith, length-append s.buf (c ∷ p)))

pub pump_fuel :
    (f g : ℕ) (s : Stream) (p : Bytes)
    → length s.buf + length p < f
    → length s.buf + length p < g
    → pump f s p ≡ pump g s p
unfolding pump
pump_fuel zero g s p h k = absurd (omega arith)
pump_fuel (suc f) zero s p h k = absurd (omega arith)
pump_fuel (suc f) (suc g) s p h k =
    ap (λ t. if s.pass_through then record s { conn = s.conn ++ p } else t)
      (settle_rest-cong (pump f) (pump g) (length s.buf + length p) (skip_part s p)
        (drop s.skip_body p) (λ s' p' lt. pump_fuel f g s' p' (omega arith) (omega arith))
        (omega (arith, length-drop s.skip_body p)))

settle-buf :
    (n : Stream → Bytes → Stream) (s : Stream) (held : Bytes)
    → ((s : Stream) (p : Bytes) → length (n s p).buf ≤ length s.buf + length p)
    → length (settle n s held).buf ≤ length held
unfolding settle
settle-buf n s held small = elim (Option-cases (index held header_end)) [
  | inl f ↦ ground arith
  | inr (i, f) ↦
      ground
        (arith, rest_length s held i f, small (next_request s (i + 4) held) (drop (i + 4) held))
]

settle_rest-buf :
    (n : Stream → Bytes → Stream) (s : Stream) (p : Bytes)
    → ((s : Stream) (p : Bytes) → length (n s p).buf ≤ length s.buf + length p)
    → length (settle_rest n s p).buf ≤ length s.buf + length p
unfolding settle_rest
settle_rest-buf n s [] small = omega arith
settle_rest-buf n s (c ∷ p) small =
    omega (arith, settle-buf n s (s.buf ++ c ∷ p) small, length-append s.buf (c ∷ p))

-- What is held back was given.
pub buf-pump : (f : ℕ) (s : Stream) (p : Bytes) → length (pump f s p).buf ≤ length s.buf + length p
unfolding pump
buf-pump zero s p = omega arith
buf-pump (suc f) s p = ground (
  arith,
  settle_rest-buf (pump f) (skip_part s p) (drop s.skip_body p) (buf-pump f),
  length-drop s.skip_body p,
)
