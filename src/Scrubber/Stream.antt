-- ===== src/Scrubber/Stream.antt =====
-- `ScrubConn` of internal/provider/scrubber.go over a connection that takes every byte: the bytes
-- that reach the target do not depend on how the stream is cut into writes.
use http_broker.Base.{
  ℕ, zero, suc, ◌+◌, ◌-◌, ◌≤◌, ◌<◌, min, ◌≡◌, refl, ap, inl, inr, true, false, not, Option, none,
  some, [], ◌∷◌, ◌++◌, append-nil, Bytes, ltb, if◌then◌else◌, Bool-cases, Option-cases, arith,
  length, take, drop, length-append, length-drop, take_all, drop_all, take-min, drop-min,
}
use http_broker.Scrubber.Text.{index}
use http_broker.Scrubber.Headers.{looks_like_http_request, scrub_proxy_headers}
use http_broker.Scrubber.Detect.{index-le}
use http_broker.Scrubber.Contract.{KeepsContract}
use http_broker.Scrubber.Conn.{
  Wrote, ScrubConn, header_end, max_header_bytes, set_body_accounting, write_all, send, pass_on,
  give_up, write_remainder, write_header, absorb_header_bytes, absorb_after, inspect,
  skip_then_inspect, write,
}

-- A connection whose state is what it has received.
abbrev pub sink : Bytes → Bytes → Wrote Bytes
sink c p = record { state = c ++ p; n = length p; failed = false }

pub sink-KeepsContract : KeepsContract sink
sink-KeepsContract = record { at_most = λ c p. omega arith; all_or_failed = λ c p h. refl }

send-sink : (c p : Bytes) → send sink c p ≡ some (sink c p)
unfolding send write_all
send-sink c [] = ground (arith, append-nil c)
send-sink c (x ∷ p) = ground arith

-- The machine without counts and errors: what has been sent, and what is known of the next byte.
abbrev pub Stream : Type 0
Stream = ScrubConn Bytes

abbrev pub let_go : Stream → Bytes → Stream
let_go s held = record s { conn = s.conn ++ held; pass_through = true; buf = [] }

abbrev pub next_request : Stream → ℕ → Bytes → Stream
next_request s i held =
    set_body_accounting (record s { conn = s.conn ++ scrub_proxy_headers (take i held); buf = [] })
      (take i held)

-- What to do with the bytes from the start of a request on.
unfoldable pub settle : (Stream → Bytes → Stream) → Stream → Bytes → Stream
settle again s held =
    if not (looks_like_http_request held) then let_go s held else elim (index held header_end) [
      | none ↦ if ltb max_header_bytes (length held) then let_go s held else record s { buf = held }
      | some i ↦ again (next_request s (i + 4) held) (drop (i + 4) held)
    ]

abbrev pub skip_part : Stream → Bytes → Stream
skip_part s p = record s { conn = s.conn ++ take s.skip_body p; skip_body = s.skip_body - length p }

unfoldable pub settle_rest : (Stream → Bytes → Stream) → Stream → Bytes → Stream
settle_rest again s [] = s
settle_rest again s (c ∷ rest) = settle again s (s.buf ++ c ∷ rest)

unfoldable pub pump : ℕ → Stream → Bytes → Stream
pump zero s p = s
pump (suc fuel) s p =
    if s.pass_through
    then record s { conn = s.conn ++ p }
    else settle_rest (pump fuel) (skip_part s p) (drop s.skip_body p)

-- One call of `Write` with fuel enough, as `io.Copy` makes it.
unfoldable pub feed : Stream → Bytes → Stream
feed s p = elim (write sink (suc (length s.buf + length p)) s p) [ none ↦ s | some w ↦ w.state ]

pub set_body_accounting-buf : (s : Stream) (h : Bytes) → (set_body_accounting s h).buf ≡ s.buf
unfolding set_body_accounting
set_body_accounting-buf s h = ground arith

module _ (again : Stream → Bytes → Option (Wrote Stream)) (next : Stream → Bytes → Stream)
    (fuel : ℕ)
    (agrees : (s : Stream) (p : Bytes)
      → length s.buf + length p < fuel
      → again s p ≡ some (record { state = next s p; n = length p; failed = false }))
    (idle : (s : Stream) → next s [] ≡ s) where
  write_remainder-next :
      (s : Stream) (r p : Bytes)
      → length s.buf + length r < fuel
      → write_remainder sink again s r p
        ≡ some (record { state = next s r; n = length p; failed = false })
  unfolding write_remainder
  write_remainder-next s [] p h = ground (arith, idle s)
  write_remainder-next s (c ∷ r) p h = ground (arith, agrees s (c ∷ r) h)

  write_header-next :
      (s : Stream) (held : Bytes) (i : ℕ) (p : Bytes)
      → index held header_end ≡ some i
      → length held ≤ fuel
      → write_header sink again s held (i + 4) p
        ≡ some (record {
          state = next (next_request s (i + 4) held) (drop (i + 4) held);
          n = length p;
          failed = false;
        })
  unfolding write_header
  write_header-next s held i p f h =
      let header = take (i + 4) held in
      let sent = record s { conn = s.conn ++ scrub_proxy_headers header; buf = [] } in
      rw (send-sink s.conn (scrub_proxy_headers header), write_header)
        (write_remainder-next (set_body_accounting sent header) (drop (i + 4) held) p (
          omega (
            arith,
            ap length (set_body_accounting-buf sent header),
            length-drop (i + 4) held,
            index-le held header_end {i = i} f,
          )))

  absorb_header_bytes-settle :
      (s : Stream) (p : Bytes)
      → length s.buf + length p ≤ fuel
      → absorb_header_bytes sink again s p
        ≡ some (record { state = settle next s (s.buf ++ p); n = length p; failed = false })
  unfolding absorb_header_bytes give_up settle
  absorb_header_bytes-settle s p h = elim (Option-cases (index (s.buf ++ p) header_end)) [
    | inl f ↦ ground (arith, send-sink s.conn (s.buf ++ p))
    | inr (i, f) ↦ ground (
      arith,
      send-sink s.conn (s.buf ++ p),
      length-append s.buf p,
      write_header-next s (s.buf ++ p) i p f,
    )
  ]

  inspect-settle :
      (s : Stream) (p : Bytes) (accepted : ℕ)
      → length s.buf + length p ≤ fuel
      → inspect sink again s p accepted
        ≡ some
            (record { state = settle next s (s.buf ++ p); n = accepted + length p; failed = false })
  unfolding inspect absorb_after pass_on
  inspect-settle s p accepted h = go s.buf refl
    where
      go :
          (b : Bytes)
          → s.buf ≡ b
          → inspect sink again s p accepted
            ≡ some (record {
              state = settle next s (s.buf ++ p);
              n = accepted + length p;
              failed = false;
            })
      go [] e = elim (Bool-cases (looks_like_http_request p)) [
        | inl l ↦ ground (arith, absorb_header_bytes-settle s p h)
        | inr l ↦ unfold settle in ground arith
      ]
      go (c ∷ b) e = ground (arith, absorb_header_bytes-settle s p h)

  skip_then_inspect-settle_rest :
      (s : Stream) (p : Bytes)
      → length s.buf + length p ≤ fuel
      → skip_then_inspect sink again s p
        ≡ some (record {
          state = settle_rest next (skip_part s p) (drop s.skip_body p);
          n = length p;
          failed = false;
        })
  unfolding skip_then_inspect settle_rest
  skip_then_inspect-settle_rest s p h = go (drop s.skip_body p) refl
    where
      skip : ℕ
      skip = s.skip_body

      skipped : skip - min (length p) skip ≡ skip - length p
      skipped = omega arith

      go :
          (r : Bytes)
          → drop skip p ≡ r
          → skip_then_inspect sink again s p
            ≡ some (record {
              state = settle_rest next (skip_part s p) (drop skip p);
              n = length p;
              failed = false;
            })
      go [] e = ground (
        arith,
        e,
        take-min skip p,
        drop-min skip p,
        send-sink s.conn (take skip p),
        skipped,
        length-drop skip p,
        ap length e,
      )
      go (c ∷ r) e = ground (
        arith,
        e,
        take-min skip p,
        drop-min skip p,
        send-sink s.conn (take skip p),
        skipped,
        length-drop skip p,
        ap length e,
        inspect-settle (skip_part s p) (drop skip p) (min (length p) skip),
      )

  skip_part_none : (s : Stream) (p : Bytes) → s.skip_body ≡ 0 → skip_part s p ≡ s
  skip_part_none s p e = ground (arith, append-nil s.conn)

  skip_part_idle : (s : Stream) → skip_part s [] ≡ s
  skip_part_idle s = ground (arith, append-nil s.conn, take_all {A = ℕ} s.skip_body [])

  round-settle_rest :
      (s : Stream) (p : Bytes)
      → length s.buf + length p ≤ fuel
      → (if ltb 0 (length p)
          then if ltb 0 s.skip_body
            then skip_then_inspect sink again s p
            else inspect sink again s p 0
          else some (record { state = s; n = 0; failed = false }))
        ≡ some (record {
          state = settle_rest next (skip_part s p) (drop s.skip_body p);
          n = length p;
          failed = false;
        })
  unfolding settle_rest
  round-settle_rest s [] h = ground (arith, skip_part_idle s, drop_all {A = ℕ} s.skip_body [])
  round-settle_rest s (c ∷ q) h = elim (Bool-cases (ltb 0 s.skip_body)) [
    | inl e ↦ ground (arith, skip_then_inspect-settle_rest s (c ∷ q) h)
    | inr e ↦ ground (arith, inspect-settle s (c ∷ q) 0 h, skip_part_none s (c ∷ q))
  ]

pub pump_idle : (fuel : ℕ) (s : Stream) → pump fuel s [] ≡ s
unfolding pump settle_rest
pump_idle zero s = refl
pump_idle (suc fuel) s =
    ground
      (arith, append-nil s.conn, take_all {A = ℕ} s.skip_body [], drop_all {A = ℕ} s.skip_body [])

-- `Write` on a sink is the machine.
pub write-pump :
    (fuel : ℕ) (s : Stream) (p : Bytes)
    → length s.buf + length p < fuel
    → write sink fuel s p ≡ some (record { state = pump fuel s p; n = length p; failed = false })
unfolding write pump pass_on
write-pump zero s p h = absurd (omega arith)
write-pump (suc fuel) s p h = ground (
  arith,
  round-settle_rest (write sink fuel) (pump fuel) fuel (write-pump fuel) (pump_idle fuel) s p
      (omega arith),
)
