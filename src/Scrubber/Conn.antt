-- ===== src/Scrubber/Conn.antt =====
-- `ScrubConn` of internal/provider/scrubber.go: the state machine over the writes of a connection.
use http_broker.Base.{
  ℕ, zero, suc, ◌+◌, ◌-◌, min, Bool, true, false, not, Option, none, some, [], ◌∷◌, ◌++◌, Bytes,
  ltb, if◌then◌else◌, length, take, drop,
}
use http_broker.Scrubber.Text.{crlf, index}
use http_broker.Scrubber.Headers.{looks_like_http_request, scrub_proxy_headers}
use http_broker.Scrubber.Body.{body_none, body_length, body_pass_through, body_plan}

abbrev pub max_header_bytes : ℕ
max_header_bytes = 65536

abbrev pub header_end : Bytes
header_end = crlf ++ crlf

-- What a `Write` leaves behind: the writer, the count that it returns, and whether an error came.
pub record Wrote (S : Type 0) : Type 0 where
  pub state : S
  pub n : ℕ
  pub failed : Bool

pub record ScrubConn (S : Type 0) : Type 0 where
  pub conn : S
  pub pass_through : Bool
  pub skip_body : ℕ
  pub buf : Bytes

unfoldable pub new_scrub_conn : {S : Type 0} → S → ScrubConn S
new_scrub_conn c = record { conn = c; pass_through = false; skip_body = 0; buf = [] }

-- `setBodyAccounting`.
unfoldable pub set_body_accounting : {S : Type 0} → ScrubConn S → Bytes → ScrubConn S
set_body_accounting s header =
    let (skip, mode) = body_plan header in
    elim mode [
      | body_none ↦ s
      | body_length ↦ record s { skip_body = skip }
      | body_pass_through ↦ record s { pass_through = true }
    ]

-- The `Write` of the wrapped `net.Conn` is a parameter. `none` says that fuel ran out.
module _ {S : Type 0} (conn_write : S → Bytes → Wrote S) where
  -- `writeAll`: each round hands the rest to the connection; `total` bytes are written so far.
  unfoldable pub write_all : ℕ → S → Bytes → ℕ → Option (Wrote S)
  write_all zero c p total = none
  write_all (suc fuel) c p total =
      let w = conn_write c (drop total p) in
      let again = write_all fuel w.state p (total + w.n) in
      if ltb total (length p)
      then if w.failed
        then some (record { state = w.state; n = total + w.n; failed = true })
        else again
      else some (record { state = c; n = total; failed = false })

  -- `s.writeAll(p)`; a connection that takes a byte in every round ends within the fuel.
  unfoldable pub send : S → Bytes → Option (Wrote S)
  send c p = write_all (suc (length p)) c p 0

  -- `s.Conn.Write(p)`, with `accepted` bytes counted before.
  unfoldable pub pass_on : ScrubConn S → Bytes → ℕ → Option (Wrote (ScrubConn S))
  pass_on s p accepted =
      let w = conn_write s.conn p in
      some (record { state = record s { conn = w.state }; n = accepted + w.n; failed = w.failed })

  -- The two places where the held bytes are let go and the connection is no longer scrubbed.
  unfoldable pub give_up : ScrubConn S → Bytes → Bytes → Option (Wrote (ScrubConn S))
  give_up s held p = elim (send s.conn held) [
    | none ↦ none
    | some w ↦
        if w.failed
        then some (record { state = record s { conn = w.state; buf = held }; n = 0; failed = true })
        else some (record {
          state = record s { conn = w.state; pass_through = true; buf = [] };
          n = length p;
          failed = false;
        })
  ]

  -- Bytes behind a header go through `Write` again, which is the argument `again`.
  unfoldable pub write_remainder :
      (ScrubConn S → Bytes → Option (Wrote (ScrubConn S)))
      → ScrubConn S
      → Bytes
      → Bytes
      → Option (Wrote (ScrubConn S))
  write_remainder again s [] p = some (record { state = s; n = length p; failed = false })
  write_remainder again s (c ∷ remainder) p = elim (again s (c ∷ remainder)) [
    | none ↦ none
    | some w ↦
        if w.failed
        then some (record { state = w.state; n = 0; failed = true })
        else some (record { state = w.state; n = length p; failed = false })
  ]

  -- The rest of `absorbHeaderBytes` where the header ends at `i` bytes of `held`.
  unfoldable pub write_header :
      (ScrubConn S → Bytes → Option (Wrote (ScrubConn S)))
      → ScrubConn S
      → Bytes
      → ℕ
      → Bytes
      → Option (Wrote (ScrubConn S))
  write_header again s held i p = elim (send s.conn (scrub_proxy_headers (take i held))) [
    | none ↦ none
    | some w ↦
        let s' = record s { conn = w.state; buf = [] } in
        if w.failed
        then some (record { state = s'; n = 0; failed = true })
        else write_remainder again (set_body_accounting s' (take i held)) (drop i held) p
  ]

  -- `absorbHeaderBytes`.
  unfoldable pub absorb_header_bytes :
      (ScrubConn S → Bytes → Option (Wrote (ScrubConn S)))
      → ScrubConn S
      → Bytes
      → Option (Wrote (ScrubConn S))
  absorb_header_bytes again s p =
      let held = s.buf ++ p in
      if not (looks_like_http_request held)
      then give_up s held p
      else elim (index held header_end) [
        | none ↦
            if ltb max_header_bytes (length held)
            then give_up s held p
            else some (record { state = record s { buf = held }; n = length p; failed = false })
        | some i ↦ write_header again s held (i + 4) p
      ]

  -- `n, err := s.absorbHeaderBytes(p); return accepted + n, err`.
  unfoldable pub absorb_after :
      (ScrubConn S → Bytes → Option (Wrote (ScrubConn S)))
      → ScrubConn S
      → Bytes
      → ℕ
      → Option (Wrote (ScrubConn S))
  absorb_after again s p accepted = elim (absorb_header_bytes again s p) [
    | none ↦ none
    | some w ↦ some (record w { n = accepted + w.n })
  ]

  -- The part of `Write` behind the body of the last request.
  unfoldable pub inspect :
      (ScrubConn S → Bytes → Option (Wrote (ScrubConn S)))
      → ScrubConn S
      → Bytes
      → ℕ
      → Option (Wrote (ScrubConn S))
  inspect again s p accepted =
      if ltb 0 (length s.buf)
      then absorb_after again s p accepted
      else if not (looks_like_http_request p)
      then pass_on (record s { pass_through = true }) p accepted
      else absorb_after again s p accepted

  unfoldable pub skip_then_inspect :
      (ScrubConn S → Bytes → Option (Wrote (ScrubConn S)))
      → ScrubConn S
      → Bytes
      → Option (Wrote (ScrubConn S))
  skip_then_inspect again s p =
      let n = min (length p) s.skip_body in
      elim (send s.conn (take n p)) [
        | none ↦ none
        | some w ↦
            let s' = record s { conn = w.state; skip_body = s.skip_body - n } in
            if w.failed
            then some (record { state = record s { conn = w.state }; n = n; failed = true })
            else if ltb 0 (length (drop n p))
            then inspect again s' (drop n p) n
            else some (record { state = s'; n = n; failed = false })
      ]

  -- `Write`. Each round takes a header off, so the bytes held and given are fuel enough.
  unfoldable pub write : ℕ → ScrubConn S → Bytes → Option (Wrote (ScrubConn S))
  write zero s p = none
  write (suc fuel) s p =
      if s.pass_through
      then pass_on s p 0
      else if ltb 0 (length p)
      then if ltb 0 s.skip_body
        then skip_then_inspect (write fuel) s p
        else inspect (write fuel) s p 0
      else some (record { state = s; n = 0; failed = false })
