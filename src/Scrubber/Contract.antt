-- ===== src/Scrubber/Contract.antt =====
-- `ScrubConn.Write` of internal/provider/scrubber.go over any connection that keeps Go's `io.Writer`
-- contract: that it ends, what it counts, and what it holds back.
use http_broker.Base.{
  ℕ, zero, suc, ◌+◌, ◌-◌, ◌≤◌, ◌<◌, min, ◌≡◌, ◌≢◌, ◌⊎◌, inl, inr, true, false, Option, none, some,
  [], ◌∷◌, ◌++◌, Bytes, Bool-cases, Option-cases, arith, length, take, drop, length-append,
  length-drop,
}
use http_broker.Scrubber.Text.{index}
use http_broker.Scrubber.Headers.{looks_like_http_request, scrub_proxy_headers}
use http_broker.Scrubber.Detect.{index-le}
use http_broker.Scrubber.Conn.{
  Wrote, ScrubConn, header_end, max_header_bytes, set_body_accounting, write_all, send, pass_on,
  give_up, write_remainder, write_header, absorb_header_bytes, absorb_after, inspect,
  skip_then_inspect, write,
}

-- `io.Writer`: the count is no more than was given, and less only with an error.
pub record KeepsContract {S : Type 0} (conn_write : S → Bytes → Wrote S) : Type 0 where
  pub at_most : (c : S) (p : Bytes) → (conn_write c p).n ≤ length p
  pub all_or_failed :
      (c : S) (p : Bytes) → (conn_write c p).failed ≡ false → (conn_write c p).n ≡ length p

-- Bytes are held back only as the unfinished header of a request, of bounded size.
abbrev pub IsHeader : Bytes → Type 0
IsHeader b =
    (looks_like_http_request b ≡ true) × (index b header_end ≡ none) × (length b ≤ max_header_bytes)

abbrev pub IsValid : {S : Type 0} → ScrubConn S → Type 0
IsValid s = (s.buf ≡ []) ⊎ (IsHeader s.buf × (s.skip_body ≡ 0) × (s.pass_through ≡ false))

module _ {S : Type 0} (conn_write : S → Bytes → Wrote S) (law : KeepsContract conn_write) where
  -- What a call leaves: without an error it took all bytes, and holds back a header at most.
  abbrev Accepts : Bytes → Wrote (ScrubConn S) → Type 0
  Accepts p w = w.failed ≡ false → (w.n ≡ length p) × IsValid w.state

  write_all_done :
      (fuel : ℕ) (c : S) (p : Bytes) (total : ℕ)
      → length p ≤ total
      → write_all conn_write (suc fuel) c p total
        ≡ some (record { state = c; n = total; failed = false })
  unfolding write_all
  write_all_done fuel c p total h = ground arith

  -- The contract makes one round enough.
  send-ne-none : (c : S) (p : Bytes) → send conn_write c p ≢ none
  unfolding send write_all
  send-ne-none c [] = ground arith
  send-ne-none c (x ∷ p) = ground (
    arith,
    law.all_or_failed c (x ∷ p),
    write_all_done (length p) (conn_write c (x ∷ p)).state (x ∷ p) (0 + (conn_write c (x ∷ p)).n),
  )

  module _ (again : ScrubConn S → Bytes → Option (Wrote (ScrubConn S))) where
    give_up-Accepts :
        (s : ScrubConn S) (held p : Bytes) (w : Wrote (ScrubConn S))
        → give_up conn_write s held p ≡ some w
        → Accepts p w
    unfolding give_up
    give_up-Accepts s held p w e = ground arith

    set_body_accounting-buf : (s : ScrubConn S) (h : Bytes) → (set_body_accounting s h).buf ≡ s.buf
    unfolding set_body_accounting
    set_body_accounting-buf s h = ground arith

    module _
        (kept : (s : ScrubConn S) (p : Bytes) (w : Wrote (ScrubConn S))
          → IsValid s
          → again s p ≡ some w
          → Accepts p w) where
      write_remainder-Accepts :
          (s : ScrubConn S) (r p : Bytes) (w : Wrote (ScrubConn S))
          → s.buf ≡ []
          → write_remainder conn_write again s r p ≡ some w
          → Accepts p w
      unfolding write_remainder
      write_remainder-Accepts s [] p w b e = ground arith
      write_remainder-Accepts s (c ∷ r) p w b e = elim (Option-cases (again s (c ∷ r))) [
        | inl f ↦ absurd (ground arith)
        | inr (v, f) ↦ ground (arith, kept s (c ∷ r) v (inl b) f)
      ]

      write_header-Accepts :
          (s : ScrubConn S) (held : Bytes) (i : ℕ) (p : Bytes) (w : Wrote (ScrubConn S))
          → write_header conn_write again s held i p ≡ some w
          → Accepts p w
      unfolding write_header
      write_header-Accepts s held i p w e =
          elim (Option-cases (send conn_write s.conn (scrub_proxy_headers (take i held)))) [
            | inl f ↦ absurd (ground arith)
            | inr (v, f) ↦ ground (
              arith,
              write_remainder-Accepts
                  (set_body_accounting (record s { conn = v.state; buf = [] }) (take i held))
                  (drop i held) p w,
              set_body_accounting-buf (record s { conn = v.state; buf = [] }) (take i held),
            )
          ]

      absorb_header_bytes-Accepts :
          (s : ScrubConn S) (p : Bytes) (w : Wrote (ScrubConn S))
          → s.skip_body ≡ 0
          → s.pass_through ≡ false
          → absorb_header_bytes conn_write again s p ≡ some w
          → Accepts p w
      unfolding absorb_header_bytes
      absorb_header_bytes-Accepts s p w k t e =
          elim (Option-cases (index (s.buf ++ p) header_end)) [
            | inl f ↦ ground (arith, give_up-Accepts s (s.buf ++ p) p w)
            | inr (i, f) ↦ ground (
              arith,
              give_up-Accepts s (s.buf ++ p) p w,
              write_header-Accepts s (s.buf ++ p) (i + 4) p w,
            )
          ]

      -- What `Write` returns once `accepted` bytes of a body have been passed.
      abbrev AcceptsAfter : ℕ → Bytes → Wrote (ScrubConn S) → Type 0
      AcceptsAfter accepted p w = w.failed ≡ false → (w.n ≡ accepted + length p) × IsValid w.state

      inspect-Accepts :
          (s : ScrubConn S) (p : Bytes) (accepted : ℕ) (w : Wrote (ScrubConn S))
          → s.skip_body ≡ 0
          → s.pass_through ≡ false
          → inspect conn_write again s p accepted ≡ some w
          → AcceptsAfter accepted p w
      unfolding inspect absorb_after pass_on
      inspect-Accepts s p accepted w k t e =
          elim (Option-cases (absorb_header_bytes conn_write again s p)) [
            | inl f ↦ ground (arith, law.all_or_failed s.conn p)
            | inr (v, f) ↦
                ground (arith, law.all_or_failed s.conn p, absorb_header_bytes-Accepts s p v k t f)
          ]

      skip_then_inspect-Accepts :
          (s : ScrubConn S) (p : Bytes) (w : Wrote (ScrubConn S))
          → IsValid s
          → 0 < s.skip_body
          → s.pass_through ≡ false
          → skip_then_inspect conn_write again s p ≡ some w
          → Accepts p w
      unfolding skip_then_inspect
      skip_then_inspect-Accepts s p w v k t e =
          let n = min (length p) s.skip_body in
          elim (Option-cases (send conn_write s.conn (take n p))) [
            | inl f ↦ absurd (ground arith)
            | inr (u, f) ↦
                let s' = record s { conn = u.state; skip_body = s.skip_body - n } in
                ground (arith, inspect-Accepts s' (drop n p) n w, length-drop n p)
          ]

  write-Accepts :
      (fuel : ℕ) (s : ScrubConn S) (p : Bytes) (w : Wrote (ScrubConn S))
      → IsValid s
      → write conn_write fuel s p ≡ some w
      → Accepts p w
  unfolding write pass_on
  write-Accepts zero s p w v e = cc
  write-Accepts (suc fuel) s p w v e = ground (
    arith,
    law.all_or_failed s.conn p,
    inspect-Accepts (write conn_write fuel) (write-Accepts fuel) s p 0 w,
    skip_then_inspect-Accepts (write conn_write fuel) (write-Accepts fuel) s p w v,
  )

  module _ (again : ScrubConn S → Bytes → Option (Wrote (ScrubConn S))) (fuel : ℕ)
      (ends : (s : ScrubConn S) (p : Bytes)
        → length s.buf + length p < fuel
        → again s p ≢ none) where
    write_remainder-ne-none :
        (s : ScrubConn S) (r p : Bytes)
        → length s.buf + length r < fuel
        → write_remainder conn_write again s r p ≢ none
    unfolding write_remainder
    write_remainder-ne-none s [] p h = ground arith
    write_remainder-ne-none s (c ∷ r) p h = ground (arith, ends s (c ∷ r) h)

    write_header-ne-none :
        (s : ScrubConn S) (held : Bytes) (i : ℕ) (p : Bytes)
        → index held header_end ≡ some i
        → length held ≤ fuel
        → write_header conn_write again s held (i + 4) p ≢ none
    unfolding write_header
    write_header-ne-none s held i p e h =
        let rest = drop (i + 4) held in
        let header = take (i + 4) held in
        elim (Option-cases (send conn_write s.conn (scrub_proxy_headers header))) [
          | inl f ↦ absurd (send-ne-none s.conn (scrub_proxy_headers header) f)
          | inr (v, f) ↦
              let s' = record s { conn = v.state; buf = [] } in
              ground (
                arith,
                set_body_accounting-buf again s' header,
                length-drop (i + 4) held,
                index-le held header_end {i = i} e,
                write_remainder-ne-none (set_body_accounting s' header) rest p,
              )
        ]

    absorb_header_bytes-ne-none :
        (s : ScrubConn S) (p : Bytes)
        → length s.buf + length p ≤ fuel
        → absorb_header_bytes conn_write again s p ≢ none
    unfolding absorb_header_bytes give_up
    absorb_header_bytes-ne-none s p h =
        let held = s.buf ++ p in
        elim (Option-cases (index held header_end)) [
          | inl f ↦ ground (arith, send-ne-none s.conn held)
          | inr (i, f) ↦ ground (
            arith,
            send-ne-none s.conn held,
            length-append s.buf p,
            write_header-ne-none s held i p f,
          )
        ]

    inspect-ne-none :
        (s : ScrubConn S) (p : Bytes) (accepted : ℕ)
        → length s.buf + length p ≤ fuel
        → inspect conn_write again s p accepted ≢ none
    unfolding inspect absorb_after pass_on
    inspect-ne-none s p accepted h = ground (arith, absorb_header_bytes-ne-none s p h)

    skip_then_inspect-ne-none :
        (s : ScrubConn S) (p : Bytes)
        → length s.buf + length p ≤ fuel
        → skip_then_inspect conn_write again s p ≢ none
    unfolding skip_then_inspect
    skip_then_inspect-ne-none s p h =
        let n = min (length p) s.skip_body in
        elim (Option-cases (send conn_write s.conn (take n p))) [
          | inl f ↦ absurd (send-ne-none s.conn (take n p) f)
          | inr (u, f) ↦ ground (
            arith,
            length-drop n p,
            inspect-ne-none (record s { conn = u.state; skip_body = s.skip_body - n }) (drop n p) n,
          )
        ]

  write-ne-none :
      (fuel : ℕ) (s : ScrubConn S) (p : Bytes)
      → length s.buf + length p < fuel
      → write conn_write fuel s p ≢ none
  unfolding write pass_on
  write-ne-none zero s p h = absurd (omega arith)
  write-ne-none (suc fuel) s p h = ground (
    arith,
    inspect-ne-none (write conn_write fuel) fuel (write-ne-none fuel) s p 0,
    skip_then_inspect-ne-none (write conn_write fuel) fuel (write-ne-none fuel) s p,
  )

  -- Over a connection that keeps the contract of `io.Writer`, from a state that holds back nothing
  -- or the unfinished header of a request, and on more fuel than the bytes held and given: a call of
  -- Write ends, and it fails or it took every byte and leaves such a state again.
  pub write_accepts_all :
      (fuel : ℕ) (s : ScrubConn S) (p : Bytes)
      → IsValid s
      → length s.buf + length p < fuel
      → (w : Wrote (ScrubConn S)) × (write conn_write fuel s p ≡ some w)
        × ((w.failed ≡ true) ⊎ ((w.n ≡ length p) × IsValid w.state))
  write_accepts_all fuel s p v h = elim (Option-cases (write conn_write fuel s p)) [
    | inl e ↦ absurd (write-ne-none fuel s p h e)
    | inr (w, e) ↦ (
      w,
      e,
      elim (Bool-cases w.failed) [
        | inl failed ↦ inl failed
        | inr fine ↦ inr (write-Accepts fuel s p w v e fine)
      ],
    )
  ]
