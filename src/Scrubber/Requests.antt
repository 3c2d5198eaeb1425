-- ===== src/Scrubber/Requests.antt =====
-- `ScrubConn` of internal/provider/scrubber.go on a keep-alive connection: many requests, each a
-- header and the body that it announces.
use http_broker.Base.{
  ℕ, suc, ◌+◌, ◌≤◌, ◌≡◌, ap, ◌∙◌, sym, ◌⊎◌, inl, inr, true, false, some, List, [], ◌∷◌, ◌++◌,
  append-nil, append_assoc, Bytes, arith, length, take, drop, All, length-append, take-append,
  drop-append, drop_all, take_all, ◌≡⟨◌⟩◌, ◌∎,
}
use http_broker.Scrubber.Text.{index}
use http_broker.Scrubber.Headers.{looks_like_http_request, scrub_proxy_headers}
use http_broker.Scrubber.Body.{body_none, body_length, body_plan}
use http_broker.Scrubber.Detect.{index_extend, looks_like_extend}
use http_broker.Scrubber.Conn.{header_end, set_body_accounting}
use http_broker.Scrubber.Stream.{
  Stream, next_request, settle, skip_part, settle_rest, pump, feed, pump_idle,
  set_body_accounting-buf,
}
use http_broker.Scrubber.Cut.{pump_step, settle_rest_none, pump-append_skipped}
use http_broker.Scrubber.Chunks.{feed-pump, feed_all, joined, FitsHeader, feed_all-joined}

pub record Request : Type 0 where
  pub header : Bytes
  pub body : Bytes

-- The header starts with a method and ends with the first empty line, and the body is as long as
-- the header says.
pub record IsRequest (r : Request) : Type 0 where
  pub starts : looks_like_http_request r.header ≡ true
  pub last : ℕ
  pub ends : index r.header header_end ≡ some last
  pub whole : length r.header ≡ last + 4
  pub announced :
      (body_plan r.header ≡ (length r.body, body_length))
      ⊎ ((body_plan r.header ≡ (0, body_none)) × (r.body ≡ []))

unfoldable pub sent_as_written : List Request → Bytes
sent_as_written [] = []
sent_as_written (r ∷ rs) = r.header ++ (r.body ++ sent_as_written rs)

-- What the target is meant to receive: bodies untouched, headers scrubbed.
unfoldable pub scrubbed : List Request → Bytes
scrubbed [] = []
scrubbed (r ∷ rs) = scrub_proxy_headers r.header ++ (r.body ++ scrubbed rs)

-- At a request boundary.
abbrev pub AtBoundary : Stream → Type 0
AtBoundary s = (s.pass_through ≡ false) × (s.skip_body ≡ 0) × (s.buf ≡ [])

pub feed_idle : (s : Stream) → feed s [] ≡ s
feed_idle s = feed-pump (suc (length s.buf + 0)) s [] (omega arith) ∙ pump_idle _ s

pub feed-skip :
    (s : Stream) (b x : Bytes)
    → s.pass_through ≡ false
    → length b ≤ s.skip_body
    → feed s (b ++ x) ≡ feed (skip_part s b) x
unfolding settle_rest
feed-skip s b [] t h = rw (append-nil b) (
    feed-pump (suc (suc (length s.buf + length b))) s b (omega arith)
    ∙ pump_step (suc (length s.buf + length b)) s b t
    ∙ ap (settle_rest (pump (suc (length s.buf + length b))) (skip_part s b))
        (drop_all s.skip_body b h)
    ∙ sym (feed_idle (skip_part s b)))
feed-skip s b (d ∷ q) t h =
    let n = length s.buf + length b + length (d ∷ q) in
    let gone = drop_all s.skip_body b h in
    feed s (b ++ d ∷ q)
    ≡⟨ feed-pump (suc n) s (b ++ d ∷ q) (omega (arith, length-append b (d ∷ q))) ⟩
      pump (suc n) s (b ++ d ∷ q)
    ≡⟨ pump-append_skipped n n n s b d q (omega arith) (omega arith) t gone ⟩
      pump (suc n) (pump (suc n) s b) (d ∷ q)
    ≡⟨ ap (λ u. pump (suc n) u (d ∷ q))
        (pump_step n s b t ∙ ap (settle_rest (pump n) (skip_part s b)) gone) ⟩
      pump (suc n) (skip_part s b) (d ∷ q)
    ≡⟨ sym (feed-pump (suc n) (skip_part s b) (d ∷ q) (omega arith)) ⟩
      feed (skip_part s b) (d ∷ q) ∎

settle-header :
    (n : Stream → Bytes → Stream) (s : Stream) (h x : Bytes) (i : ℕ)
    → looks_like_http_request h ≡ true
    → index h header_end ≡ some i
    → length h ≡ i + 4
    → settle n s (h ++ x) ≡ n (next_request s (length h) h) x
unfolding settle
settle-header n s h x i l f e = ground (
  arith,
  looks_like_extend h x {i = i} f l,
  index_extend h x header_end {i = i} f,
  take-append h x,
  drop-append h x,
  take_all (length h) h,
)

pub feed-header :
    (s : Stream) (h x : Bytes) (i : ℕ)
    → AtBoundary s
    → looks_like_http_request h ≡ true
    → index h header_end ≡ some i
    → length h ≡ i + 4
    → feed s (h ++ x) ≡ feed (next_request s (length h) h) x
unfolding settle_rest
feed-header s [] x i b l f e = absurd (omega arith)
feed-header s (c ∷ h) x i b l f e =
    let n = length s.buf + length (c ∷ h ++ x) in
    feed s (c ∷ h ++ x)
    ≡⟨ feed-pump (suc n) s (c ∷ h ++ x) (omega arith) ⟩ pump (suc n) s (c ∷ h ++ x)
    ≡⟨ pump_step n s (c ∷ h ++ x) b.0 ⟩
      settle_rest (pump n) (skip_part s (c ∷ h ++ x)) (drop s.skip_body (c ∷ h ++ x))
    ≡⟨ settle_rest_none (pump n) s (c ∷ h ++ x) b.1 ⟩ settle (pump n) s (s.buf ++ (c ∷ h ++ x))
    ≡⟨ ap (λ u. settle (pump n) s (u ++ (c ∷ h ++ x))) b.2 ⟩ settle (pump n) s (c ∷ h ++ x)
    ≡⟨ settle-header (pump n) s (c ∷ h) x i l f e ⟩
      pump n (next_request s (length (c ∷ h)) (c ∷ h)) x
    ≡⟨ sym (
        feed-pump n (next_request s (length (c ∷ h)) (c ∷ h)) x (
          omega (
            arith,
            length-append (c ∷ h) x,
            ap length (
                set_body_accounting-buf
                  (record s {
                    conn = s.conn ++ scrub_proxy_headers (take (length (c ∷ h)) (c ∷ h));
                    buf = [];
                  })
                  (take (length (c ∷ h)) (c ∷ h))),
          ))) ⟩
      feed (next_request s (length (c ∷ h)) (c ∷ h)) x ∎

-- Where a request leaves the machine.
unfoldable pub after_request : Stream → Request → Stream
after_request s r = record s { conn = s.conn ++ scrub_proxy_headers r.header ++ r.body }

pub next_request-length :
    (s : Stream) (h : Bytes) (k : ℕ)
    → body_plan h ≡ (k, body_length)
    → next_request s (length h) h
      ≡ record s { conn = s.conn ++ scrub_proxy_headers h; skip_body = k; buf = [] }
unfolding set_body_accounting
next_request-length s h k plan = ground (arith, take_all (length h) h)

after_body :
    (s : Stream) (r : Request)
    → AtBoundary s
    → body_plan r.header ≡ (length r.body, body_length)
    → skip_part (next_request s (length r.header) r.header) r.body ≡ after_request s r
unfolding after_request
after_body s r b plan =
    ground
      (arith, next_request-length s r.header (length r.body) plan, take_all (length r.body) r.body)

after_none :
    (s : Stream) (r : Request)
    → AtBoundary s
    → body_plan r.header ≡ (0, body_none)
    → r.body ≡ []
    → next_request s (length r.header) r.header ≡ after_request s r
unfolding after_request set_body_accounting
after_none s r b plan none_left = ground (
  arith,
  take_all (length r.header) r.header,
  append-nil (s.conn ++ scrub_proxy_headers r.header),
)

pub feed-request :
    (s : Stream) (r : Request) (x : Bytes)
    → AtBoundary s
    → IsRequest r
    → feed s (r.header ++ (r.body ++ x)) ≡ feed (after_request s r) x
feed-request s r x b v = elim v.announced [
  | inl plan ↦
      feed-header s r.header (r.body ++ x) v.last b v.starts v.ends v.whole
      ∙ feed-skip (next_request s (length r.header) r.header) r.body x
          (cc (next_request-length s r.header (length r.body) plan, b.0))
          (omega (
            arith,
            ap (λ (u : Stream). u.skip_body) (next_request-length s r.header (length r.body) plan),
          ))
      ∙ ap (λ u. feed u x) (after_body s r b plan)
  | inr (plan, none_left) ↦
      feed-header s r.header (r.body ++ x) v.last b v.starts v.ends v.whole
      ∙ cc (after_none s r b plan none_left, none_left)
]

-- The target receives every body byte for byte, and every header without its proxy lines.
pub feed-requests :
    (s : Stream) (rs : List Request)
    → AtBoundary s
    → All IsRequest rs
    → feed s (sent_as_written rs) ≡ record s { conn = s.conn ++ scrubbed rs }
unfolding sent_as_written scrubbed after_request
feed-requests s [] b v = feed_idle s ∙ ground (arith, append-nil s.conn)
feed-requests s (r ∷ rs) b v =
    feed-request s r (sent_as_written rs) b v.0
    ∙ feed-requests (after_request s r) rs b v.1
    ∙ ground (
      arith,
      append_assoc s.conn (scrub_proxy_headers r.header) r.body,
      append_assoc s.conn (scrub_proxy_headers r.header ++ r.body) (scrubbed rs),
      append_assoc (scrub_proxy_headers r.header) r.body (scrubbed rs),
    )

-- From a request boundary, for requests that each start with a method, end their header with the
-- first empty line and carry the body that `body_plan` reads from it, and for any cut of their bytes
-- into writes that keeps every write with what is held before it within `max_header_bytes`: the
-- target receives every body byte for byte and every header scrubbed, in order, and the scrubber
-- stands at a request boundary again.
pub feed_all-requests :
    (s : Stream) (rs : List Request) (ps : List Bytes)
    → AtBoundary s
    → All IsRequest rs
    → joined ps ≡ sent_as_written rs
    → FitsHeader s ps
    → feed_all s ps ≡ record s { conn = s.conn ++ scrubbed rs }
feed_all-requests s rs ps b v e f = feed_all-joined s ps f ∙ ap (feed s) e ∙ feed-requests s rs b v
