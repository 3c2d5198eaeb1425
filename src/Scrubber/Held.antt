-- ===== src/Scrubber/Held.antt =====
-- What `ScrubConn` of internal/provider/scrubber.go holds back on a keep-alive connection whose headers are
-- short, and so which cuts into writes keep within its limit.
use http_broker.Base.{
  le_or_lt, ℕ, suc, ◌+◌, ◌≤◌, ◌≡◌, refl, ap, subst, ◌∙◌, sym, inl, inr, List, [], ◌∷◌, ◌++◌,
  append-nil, append_assoc, Bytes, arith, length, All,
}
use http_broker.Scrubber.Body.{body_length, body_plan}
use http_broker.Scrubber.Conn.{max_header_bytes}
use http_broker.Scrubber.Stream.{Stream, next_request, skip_part, feed}
use http_broker.Scrubber.Pump.{buf-pump}
use http_broker.Scrubber.Chunks.{feed-pump, feed_all, joined, FitsHeader, feed_all-joined}
use http_broker.Scrubber.Requests.{
  Request, IsRequest, sent_as_written, AtBoundary, feed_idle, feed-skip, feed-header, feed-request,
  next_request-length, after_request,
}

-- Two ways to cut one text.
append_split :
    (t u h x : Bytes)
    → t ++ u ≡ h ++ x
    → length h ≤ length t
    → (rest : Bytes) × (t ≡ h ++ rest) × (rest ++ u ≡ x)
append_split t u [] x e l = (t, refl, e)
append_split [] u (c ∷ h) x e l = absurd (omega arith)
append_split (d ∷ t) u (c ∷ h) x e l =
    let (rest, f, g) = append_split t u h x (cc e) (omega arith) in (rest, cc (e, f), g)

held_at_most_given : (s : Stream) (t : Bytes) → s.buf ≡ [] → length (feed s t).buf ≤ length t
held_at_most_given s t b =
    let f = suc (length s.buf + length t) in
    rw (feed-pump f s t (omega arith)) (omega (arith, buf-pump f s t, ap length b))

-- Within a body nothing is held.
held_in_body :
    (s : Stream) (r : Request) (t : Bytes)
    → AtBoundary s
    → IsRequest r
    → body_plan r.header ≡ (length r.body, body_length)
    → length t ≤ length r.body
    → (feed s (r.header ++ t)).buf ≡ []
held_in_body s r t b v plan l =
    let next = next_request s (length r.header) r.header in
    let state = next_request-length s r.header (length r.body) plan in
    let through : feed next t ≡ skip_part next t =
      ap (feed next) (sym (append-nil t))
      ∙ feed-skip next t [] (ap (λ (u : Stream). u.pass_through) state ∙ b.0)
          (omega (arith, ap (λ (u : Stream). u.skip_body) state))
      ∙ feed_idle (skip_part next t) in
    ap (λ (u : Stream). u.buf) (feed-header s r.header t v.last b v.starts v.ends v.whole ∙ through)
    ∙ ap (λ (u : Stream). u.buf) state

-- Behind a header, with what the next request holds.
held_behind_header :
    (limit : ℕ) (s : Stream) (r : Request) (x u rest : Bytes)
    → AtBoundary s
    → IsRequest r
    → x ++ u ≡ r.body ++ rest
    → ((y : Bytes) → y ++ u ≡ rest → length (feed (after_request s r) y).buf ≤ limit)
    → length (feed s (r.header ++ x)).buf ≤ limit
held_behind_header limit s r x u rest b v g next = elim (le_or_lt (length r.body) (length x)) [
  | inl past ↦
      let (y, f, k) = append_split x u r.body rest g past in
      rw f (rw (feed-request s r y b v) (next y k))
  | inr within ↦ elim v.announced [
    | inl plan ↦ rw (held_in_body s r x b v plan (omega arith)) (omega arith)
    | inr (plan, none_left) ↦ absurd (omega (arith, ap length none_left))
  ]
]

-- From a request boundary, after any part of a run of complete requests, no more is held back than the
-- longest header.
held_in_requests :
    (limit : ℕ) (s : Stream) (rs : List Request) (t u : Bytes)
    → AtBoundary s
    → All IsRequest rs
    → All (λ r. length r.header ≤ limit) rs
    → t ++ u ≡ sent_as_written rs
    → length (feed s t).buf ≤ limit
unfolding sent_as_written after_request
held_in_requests limit s [] [] u b v m e = rw (feed_idle s) (omega (arith, ap length b.2))
held_in_requests limit s [] (c ∷ t) u b v m e = absurd (cc e)
held_in_requests limit s (r ∷ rs) t u b v m e = elim (le_or_lt (length r.header) (length t)) [
  | inr less ↦ omega (arith, held_at_most_given s t b.2, m.0)
  | inl more ↦
      let (x, f, g) = append_split t u r.header (r.body ++ sent_as_written rs) e more in
      rw f (
        held_behind_header limit s r x u (sent_as_written rs) b v.0 g
          (λ y k. held_in_requests limit (after_request s r) rs y u b v.1 m.1 k))
]

feed_all-append :
    (s : Stream) (ps : List Bytes) (p : Bytes) → feed_all s (ps ++ p ∷ []) ≡ feed (feed_all s ps) p
unfolding feed_all
feed_all-append s [] p = refl
feed_all-append s (q ∷ ps) p = feed_all-append (feed s q) ps p

joined-append : (ps qs : List Bytes) → joined (ps ++ qs) ≡ joined ps ++ joined qs
unfolding joined
joined-append [] qs = refl
joined-append (p ∷ ps) qs =
    ap (◌++◌ p) (joined-append ps qs) ∙ sym (append_assoc p (joined ps) (joined qs))

FitsHeader-append :
    (s : Stream) (ps : List Bytes) (p : Bytes)
    → FitsHeader s ps
    → length (feed_all s ps).buf + length p ≤ max_header_bytes
    → FitsHeader s (ps ++ p ∷ [])
unfolding feed_all
FitsHeader-append s [] p h l = (l, tt)
FitsHeader-append s (q ∷ ps) p h l = (h.0, FitsHeader-append (feed s q) ps p h.1 l)

module _ (limit : ℕ) (s : Stream) (rs : List Request) where
  fits_from :
      (done ps : List Bytes)
      → AtBoundary s
      → All IsRequest rs
      → All (λ r. length r.header ≤ limit) rs
      → All (λ p. limit + length p ≤ max_header_bytes) ps
      → joined done ++ joined ps ≡ sent_as_written rs
      → FitsHeader s done
      → FitsHeader (feed_all s done) ps
  unfolding joined
  fits_from done [] b v m k e h = tt
  fits_from done (p ∷ ps) b v m k e h =
      let held : length (feed_all s done).buf ≤ limit =
        rw (feed_all-joined s done h)
          (held_in_requests limit s rs (joined done) (p ++ joined ps) b v m e) in
      let fit : length (feed_all s done).buf + length p ≤ max_header_bytes = omega (arith, k.0) in
      let e' : joined (done ++ p ∷ []) ++ joined ps ≡ sent_as_written rs =
        ap (λ x. x ++ joined ps) (joined-append done (p ∷ []))
        ∙ append_assoc (joined done) (p ++ []) (joined ps)
        ∙ ap (λ x. joined done ++ (x ++ joined ps)) (append-nil p)
        ∙ e in
      (
        fit,
        subst (λ u. FitsHeader u ps) (feed_all-append s done p)
            (fits_from (done ++ p ∷ []) ps b v m k.1 e' (FitsHeader-append s done p h fit)),
      )

  -- Writes whose lengths leave room for the longest header fit, however they cut a run of requests.
  pub short-FitsHeader :
      (ps : List Bytes)
      → AtBoundary s
      → All IsRequest rs
      → All (λ r. length r.header ≤ limit) rs
      → All (λ p. limit + length p ≤ max_header_bytes) ps
      → joined ps ≡ sent_as_written rs
      → FitsHeader s ps
  unfolding feed_all joined
  short-FitsHeader ps b v m k e = fits_from [] ps b v m k e tt
