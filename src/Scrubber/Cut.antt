-- ===== src/Scrubber/Cut.antt =====
-- One write of a stream to `ScrubConn` of internal/provider/scrubber.go, or two of its parts.
use http_broker.Base.{
  ℕ, zero, suc, ◌+◌, ◌-◌, ◌≤◌, ◌<◌, ◌≡◌, refl, ap, ◌∙◌, sym, inl, inr, true, false, [], ◌∷◌, ◌++◌,
  append-nil, append_assoc, Bytes, Bool-cases, Option-cases, arith, length, take, drop,
  length-append, length-drop, take-append_le, drop-append_le, take-append_split, drop-append_split,
  ◌≡⟨◌⟩◌, ◌∎,
}
use http_broker.Scrubber.Text.{index}
use http_broker.Scrubber.Headers.{looks_like_http_request}
use http_broker.Scrubber.Detect.{index-le, index_extend, looks_like_front, looks_like_extend}
use http_broker.Scrubber.Conn.{header_end, max_header_bytes}
use http_broker.Scrubber.Stream.{Stream, let_go, next_request, settle, skip_part, settle_rest, pump}
use http_broker.Scrubber.Pump.{rest_length, settle-cong, settle_rest-cong, pump_fuel}

module _ (again joined : Stream → Bytes → Stream) (finish : Stream → Stream) (q : Bytes) (fuel : ℕ)
    (ends : (s : Stream) (p : Bytes)
      → length s.buf + length p < fuel
      → length s.buf + length p ≤ max_header_bytes
      → joined s (p ++ q) ≡ finish (again s p))
    (passes : (s : Stream) → s.pass_through ≡ true → finish s ≡ record s { conn = s.conn ++ q })
    (waits : (s : Stream) (held : Bytes)
      → s.skip_body ≡ 0
      → s.pass_through ≡ false
      → length held ≤ fuel
      → finish (record s { buf = held }) ≡ settle joined s (held ++ q)) where
  settle-append :
      (s : Stream) (held : Bytes)
      → s.skip_body ≡ 0
      → s.pass_through ≡ false
      → length held ≤ fuel
      → length held ≤ max_header_bytes
      → settle joined s (held ++ q) ≡ finish (settle again s held)
  unfolding settle
  settle-append s held k t h m = elim (Bool-cases (looks_like_http_request held)) [
    | inr l ↦ ground (
      arith,
      l,
      looks_like_front held q l,
      passes (let_go s held) refl,
      append_assoc s.conn held q,
    )
    | inl l ↦ elim (Option-cases (index held header_end)) [
      | inl f ↦ ground (arith, l, f, waits s held k t h)
      | inr (i, f) ↦ ground (
        arith,
        l,
        f,
        looks_like_extend held q {i = i} f l,
        index_extend held q header_end {i = i} f,
        index-le held header_end {i = i} f,
        take-append_le (i + 4) held q,
        drop-append_le (i + 4) held q,
        rest_length s held i f,
        ends (next_request s (i + 4) held) (drop (i + 4) held),
      )
    ]
  ]

pub pump_pass :
    (f : ℕ) (s : Stream) (p : Bytes)
    → s.pass_through ≡ true
    → pump (suc f) s p ≡ record s { conn = s.conn ++ p }
unfolding pump
pump_pass f s p e = rw e

pub pump_step :
    (f : ℕ) (s : Stream) (p : Bytes)
    → s.pass_through ≡ false
    → pump (suc f) s p ≡ settle_rest (pump f) (skip_part s p) (drop s.skip_body p)
unfolding pump
pump_step f s p e = rw e

pub skip_part-append :
    (s : Stream) (p q : Bytes) → skip_part s (p ++ q) ≡ skip_part (skip_part s p) q
skip_part-append s p q = ground (
  arith,
  length-append p q,
  take-append_split s.skip_body p q,
  append_assoc s.conn (take s.skip_body p) (take (s.skip_body - length p) q),
)

pub skip_part_none : (s : Stream) (p : Bytes) → s.skip_body ≡ 0 → skip_part s p ≡ s
skip_part_none s p e = ground (arith, append-nil s.conn)

pub settle_rest_none :
    (n : Stream → Bytes → Stream) (s : Stream) (p : Bytes)
    → s.skip_body ≡ 0
    → settle_rest n (skip_part s p) (drop s.skip_body p) ≡ settle_rest n s p
settle_rest_none n s p e = ground (arith, e, skip_part_none s p e)

pump_waits :
    (f g : ℕ) (d : ℕ) (q : Bytes) (s : Stream) (held : Bytes)
    → length held + length (d ∷ q) ≤ f
    → length held + length (d ∷ q) ≤ g
    → s.skip_body ≡ 0
    → s.pass_through ≡ false
    → pump (suc g) (record s { buf = held }) (d ∷ q) ≡ settle (pump f) s (held ++ d ∷ q)
unfolding settle_rest settle
pump_waits f g d q s held hf hg k t =
    let s' = record s { buf = held } in
    pump_step g s' (d ∷ q) t
    ∙ settle_rest_none (pump g) s' (d ∷ q) k
    ∙ settle-cong (pump g) (pump f) (length held + length (d ∷ q)) s' (held ++ d ∷ q)
        (λ u p lt. pump_fuel g f u p (omega arith) (omega arith))
        (omega (arith, length-append held (d ∷ q)))

module _ (f h g : ℕ) (s : Stream) (p : Bytes) (d : ℕ) (q : Bytes)
    (hf : length s.buf + length p + length (d ∷ q) ≤ f)
    (hg : length s.buf + length p + length (d ∷ q) ≤ g) (t : s.pass_through ≡ false) where
  pub pump-append_skipped :
      drop s.skip_body p ≡ []
      → pump (suc f) s (p ++ d ∷ q) ≡ pump (suc g) (pump (suc h) s p) (d ∷ q)
  unfolding settle_rest
  pump-append_skipped e =
      let s' = skip_part s p in
      let rest = drop (s.skip_body - length p) (d ∷ q) in
      let first : pump (suc h) s p ≡ s' = pump_step h s p t ∙ ap (settle_rest (pump h) s') e in
      let others : drop s.skip_body (p ++ d ∷ q) ≡ rest =
        drop-append_split s.skip_body p (d ∷ q) ∙ ap (λ l. l ++ rest) e in
      pump (suc f) s (p ++ d ∷ q)
      ≡⟨ pump_step f s (p ++ d ∷ q) t ⟩
        settle_rest (pump f) (skip_part s (p ++ d ∷ q)) (drop s.skip_body (p ++ d ∷ q))
      ≡⟨ cc (skip_part-append s p (d ∷ q), others) ⟩
        settle_rest (pump f) (skip_part s' (d ∷ q)) rest
      ≡⟨ settle_rest-cong (pump f) (pump g) (length s.buf + length (d ∷ q)) (skip_part s' (d ∷ q))
          rest (λ u v lt. pump_fuel f g u v (omega arith) (omega arith))
          (omega (arith, length-drop (s.skip_body - length p) (d ∷ q))) ⟩
        settle_rest (pump g) (skip_part s' (d ∷ q)) rest
      ≡⟨ sym (pump_step g s' (d ∷ q) t) ⟩ pump (suc g) s' (d ∷ q)
      ≡⟨ ap (λ u. pump (suc g) u (d ∷ q)) (sym first) ⟩ pump (suc g) (pump (suc h) s p) (d ∷ q) ∎

  pump-append_settled :
      (c : ℕ) (r : Bytes)
      → drop s.skip_body p ≡ c ∷ r
      → length s.buf + length p ≤ max_header_bytes
      → ((s' : Stream) (p' : Bytes)
          → length s'.buf + length p' < length (s.buf ++ c ∷ r)
          → length s'.buf + length p' ≤ max_header_bytes
          → pump f s' (p' ++ d ∷ q) ≡ pump (suc g) (pump h s' p') (d ∷ q))
      → pump (suc f) s (p ++ d ∷ q) ≡ pump (suc g) (pump (suc h) s p) (d ∷ q)
  unfolding settle_rest
  pump-append_settled c r e m ends =
      let s' = skip_part s p in
      let held = s.buf ++ c ∷ r in
      let past : s.skip_body < length p = omega (arith, ap length e, length-drop s.skip_body p) in
      let none_left : s.skip_body - length p ≡ 0 = omega arith in
      let small : length held ≤ length s.buf + length p =
        omega (arith, ap length e, length-drop s.skip_body p, length-append s.buf (c ∷ r)) in
      let others : drop s.skip_body (p ++ d ∷ q) ≡ (c ∷ r) ++ d ∷ q =
        drop-append_split s.skip_body p (d ∷ q) ∙ cc (e, ap (λ k. drop k (d ∷ q)) none_left) in
      let same : skip_part s (p ++ d ∷ q) ≡ s' =
        skip_part-append s p (d ∷ q) ∙ skip_part_none s' (d ∷ q) none_left in
      let first : pump (suc h) s p ≡ settle (pump h) s' held =
        pump_step h s p t ∙ ap (settle_rest (pump h) s') e in
      pump (suc f) s (p ++ d ∷ q)
      ≡⟨ pump_step f s (p ++ d ∷ q) t ⟩
        settle_rest (pump f) (skip_part s (p ++ d ∷ q)) (drop s.skip_body (p ++ d ∷ q))
      ≡⟨ cc (same, others) ⟩ settle (pump f) s' (s.buf ++ ((c ∷ r) ++ d ∷ q))
      ≡⟨ ap (settle (pump f) s') (sym (append_assoc s.buf (c ∷ r) (d ∷ q))) ⟩
        settle (pump f) s' (held ++ d ∷ q)
      ≡⟨ settle-append (pump h) (pump f) (λ u. pump (suc g) u (d ∷ q)) (d ∷ q) (length held) ends
          (λ u k. pump_pass g u (d ∷ q) k)
          (λ u b k l lt. pump_waits f g d q u b (omega arith) (omega arith) k l) s' held none_left t
          (omega arith) (omega arith) ⟩
        pump (suc g) (settle (pump h) s' held) (d ∷ q)
      ≡⟨ ap (λ u. pump (suc g) u (d ∷ q)) (sym first) ⟩ pump (suc g) (pump (suc h) s p) (d ∷ q) ∎

pump-append_open :
    (f h g : ℕ) (s : Stream) (p : Bytes) (d : ℕ) (q : Bytes) (r : Bytes)
    → length s.buf + length p + length (d ∷ q) ≤ f
    → length s.buf + length p ≤ h
    → length s.buf + length p + length (d ∷ q) ≤ g
    → length s.buf + length p ≤ max_header_bytes
    → drop s.skip_body p ≡ r
    → ((s' : Stream) (p' : Bytes)
        → length s'.buf + length p' < length s.buf + length r
        → length s'.buf + length p' ≤ max_header_bytes
        → pump f s' (p' ++ d ∷ q) ≡ pump (suc g) (pump h s' p') (d ∷ q))
    → pump (suc f) s (p ++ d ∷ q) ≡ pump (suc g) (pump (suc h) s p) (d ∷ q)
pump-append_open f h g s p d q r hf hh hg m e ends = elim (Bool-cases s.pass_through) [
  | inl t ↦ ground (
    arith,
    pump_pass f s (p ++ d ∷ q) t,
    pump_pass h s p t,
    pump_pass g (record s { conn = s.conn ++ p }) (d ∷ q),
    append_assoc s.conn p (d ∷ q),
  )
  | inr t ↦ go r e ends t
]
  where
    go :
        (r : Bytes)
        → drop s.skip_body p ≡ r
        → ((s' : Stream) (p' : Bytes)
            → length s'.buf + length p' < length s.buf + length r
            → length s'.buf + length p' ≤ max_header_bytes
            → pump f s' (p' ++ d ∷ q) ≡ pump (suc g) (pump h s' p') (d ∷ q))
        → s.pass_through ≡ false
        → pump (suc f) s (p ++ d ∷ q) ≡ pump (suc g) (pump (suc h) s p) (d ∷ q)
    go [] e ends t = pump-append_skipped f h g s p d q hf hg t e
    go (c ∷ r) e ends t =
        pump-append_settled f h g s p d q hf hg t c r e m
          (λ u v lt k. ends u v (omega (arith, length-append s.buf (c ∷ r))) k)

-- Both runs, and the third that takes the two writes as one.
pub pump-append :
    (f h g : ℕ) (s : Stream) (p : Bytes) (d : ℕ) (q : Bytes)
    → length s.buf + length p + length (d ∷ q) < f
    → length s.buf + length p < h
    → length s.buf + length p + length (d ∷ q) < g
    → length s.buf + length p ≤ max_header_bytes
    → pump f s (p ++ d ∷ q) ≡ pump g (pump h s p) (d ∷ q)
pump-append zero h g s p d q hf hh hg m = absurd (omega arith)
pump-append (suc f) zero g s p d q hf hh hg m = absurd (omega arith)
pump-append (suc f) (suc h) zero s p d q hf hh hg m = absurd (omega arith)
pump-append (suc f) (suc h) (suc g) s p d q hf hh hg m =
    let r = drop s.skip_body p in
    let short : length r ≤ length p = omega (arith, length-drop s.skip_body p) in
    pump-append_open f h g s p d q r (omega arith) (omega arith) (omega arith) m refl
      (λ u v lt k. pump-append f h (suc g) u v d q (omega arith) (omega arith) (omega arith) k)
