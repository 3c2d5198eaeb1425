-- ===== src/Scrubber/Lines.antt =====
-- `scrubProxyHeaders` of internal/provider/scrubber.go: which lines of a header are forwarded.
use http_broker.Base.{
  ℕ, zero, suc, ◌≡◌, refl, sym, ap, ◌≢◌, true, false, inl, inr, List, [], ◌∷◌, ◌++◌, append_assoc,
  Bytes, has_prefix, Bool-cases, arith, All, All-append, ◌≡⟨◌⟩◌, ◌∎,
}
use http_broker.Scrubber.Text.{cr, lf, crlf, cut, split_lines, join_lines}
use http_broker.Scrubber.Headers.{should_remove_line, names_header, kept_lines, scrub_proxy_headers}

-- A line holds no line end.
abbrev pub IsLine : Bytes → Type 0
IsLine [] = Unit
IsLine (c ∷ s) = (has_prefix (c ∷ s) crlf ≡ false) × IsLine s

-- A separator starts no earlier than the line ends.
line_before_crlf :
    (c : ℕ) (p rest : Bytes)
    → has_prefix (c ∷ p) crlf ≡ false
    → has_prefix (c ∷ (p ++ crlf ++ rest)) crlf ≡ false
unfolding has_prefix
line_before_crlf c [] rest h = ground arith
line_before_crlf c (d ∷ p) rest h = h

cut-line :
    (p rest : Bytes) → IsLine p → cut (p ++ crlf ++ rest) 0 ≡ (p, (cut rest 0).0 ∷ (cut rest 0).1)
unfolding cut has_prefix
cut-line [] rest h = refl
cut-line (c ∷ p) rest h = ground (arith, line_before_crlf c p rest h.0, cut-line p rest h.1)

cut_last : (p : Bytes) → IsLine p → cut p 0 ≡ (p, [])
unfolding cut
cut_last [] h = refl
cut_last (c ∷ p) h = ground (arith, cut_last p h.1)

cut_head :
    (c : ℕ) (s : Bytes)
    → has_prefix (c ∷ s) crlf ≡ false
    → has_prefix (c ∷ (cut s 0).0) crlf ≡ false
unfolding cut has_prefix
cut_head c [] h = ground arith
cut_head c (d ∷ s) h = ground arith

cut-IsLine : (s : Bytes) (k : ℕ) → IsLine (cut s k).0 × All IsLine (cut s k).1
unfolding cut
cut-IsLine [] k = (tt, tt)
cut-IsLine (c ∷ s) (suc k) = cut-IsLine s k
cut-IsLine (c ∷ s) zero = elim (Bool-cases (has_prefix (c ∷ s) crlf)) [
  | inl e ↦ rw (e, cut) (tt, cut-IsLine s 1)
  | inr e ↦ rw (e, cut) ((cut_head c s e, (cut-IsLine s 0).0), (cut-IsLine s 0).1)
]

pub split_lines-IsLine : (s : Bytes) → All IsLine (split_lines s)
unfolding split_lines
split_lines-IsLine s = cut-IsLine s 0

pub split_lines-join_lines :
    (ls : List Bytes) → ls ≢ [] → All IsLine ls → split_lines (join_lines ls) ≡ ls
unfolding split_lines join_lines
split_lines-join_lines [] h a = absurd (h refl)
split_lines-join_lines (l ∷ []) h a = rw (cut_last l a.0)
split_lines-join_lines (l ∷ m ∷ ls) h a =
    rw (cut-line l _ a.0) (ap (◌∷◌ l) (split_lines-join_lines (m ∷ ls) (λ e. cc) a.1))

cut_crlf : (c d : ℕ) (s : Bytes) → has_prefix (c ∷ d ∷ s) crlf ≡ true → (c ≡ cr) × (d ≡ lf)
unfolding has_prefix
cut_crlf c d s h = ground arith

join_lines-cons :
    (c : ℕ) (l : Bytes) (ls : List Bytes) → join_lines ((c ∷ l) ∷ ls) ≡ c ∷ join_lines (l ∷ ls)
unfolding join_lines
join_lines-cons c l [] = refl
join_lines-cons c l (m ∷ ls) = refl

single : (c : ℕ) → has_prefix (c ∷ []) crlf ≡ false
unfolding has_prefix
single c = ground arith

pub join_lines-split_lines : (s : Bytes) → join_lines (split_lines s) ≡ s
unfolding split_lines join_lines cut
join_lines-split_lines [] = refl
join_lines-split_lines (c ∷ []) = rw (single c, cut)
join_lines-split_lines (c ∷ d ∷ s) = elim (Bool-cases (has_prefix (c ∷ d ∷ s) crlf)) [
  | inl e ↦ ground (arith, e, cut_crlf c d s e, join_lines-split_lines s)
  | inr e ↦ ground (
    arith,
    e,
    join_lines-split_lines (d ∷ s),
    join_lines-cons c (cut (d ∷ s) 0).0 (cut (d ∷ s) 0).1,
  )
]

join_lines-append :
    (ls ms : List Bytes)
    → ls ≢ []
    → ms ≢ []
    → join_lines (ls ++ ms) ≡ join_lines ls ++ crlf ++ join_lines ms
unfolding join_lines
join_lines-append [] ms h k = absurd (h refl)
join_lines-append (l ∷ []) [] h k = absurd (k refl)
join_lines-append (l ∷ []) (m ∷ ms) h k = refl
join_lines-append (l ∷ l' ∷ ls) ms h k =
    simp (join_lines-append (l' ∷ ls) ms (λ e. cc) k, append_assoc)

split_lines-ne : (s : Bytes) → split_lines s ≢ []
unfolding split_lines
split_lines-ne s = λ e. cc

append_ne : (ls ms : List Bytes) → ls ≢ [] → ls ++ ms ≢ []
append_ne [] ms h = absurd (h refl)
append_ne (l ∷ ls) ms h = λ e. cc

-- A line end splits a text in two.
split_lines-append : (s t : Bytes) → split_lines (s ++ crlf ++ t) ≡ split_lines s ++ split_lines t
split_lines-append s t =
    let ls = split_lines s in
    let ms = split_lines t in
    split_lines (s ++ crlf ++ t)
    ≡⟨ cc (join_lines-split_lines s, join_lines-split_lines t) ⟩
      split_lines (join_lines ls ++ crlf ++ join_lines ms)
    ≡⟨ ap split_lines (sym (join_lines-append ls ms (split_lines-ne s) (split_lines-ne t))) ⟩
      split_lines (join_lines (ls ++ ms))
    ≡⟨ split_lines-join_lines (ls ++ ms) (append_ne ls ms (split_lines-ne s))
        (All-append IsLine ls ms (split_lines-IsLine s) (split_lines-IsLine t)) ⟩
      ls ++ ms ∎

kept_lines-All : (ls : List Bytes) → All IsLine ls → All IsLine (kept_lines ls)
unfolding kept_lines
kept_lines-All [] a = tt
kept_lines-All (l ∷ ls) a = elim (Bool-cases (should_remove_line l)) [
  | inl e ↦ rw e (kept_lines-All ls a.1)
  | inr e ↦ rw e (a.0, kept_lines-All ls a.1)
]

-- What a reader finds by splitting the joined lines: they, and one empty line where there is none.
abbrev pub or_empty : List Bytes → List Bytes
or_empty [] = [] ∷ []
or_empty (l ∷ ls) = l ∷ ls

split_lines-join_lines_or :
    (ls : List Bytes) → All IsLine ls → split_lines (join_lines ls) ≡ or_empty ls
unfolding split_lines join_lines cut
split_lines-join_lines_or [] a = refl
split_lines-join_lines_or (l ∷ ls) a = split_lines-join_lines (l ∷ ls) (λ e. cc) a

-- The lines of the forwarded header.
pub split_lines-scrub :
    (h : Bytes) → split_lines (scrub_proxy_headers h) ≡ or_empty (kept_lines (split_lines h))
unfolding scrub_proxy_headers
split_lines-scrub h =
    split_lines-join_lines_or _ (kept_lines-All (split_lines h) (split_lines-IsLine h))

abbrev pub IsKept : Bytes → Type 0
IsKept l = should_remove_line l ≡ false

kept_lines-IsKept : (ls : List Bytes) → All IsKept (kept_lines ls)
unfolding kept_lines
kept_lines-IsKept [] = tt
kept_lines-IsKept (l ∷ ls) = elim (Bool-cases (should_remove_line l)) [
  | inl e ↦ rw (e, kept_lines) (kept_lines-IsKept ls)
  | inr e ↦ rw (e, kept_lines) (e, kept_lines-IsKept ls)
]

kept_lines_same : (ls : List Bytes) → All IsKept ls → kept_lines ls ≡ ls
unfolding kept_lines
kept_lines_same [] a = refl
kept_lines_same (l ∷ ls) a = rw (a.0, kept_lines_same ls a.1)

kept_lines-append : (ls ms : List Bytes) → kept_lines (ls ++ ms) ≡ kept_lines ls ++ kept_lines ms
unfolding kept_lines
kept_lines-append [] ms = refl
kept_lines-append (l ∷ ls) ms = ground (arith, kept_lines-append ls ms)

nil-IsKept : IsKept []
unfolding should_remove_line names_header
nil-IsKept = refl

or_empty-IsKept : (ls : List Bytes) → All IsKept ls → All IsKept (or_empty ls)
or_empty-IsKept [] a = (nil-IsKept, tt)
or_empty-IsKept (l ∷ ls) a = a

pub scrub-IsKept : (h : Bytes) → All IsKept (split_lines (scrub_proxy_headers h))
scrub-IsKept h =
    rw (split_lines-scrub h)
      (or_empty-IsKept (kept_lines (split_lines h)) (kept_lines-IsKept (split_lines h)))

pub scrub_clean : (h : Bytes) → All IsKept (split_lines h) → scrub_proxy_headers h ≡ h
unfolding scrub_proxy_headers
scrub_clean h a = rw (kept_lines_same (split_lines h) a) (join_lines-split_lines h)

-- Scrubbing twice is scrubbing once.
pub scrub_idem : (h : Bytes) → scrub_proxy_headers (scrub_proxy_headers h) ≡ scrub_proxy_headers h
scrub_idem h = scrub_clean (scrub_proxy_headers h) (scrub-IsKept h)

kept_lines-crlf : kept_lines (split_lines crlf) ≡ [] ∷ [] ∷ []
unfolding kept_lines split_lines cut has_prefix should_remove_line names_header
kept_lines-crlf = refl

kept_lines-ne :
    (s : Bytes) → should_remove_line (cut s 0).0 ≡ false → kept_lines (split_lines s) ≢ []
unfolding kept_lines split_lines
kept_lines-ne s h = rw h (λ e. cc)

-- Bytes that end with an empty line still end with it after scrubbing, if their first line is kept.
pub scrub_header_end :
    (s : Bytes)
    → should_remove_line (cut s 0).0 ≡ false
    → (t : Bytes) × (scrub_proxy_headers (s ++ crlf ++ crlf) ≡ t ++ crlf ++ crlf)
scrub_header_end s h = (join_lines kept, chain)
  where
    kept : List Bytes
    kept = kept_lines (split_lines s)

    lines : kept_lines (split_lines (s ++ crlf ++ crlf)) ≡ kept ++ [] ∷ [] ∷ []
    lines =
        rw (split_lines-append s crlf, kept_lines-append (split_lines s) (split_lines crlf))
          (ap (◌++◌ kept) kept_lines-crlf)

    chain : scrub_proxy_headers (s ++ crlf ++ crlf) ≡ join_lines kept ++ crlf ++ crlf
    chain =
        unfold scrub_proxy_headers join_lines in
        rw lines (join_lines-append kept ([] ∷ [] ∷ []) (kept_lines-ne s h) (λ e. cc))
