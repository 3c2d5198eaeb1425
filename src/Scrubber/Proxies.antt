-- ===== src/Scrubber/Proxies.antt =====
-- The lines that scrubProxyHeaders of internal/provider/scrubber.go takes out, described without it.
use http_broker.Base.{
  ℕ, ◌+◌, ◌≤◌, ◌≡◌, refl, ◌⊎◌, inl, inr, Bool, true, false, ◌&&◌, List, [], ◌∷◌, ◌++◌, Bytes, codes,
  Bool-cases, arith, All, leb, length, take, ◌==◌, if◌then◌else◌, none, some,
}
use http_broker.Scrubber.Text.{lower, fold_head, equal_fold, split_lines}
use http_broker.Scrubber.Headers.{
  proxy_headers, should_remove_line, names_header, scrub_proxy_headers,
}
use http_broker.Scrubber.Lines.{IsKept, scrub-IsKept, scrub_clean}

-- A byte is another, or the same ASCII letter in the other case.
abbrev pub IsSameLetter : ℕ → ℕ → Type 0
IsSameLetter c t =
    (c ≡ t) ⊎ ((b'A' ≤ t) × (t ≤ b'Z') × (c ≡ t + 32)) ⊎ ((b'A' ≤ c) × (c ≤ b'Z') × (t ≡ c + 32))

-- A line starts with a name, in any case, and a colon.
abbrev pub IsHeader : Bytes → Bytes → Type 0
IsHeader [] name = ⊥
IsHeader (c ∷ line) [] = c ≡ b':'
IsHeader (c ∷ line) (t ∷ name) = IsSameLetter c t × IsHeader line name

-- A line starts with one of some names and a colon.
abbrev pub StartsWithAny : List Bytes → Bytes → Type 0
StartsWithAny [] line = ⊥
StartsWithAny (h ∷ hs) line = IsHeader line h ⊎ StartsWithAny hs line

-- The seven names.
abbrev pub NamesProxy : Bytes → Type 0
NamesProxy line =
    StartsWithAny
      (codes "X-Forwarded-For"
        ∷ codes "X-Real-IP"
        ∷ codes "Via"
        ∷ codes "Forwarded"
        ∷ codes "Proxy-Connection"
        ∷ codes "Proxy-Authorization"
        ∷ codes "X-Proxy-ID"
        ∷ [])
      line

-- Without the letters "k" and "s", which fold to letters outside ASCII.
abbrev is_plain : ℕ → Bool
is_plain t = if lower t == b's' then false else if lower t == b'k' then false else true

abbrev IsPlain : ℕ → Type 0
IsPlain t = is_plain t ≡ true

lower_same : (c t : ℕ) → (lower c == lower t) ≡ true → IsSameLetter c t
unfolding lower
lower_same c t h = ground (arith, h)

same_lower : (c t : ℕ) → IsSameLetter c t → (lower c == lower t) ≡ true
unfolding lower
same_lower c t h = ground (arith, h)

fold_head_plain :
    (c t : ℕ) (s : Bytes)
    → IsPlain t
    → fold_head (c ∷ s) t ≡ (if lower c == lower t then some s else none)
unfolding fold_head
fold_head_plain c t s h = ground (arith, h)

-- The test of the loop for one header.
abbrev starts_with : Bytes → Bytes → Bool
starts_with line h =
    let prefix = h ++ b':' ∷ [] in
    leb (length prefix) (length line) && equal_fold (take (length prefix) line) prefix

starts_with-nil : (h : Bytes) → starts_with [] h ≡ false
starts_with-nil [] = ground arith
starts_with-nil (t ∷ h) = ground arith

starts_with-colon : (c : ℕ) (line : Bytes) → starts_with (c ∷ line) [] ≡ (lower c == b':')
unfolding equal_fold fold_head lower
starts_with-colon c line = ground arith

starts_with-cons :
    (c t : ℕ) (line h : Bytes)
    → IsPlain t
    → starts_with (c ∷ line) (t ∷ h) ≡ ((lower c == lower t) && starts_with line h)
unfolding equal_fold
starts_with-cons c t line h p =
    ground (arith, fold_head_plain c t (take (length (h ++ b':' ∷ [])) line) p)

colon_only : (c : ℕ) → (lower c == b':') ≡ true → c ≡ b':'
unfolding lower
colon_only c h = ground (arith, h)

colon_lower : lower b':' ≡ b':'
unfolding lower
colon_lower = refl

starts_with-IsHeader :
    (line h : Bytes) → All IsPlain h → starts_with line h ≡ true → IsHeader line h
starts_with-IsHeader [] h p e = absurd (cc (e, starts_with-nil h))
starts_with-IsHeader (c ∷ line) [] p e = colon_only c (ground (arith, starts_with-colon c line, e))
starts_with-IsHeader (c ∷ line) (t ∷ h) p e =
    let both = starts_with-cons c t line h p.0 in
    (
      lower_same c t (ground (arith, both, e)),
      starts_with-IsHeader line h p.1 (ground (arith, both, e)),
    )

IsHeader-starts_with :
    (line h : Bytes) → All IsPlain h → IsHeader line h → starts_with line h ≡ true
IsHeader-starts_with [] h p e = absurd e
IsHeader-starts_with (c ∷ line) [] p e = ground (arith, starts_with-colon c line, e, colon_lower)
IsHeader-starts_with (c ∷ line) (t ∷ h) p e =
    let both = starts_with-cons c t line h p.0 in
    ground (arith, both, same_lower c t e.0, IsHeader-starts_with line h p.1 e.1)

names_header-named :
    (hs : List Bytes) (line : Bytes)
    → All (All IsPlain) hs
    → names_header hs line ≡ true
    → StartsWithAny hs line
unfolding names_header
names_header-named [] line p e = absurd (cc e)
names_header-named (h ∷ hs) line p e = elim (Bool-cases (starts_with line h)) [
  | inl starts ↦ inl (starts_with-IsHeader line h p.0 starts)
  | inr other ↦ inr (names_header-named hs line p.1 (ground (arith, e, other)))
]

named-names_header :
    (hs : List Bytes) (line : Bytes)
    → All (All IsPlain) hs
    → StartsWithAny hs line
    → names_header hs line ≡ true
unfolding names_header
named-names_header [] line p e = absurd e
named-names_header (h ∷ hs) line p (inl e) = ground (arith, IsHeader-starts_with line h p.0 e)
named-names_header (h ∷ hs) line p (inr e) = ground (arith, named-names_header hs line p.1 e)

every_plain : Bytes → Bool
every_plain [] = true
every_plain (t ∷ h) = is_plain t && every_plain h

every_plain-All : (h : Bytes) → every_plain h ≡ true → All IsPlain h
unfolding every_plain
every_plain-All [] e = tt
every_plain-All (t ∷ h) e = (ground (arith, e), every_plain-All h (ground (arith, e)))

all_plain : List Bytes → Bool
all_plain [] = true
all_plain (h ∷ hs) = every_plain h && all_plain hs

all_plain-All : (hs : List Bytes) → all_plain hs ≡ true → All (All IsPlain) hs
unfolding all_plain
all_plain-All [] e = tt
all_plain-All (h ∷ hs) e =
    (every_plain-All h (ground (arith, e)), all_plain-All hs (ground (arith, e)))

proxy_headers-IsPlain : All (All IsPlain) proxy_headers
unfolding lower every_plain all_plain
proxy_headers-IsPlain = all_plain-All proxy_headers refl

-- A line is kept exactly if it names no proxy header.
IsKept-names_none : (line : Bytes) → IsKept line → ¬ NamesProxy line
unfolding should_remove_line
IsKept-names_none line kept named =
    absurd (cc (kept, named-names_header proxy_headers line proxy_headers-IsPlain named))

names_none-IsKept : (line : Bytes) → ¬ NamesProxy line → IsKept line
unfolding should_remove_line
names_none-IsKept line other = elim (Bool-cases (should_remove_line line)) [
  | inl e ↦ absurd (other (names_header-named proxy_headers line proxy_headers-IsPlain e))
  | inr e ↦ e
]

All-map :
    {A : Type 0} (P Q : A → Type 0) → ((a : A) → P a → Q a) → (xs : List A) → All P xs → All Q xs
All-map P Q f [] h = tt
All-map P Q f (x ∷ xs) h = (f x h.0, All-map P Q f xs h.1)

pub lines_name_none : (ls : List Bytes) → All IsKept ls → All (λ line. ¬ NamesProxy line) ls
lines_name_none ls kept = All-map IsKept (λ line. ¬ NamesProxy line) IsKept-names_none ls kept

-- No line of a scrubbed header starts, in any case of its letters, with the name of one of the seven
-- proxy headers and a colon, whatever the client sent.
pub scrub_removes_proxies :
    (h : Bytes) → All (λ line. ¬ NamesProxy line) (split_lines (scrub_proxy_headers h))
scrub_removes_proxies h = lines_name_none _ (scrub-IsKept h)

-- A header none of whose lines starts so is forwarded byte for byte.
pub scrub_keeps_others :
    (h : Bytes) → All (λ line. ¬ NamesProxy line) (split_lines h) → scrub_proxy_headers h ≡ h
scrub_keeps_others h others =
    scrub_clean h (All-map (λ line. ¬ NamesProxy line) IsKept names_none-IsKept _ others)
