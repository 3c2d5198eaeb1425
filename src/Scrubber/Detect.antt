-- ===== src/Scrubber/Detect.antt =====
-- `looksLikeHTTPRequest` of internal/provider/scrubber.go and the search for a header's end, on a
-- text that grows.
use http_broker.Base.{
  ℕ, suc, ◌+◌, ◌≤◌, ◌≡◌, refl, ◌≢◌, Bool, true, false, ◌&&◌, some, List, [], ◌∷◌, ◌++◌, Bytes,
  bytes_eq, has_prefix, ◌==◌, Bool-cases, Option-cases, inl, inr, arith, length, All,
}
use http_broker.Scrubber.Text.{cr, index}
use http_broker.Scrubber.Headers.{http_methods, starts_method, starts_any, looks_like_http_request}
use http_broker.Scrubber.Conn.{header_end}

-- One of the two texts begins the other.
agrees : Bytes → Bytes → Bool
agrees [] m = true
agrees (c ∷ p) [] = true
agrees (c ∷ p) (d ∷ m) = c == d && agrees p m

starts_method-agrees : (p m : Bytes) → starts_method p m ≡ agrees p m
unfolding starts_method agrees bytes_eq has_prefix
starts_method-agrees [] [] = refl
starts_method-agrees [] (d ∷ m) = ground arith
starts_method-agrees (c ∷ p) [] = ground arith
starts_method-agrees (c ∷ p) (d ∷ m) = ground (arith, starts_method-agrees p m)

agrees_front : (p q m : Bytes) → agrees (p ++ q) m ≡ true → agrees p m ≡ true
unfolding agrees
agrees_front [] q m h = refl
agrees_front (c ∷ p) q [] h = refl
agrees_front (c ∷ p) q (d ∷ m) h = ground (arith, agrees_front p q m)

starts_any_front :
    (ms : List Bytes) (p q : Bytes) → starts_any ms (p ++ q) ≡ true → starts_any ms p ≡ true
unfolding starts_any
starts_any_front [] p q h = h
starts_any_front (m ∷ ms) p q h = ground (
  arith,
  starts_any_front ms p q,
  agrees_front p q m,
  starts_method-agrees p m,
  starts_method-agrees (p ++ q) m,
)

-- A text that starts no request starts none however it goes on.
pub looks_like_front :
    (p q : Bytes) → looks_like_http_request p ≡ false → looks_like_http_request (p ++ q) ≡ false
unfolding looks_like_http_request
looks_like_front p q h = elim (Bool-cases (starts_any http_methods (p ++ q))) [
  | inl e ↦ absurd (cc (starts_any_front http_methods p q e))
  | inr e ↦ e
]

abbrev LacksCr : Bytes → Type 0
LacksCr = All (λ c. c ≢ cr)

agrees_extend :
    (p q m : Bytes) {i : ℕ}
    → LacksCr m
    → index p header_end ≡ some i
    → agrees p m ≡ true
    → agrees (p ++ q) m ≡ true
unfolding agrees index has_prefix
agrees_extend [] q m l f h = absurd (cc)
agrees_extend (c ∷ p) q [] l f h = refl
agrees_extend (c ∷ p) q (d ∷ m) l f h = elim (Option-cases (index p header_end)) [
  | inl e ↦ absurd (ground arith)
  | inr (j, e) ↦ ground (arith, agrees_extend p q m l.1 e)
]

starts_any_extend :
    (ms : List Bytes) (p q : Bytes) {i : ℕ}
    → All LacksCr ms
    → index p header_end ≡ some i
    → starts_any ms p ≡ true
    → starts_any ms (p ++ q) ≡ true
unfolding starts_any
starts_any_extend [] p q l f h = h
starts_any_extend (m ∷ ms) p q l f h = ground (
  arith,
  starts_any_extend ms p q l.1 f,
  agrees_extend p q m l.0 f,
  starts_method-agrees p m,
  starts_method-agrees (p ++ q) m,
)

http_methods-LacksCr : All LacksCr http_methods
http_methods-LacksCr = omega arith

-- A text that holds a whole header has got past the method.
pub looks_like_extend :
    (p q : Bytes) {i : ℕ}
    → index p header_end ≡ some i
    → looks_like_http_request p ≡ true
    → looks_like_http_request (p ++ q) ≡ true
unfolding looks_like_http_request
looks_like_extend p q f h = starts_any_extend http_methods p q http_methods-LacksCr f h

has_prefix-append_long :
    (s q p : Bytes) → length p ≤ length s → has_prefix (s ++ q) p ≡ has_prefix s p
unfolding has_prefix
has_prefix-append_long s q [] h = refl
has_prefix-append_long [] q (d ∷ p) h = absurd (omega arith)
has_prefix-append_long (c ∷ s) q (d ∷ p) h =
    ground (arith, has_prefix-append_long s q p (omega arith))

has_prefix-length : (s p : Bytes) → has_prefix s p ≡ true → length p ≤ length s
unfolding has_prefix
has_prefix-length s [] h = omega arith
has_prefix-length [] (d ∷ p) h = absurd (cc)
has_prefix-length (c ∷ s) (d ∷ p) h = ground (arith, has_prefix-length s p)

index_here : (s sep : Bytes) → has_prefix s sep ≡ true → index s sep ≡ some 0
unfolding index
index_here [] sep h = rw h
index_here (c ∷ s) sep h = rw h

-- A text found behind the first byte is found in the rest.
index_later :
    (c : ℕ) (s sep : Bytes) {i : ℕ}
    → has_prefix (c ∷ s) sep ≡ false
    → index (c ∷ s) sep ≡ some i
    → (j : ℕ) × (index s sep ≡ some j) × (i ≡ suc j)
unfolding index
index_later c s sep h f = elim (Option-cases (index s sep)) [
  | inl e ↦ absurd (ground arith)
  | inr (j, e) ↦ (j, e, ground arith)
]

pub index-le : (s sep : Bytes) {i : ℕ} → index s sep ≡ some i → i + length sep ≤ length s
index-le [] sep {i} f = unfold index in ground (arith, has_prefix-length [] sep)
index-le (c ∷ s) sep {i} f = elim (Bool-cases (has_prefix (c ∷ s) sep)) [
  | inl e ↦ ground (arith, index_here (c ∷ s) sep e, has_prefix-length (c ∷ s) sep e)
  | inr e ↦ let (j, g, k) = index_later c s sep e f in omega (arith, index-le s sep {i = j} g)
]

pub index_extend : (s q sep : Bytes) {i : ℕ} → index s sep ≡ some i → index (s ++ q) sep ≡ some i
index_extend [] q [] f = unfold index has_prefix in cc (index_here q [] refl)
index_extend [] q (d ∷ sep) f = unfold index has_prefix in cc
index_extend (c ∷ s) q sep {i} f = elim (Bool-cases (has_prefix (c ∷ s) sep)) [
  | inl e ↦ ground (
    arith,
    index_here (c ∷ s) sep e,
    index_here (c ∷ s ++ q) sep,
    has_prefix-append_long (c ∷ s) q sep (has_prefix-length (c ∷ s) sep e),
  )
  | inr e ↦
      let (j, g, k) = index_later c s sep e f in
      later e (index_extend s q sep {i = j} g) k
        (has_prefix-append_long (c ∷ s) q sep (omega (arith, index-le s sep {i = j} g)))
]
  where
    later :
        {j : ℕ}
        → has_prefix (c ∷ s) sep ≡ false
        → index (s ++ q) sep ≡ some j
        → i ≡ suc j
        → has_prefix (c ∷ s ++ q) sep ≡ has_prefix (c ∷ s) sep
        → index (c ∷ s ++ q) sep ≡ some i
    later e g k l = unfold index in rw (l, e, g, k)
