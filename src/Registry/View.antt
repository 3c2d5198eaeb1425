-- ===== src/Registry/View.antt =====
-- The registry of internal/broker/endpoint.go seen as a map from names to endpoints, without addresses.
use http_broker.Base.{
  ℕ, ◌≤◌, ◌<◌, ◌≡◌, sym, ◌∙◌, inl, inr, false, Option, none, some, Bytes, bytes_eq, bytes_eq_iff,
  bytes_eq_refl, if◌then◌else◌, leb, Bool-cases, Option-cases, arith, length, lookup, lookup-insert,
  lookup-delete,
}
use http_broker.Registry.Defs.{
  Endpoint, Registry, max_endpoints, new_endpoint, store, get_or_create, is_unused, points_to,
  delete_if_empty,
}
use http_broker.Registry.Soundness.{IsSound, IsValid, created}

unfoldable pub view : Registry → Bytes → Option Endpoint
view r n = elim (lookup n r.endpoints) [ none ↦ none | some p ↦ some (r.heap p) ]

-- Two names do not share an endpoint.
pub lookup-injective :
    (r : Registry) (n m : Bytes) (p : ℕ)
    → IsSound r
    → lookup n r.endpoints ≡ some p
    → lookup m r.endpoints ≡ some p
    → n ≡ m
lookup-injective r n m p v e f = sym (v.named n p e) ∙ v.named m p f

pub view-store :
    (r : Registry) (n m : Bytes) (p : ℕ) (ep : Endpoint)
    → IsSound r
    → lookup n r.endpoints ≡ some p
    → view (store r p ep) m ≡ (if bytes_eq n m then some ep else view r m)
unfolding view
view-store r n m p ep v e = elim (Option-cases (lookup m r.endpoints)) [
  | inl f ↦ ground (arith, bytes_eq_iff n m)
  | inr (q, f) ↦ ground (arith, bytes_eq_iff n m, lookup-injective r n m q v)
]

-- What is left of an endpoint that was tidied up.
abbrev pub unless_unused : Endpoint → Option Endpoint
unless_unused ep = if is_unused ep then none else some ep

pub view-delete_if_empty :
    (r : Registry) (n m : Bytes) (p : ℕ)
    → lookup n r.endpoints ≡ some p
    → view (delete_if_empty r n p) m ≡ (if bytes_eq n m then unless_unused (r.heap p) else view r m)
unfolding view delete_if_empty points_to
view-delete_if_empty r n m p e = elim (Option-cases (lookup m r.endpoints)) [
  | inl f ↦ ground (arith, bytes_eq_iff n m, lookup-delete n m r.endpoints)
  | inr (q, f) ↦ ground (arith, bytes_eq_iff n m, lookup-delete n m r.endpoints)
]

-- A change to an endpoint and the tidying behind it, as the operations make them.
pub view_tidied :
    (r : Registry) (n m : Bytes) (p : ℕ) (ep : Endpoint)
    → IsSound r
    → lookup n r.endpoints ≡ some p
    → view (delete_if_empty (store r p ep) n p) m
      ≡ (if bytes_eq n m then unless_unused ep else view r m)
view_tidied r n m p ep v e =
    ground (arith, view-delete_if_empty (store r p ep) n m p e, view-store r n m p ep v e)

-- The three ways of `GetOrCreate`.
pub data GotOrMade (r : Registry) (n : Bytes) : Type 0 where
  got : (p : ℕ) → lookup n r.endpoints ≡ some p → get_or_create r n ≡ some (r, p) → GotOrMade r n
  full :
      lookup n r.endpoints ≡ none
      → max_endpoints ≤ length r.endpoints
      → get_or_create r n ≡ none
      → GotOrMade r n
  made :
      lookup n r.endpoints ≡ none
      → length r.endpoints < max_endpoints
      → get_or_create r n ≡ some (created r n, r.next)
      → GotOrMade r n

pub get_or_create-GotOrMade : (r : Registry) (n : Bytes) → GotOrMade r n
get_or_create-GotOrMade r n = elim (Option-cases (lookup n r.endpoints)) [
  | inr (p, e) ↦ got p e (unfold get_or_create in ground arith)
  | inl e ↦ elim (Bool-cases (leb max_endpoints (length r.endpoints))) [
    | inl h ↦ full e (ground arith) (unfold get_or_create in ground arith)
    | inr h ↦ made e (ground arith) (unfold get_or_create created in ground arith)
  ]
]

pub lookup-created : (r : Registry) (n : Bytes) → lookup n (created r n).endpoints ≡ some r.next
unfolding created
lookup-created r n = ground (arith, lookup-insert n n r.next r.endpoints, bytes_eq_refl n)

pub view-created :
    (r : Registry) (n m : Bytes)
    → IsSound r
    → view (created r n) m ≡ (if bytes_eq n m then some (new_endpoint n) else view r m)
unfolding view created
view-created r n m v = elim (Option-cases (lookup m r.endpoints)) [
  | inl f ↦ ground (arith, lookup-insert n m r.next r.endpoints)
  | inr (q, f) ↦ ground (arith, lookup-insert n m r.next r.endpoints, v.allocated m q f)
]

-- Validity is a statement about the view.
pub IsValid-of_view :
    (r : Registry)
    → IsSound r
    → ((n : Bytes) (ep : Endpoint) → view r n ≡ some ep → is_unused ep ≡ false)
    → IsValid r
unfolding view
IsValid-of_view r v h = record { sound = v; in_use = λ n p e. h n (r.heap p) (ground arith) }

pub view_in_use :
    (r : Registry) (n : Bytes) (ep : Endpoint)
    → IsValid r
    → view r n ≡ some ep
    → is_unused ep ≡ false
unfolding view
view_in_use r n ep v e = elim (Option-cases (lookup n r.endpoints)) [
  | inl f ↦ absurd (ground arith)
  | inr (p, f) ↦ ground (arith, v.in_use n p f)
]
