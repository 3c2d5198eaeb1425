-- ===== src/Registry/Flatten.antt =====
-- The registry of internal/broker/endpoint.go without its addresses: its table as a directory.
use http_broker.Base.{
  ℕ, suc, ◌≡◌, ◌≢◌, refl, sym, ap, ◌∙◌, inl, inr, none, some, List, [], ◌∷◌, Bytes, bytes_eq,
  bytes_eq_iff, bytes_eq_refl, Bool-cases, arith, length, lookup, insert, delete, HasDistinctKeys,
}
use http_broker.Registry.Defs.{
  Endpoint, Registry, new_endpoint, update, store, is_unused, points_to, delete_if_empty,
}
use http_broker.Registry.Soundness.{IsSound, created}
use http_broker.Registry.Modify.{tidied}
use http_broker.Registry.Spec.{Directory, keep}

unfoldable pub entries : (ℕ → Endpoint) → List (Bytes × ℕ) → Directory
entries heap [] = []
entries heap ((n, p) ∷ m) = (n, heap p) ∷ entries heap m

abbrev pub flatten : Registry → Directory
flatten r = entries r.heap r.endpoints

pub length-entries :
    (heap : ℕ → Endpoint) (m : List (Bytes × ℕ)) → length (entries heap m) ≡ length m
unfolding entries
length-entries heap [] = refl
length-entries heap ((n, p) ∷ m) = ap suc (length-entries heap m)

pub lookup-entries :
    (n : Bytes) (heap : ℕ → Endpoint) (m : List (Bytes × ℕ))
    → lookup n (entries heap m) ≡ (elim (lookup n m) [ none ↦ none | some p ↦ some (heap p) ])
unfolding entries lookup
lookup-entries n heap [] = refl
lookup-entries n heap ((k, p) ∷ m) = elim (Bool-cases (bytes_eq k n)) [
  | inl e ↦ ground (arith, e)
  | inr e ↦ ground (arith, e, lookup-entries n heap m)
]

pub delete-entries :
    (n : Bytes) (heap : ℕ → Endpoint) (m : List (Bytes × ℕ))
    → entries heap (delete n m) ≡ delete n (entries heap m)
unfolding entries delete
delete-entries n heap [] = refl
delete-entries n heap ((k, p) ∷ m) = elim (Bool-cases (bytes_eq k n)) [
  | inl e ↦ ground (arith, e, delete-entries n heap m)
  | inr e ↦ ground (arith, e, delete-entries n heap m)
]

-- A write to an address that a table does not hold.
update_elsewhere :
    (heap : ℕ → Endpoint) (p : ℕ) (ep : Endpoint) (m : List (Bytes × ℕ))
    → HasDistinctKeys m
    → ((k : Bytes) → lookup k m ≢ some p)
    → entries (update heap p ep) m ≡ entries heap m
unfolding entries lookup
update_elsewhere heap p ep [] h away = refl
update_elsewhere heap p ep ((k, q) ∷ m) h away =
    let rest =
      update_elsewhere heap p ep m h.1 (λ j e. away j (ground (arith, bytes_eq_iff k j, h.0))) in
    ground (arith, rest, away k, bytes_eq_refl k)

-- A write to the address under a name, where no other name has it.
update_at :
    (heap : ℕ → Endpoint) (n : Bytes) (p : ℕ) (ep : Endpoint) (m : List (Bytes × ℕ))
    → HasDistinctKeys m
    → lookup n m ≡ some p
    → ((k : Bytes) → lookup k m ≡ some p → k ≡ n)
    → entries (update heap p ep) m ≡ insert n ep (entries heap m)
unfolding entries lookup insert
update_at heap n p ep [] h e only = absurd (cc)
update_at heap n p ep ((k, q) ∷ m) h e only = elim (Bool-cases (bytes_eq k n)) [
  | inl b ↦
      let same : k ≡ n = (bytes_eq_iff k n).0 b in
      let here : q ≡ p = ground (arith, e, b) in
      let away : (j : Bytes) → lookup j m ≢ some p =
        λ j f. cc (only j (ground (arith, f, here)), same, f, h.0) in
      ground (arith, b, same, here, update_elsewhere heap p ep m h.1 away)
  | inr b ↦
      let there : lookup n m ≡ some p = ground (arith, e, b) in
      let apart : q ≢ p =
        λ f. cc ((bytes_eq_iff k n).1 (only k (ground (arith, f, bytes_eq_refl k))), b) in
      ground (
        arith,
        b,
        apart,
        update_at heap n p ep m h.1 there
            (λ j f. only j (ground (arith, f, bytes_eq_iff k j, h.0))),
      )
]

pub flatten-store :
    (r : Registry) (n : Bytes) (p : ℕ) (ep : Endpoint)
    → IsSound r
    → lookup n r.endpoints ≡ some p
    → flatten (store r p ep) ≡ insert n ep (flatten r)
flatten-store r n p ep v e =
    update_at r.heap n p ep r.endpoints v.distinct e (λ k f. sym (v.named k p f) ∙ v.named n p e)

insert_at_end :
    (heap : ℕ → Endpoint) (n : Bytes) (p : ℕ) (m : List (Bytes × ℕ))
    → lookup n m ≡ none
    → entries heap (insert n p m) ≡ insert n (heap p) (entries heap m)
unfolding entries insert lookup
insert_at_end heap n p [] e = refl
insert_at_end heap n p ((k, q) ∷ m) e = ground (arith, insert_at_end heap n p m)

pub flatten-created :
    (r : Registry) (n : Bytes)
    → IsSound r
    → lookup n r.endpoints ≡ none
    → flatten (created r n) ≡ insert n (new_endpoint n) (flatten r)
unfolding created
flatten-created r n v e =
    insert_at_end (update r.heap r.next (new_endpoint n)) n r.next r.endpoints e
    ∙ ground (
      arith,
      update_elsewhere r.heap r.next (new_endpoint n) r.endpoints v.distinct
          (λ k f. absurd (omega (arith, v.allocated k r.next f))),
    )

delete-insert : (n : Bytes) (ep : Endpoint) (d : Directory) → delete n (insert n ep d) ≡ delete n d
unfolding delete insert
delete-insert n ep [] = ground (arith, bytes_eq_refl n)
delete-insert n ep ((k, f) ∷ d) = elim (Bool-cases (bytes_eq k n)) [
  | inl b ↦ ground (arith, b, bytes_eq_refl n)
  | inr b ↦ ground (arith, b, delete-insert n ep d)
]

-- A change of an endpoint and the tidying behind it.
pub flatten-tidied :
    (r : Registry) (n : Bytes) (p : ℕ) (ep : Endpoint)
    → IsSound r
    → lookup n r.endpoints ≡ some p
    → flatten (tidied r n p ep) ≡ keep n ep (flatten r)
unfolding delete_if_empty points_to keep
flatten-tidied r n p ep v e = elim (Bool-cases (is_unused ep)) [
  | inl u ↦ ground (
    arith,
    u,
    e,
    delete-entries n (update r.heap p ep) r.endpoints,
    flatten-store r n p ep v e,
    delete-insert n ep (flatten r),
  )
  | inr u ↦ ground (arith, u, flatten-store r n p ep v e)
]

insert-insert :
    (n : Bytes) (ep ep' : Endpoint) (d : Directory) → insert n ep (insert n ep' d) ≡ insert n ep d
unfolding insert
insert-insert n ep ep' [] = ground (arith, bytes_eq_refl n)
insert-insert n ep ep' ((k, f) ∷ d) = elim (Bool-cases (bytes_eq k n)) [
  | inl b ↦ ground (arith, b, bytes_eq_refl n)
  | inr b ↦ ground (arith, b, insert-insert n ep ep' d)
]

-- The first use of an endpoint that was made for it.
pub flatten-first_use :
    (r : Registry) (n : Bytes) (ep : Endpoint)
    → IsSound r
    → IsSound (created r n)
    → lookup n r.endpoints ≡ none
    → lookup n (created r n).endpoints ≡ some r.next
    → flatten (store (created r n) r.next ep) ≡ insert n ep (flatten r)
flatten-first_use r n ep v w e l =
    flatten-store (created r n) n r.next ep w l
    ∙ ap (insert n ep) (flatten-created r n v e)
    ∙ insert-insert n ep (new_endpoint n) (flatten r)
