-- ===== src/Registry/Soundness.antt =====
-- What every operation of internal/broker/endpoint.go keeps: the table is bounded, a name leads to the
-- endpoint of that name, and no endpoint stays that nobody uses.
use http_broker.Base.{
  ℕ, suc, ◌≤◌, ◌<◌, ◌≡◌, ◌⊎◌, inl, inr, false, Option, none, some, Bytes, bytes_eq_iff, Bool-cases,
  arith, length, lookup, insert, delete, HasDistinctKeys, lookup-insert, lookup-delete,
  length-insert_new, length-delete-le, insert-HasDistinctKeys, delete-HasDistinctKeys,
}
use http_broker.Registry.Defs.{
  Endpoint, Registry, max_endpoints, new_endpoint, update, store, is_unused, points_to,
  delete_if_empty,
}

pub record IsSound (r : Registry) : Type 0 where
  pub distinct : HasDistinctKeys r.endpoints
  pub bounded : length r.endpoints ≤ max_endpoints
  pub allocated : (n : Bytes) (p : ℕ) → lookup n r.endpoints ≡ some p → p < r.next
  pub named : (n : Bytes) (p : ℕ) → lookup n r.endpoints ≡ some p → (r.heap p).name ≡ n

-- Every endpoint of the table but that at `except` is in use.
abbrev pub InUseBut : Option ℕ → Registry → Type 0
InUseBut except r =
    (n : Bytes) (p : ℕ)
    → lookup n r.endpoints ≡ some p
    → (except ≡ some p) ⊎ (is_unused (r.heap p) ≡ false)

pub record IsValid (r : Registry) : Type 0 where
  pub sound : IsSound r
  pub in_use : (n : Bytes) (p : ℕ) → lookup n r.endpoints ≡ some p → is_unused (r.heap p) ≡ false

pub store-IsSound :
    (r : Registry) (p : ℕ) (ep : Endpoint)
    → IsSound r
    → ep.name ≡ (r.heap p).name
    → IsSound (store r p ep)
store-IsSound r p ep v e = record {
  distinct = v.distinct;
  bounded = v.bounded;
  allocated = v.allocated;
  named = λ n q f. ground (arith, v.named n q f);
}

delete-IsSound :
    (r : Registry) (n : Bytes) → IsSound r → IsSound (record r { endpoints = delete n r.endpoints })
delete-IsSound r n v = record {
  distinct = delete-HasDistinctKeys n r.endpoints v.distinct;
  bounded = omega (arith, v.bounded, length-delete-le n r.endpoints);
  allocated = λ m q f. ground (arith, lookup-delete n m r.endpoints, v.allocated m q);
  named = λ m q f. ground (arith, lookup-delete n m r.endpoints, v.named m q);
}

pub delete_if_empty-IsSound :
    (r : Registry) (n : Bytes) (p : ℕ) → IsSound r → IsSound (delete_if_empty r n p)
unfolding delete_if_empty
delete_if_empty-IsSound r n p v = elim (Bool-cases (is_unused (r.heap p))) [
  | inl u ↦ elim (Bool-cases (points_to (lookup n r.endpoints) p)) [
    | inl t ↦ rw (u, t, delete_if_empty) (delete-IsSound r n v)
    | inr t ↦ rw (u, t, delete_if_empty) v
  ]
  | inr u ↦ rw (u, delete_if_empty) v
]

unfoldable pub created : Registry → Bytes → Registry
created r n = record {
  endpoints = insert n r.next r.endpoints;
  heap = update r.heap r.next (new_endpoint n);
  next = suc r.next;
}

pub created-IsSound :
    (r : Registry) (n : Bytes)
    → lookup n r.endpoints ≡ none
    → length r.endpoints < max_endpoints
    → IsSound r
    → IsSound (created r n)
unfolding created
created-IsSound r n new room v = record {
  distinct = insert-HasDistinctKeys n r.next r.endpoints v.distinct;
  bounded = omega (arith, length-insert_new n r.next r.endpoints new);
  allocated = λ m q f. ground (arith, lookup-insert n m r.next r.endpoints, v.allocated m q);
  named = λ m q f.
      ground (
        arith,
        lookup-insert n m r.next r.endpoints,
        bytes_eq_iff n m,
        v.named m q,
        v.allocated m q,
      );
}
