-- ===== src/Registry/Modify.antt =====
-- One change to one endpoint of internal/broker/endpoint.go while streams wait for providers: the step
-- that the operations of the registry have in common.
use http_broker.Base.{
  ℕ, suc, ◌<◌, ◌≡◌, refl, sym, ◌∙◌, ◌≢◌, inl, inr, true, false, ◌&&◌, none, some, List, [], ◌∷◌,
  Bytes, bytes_eq, bytes_eq_iff, if◌then◌else◌, ◌==◌, Bool-cases, arith, length, lookup,
  lookup-delete, lookup-insert, All,
}
use http_broker.Registry.Defs.{
  Endpoint, Registry, max_endpoints, store, is_unused, points_to, delete_if_empty,
}
use http_broker.Registry.Soundness.{
  IsSound, created, created-IsSound, store-IsSound, delete_if_empty-IsSound,
}
use http_broker.Registry.View.{view, view_tidied, view-created, lookup-injective, lookup-created}

-- The streams in `WaitForProvider`, each with the name that it asked for and the endpoint it holds.
abbrev pub Waiting : Type 0
Waiting = List (Bytes × ℕ)

unfoldable pub count : Bytes → Waiting → ℕ
count n [] = 0
count n ((m, p) ∷ ws) = if bytes_eq m n then suc (count n ws) else count n ws

-- Every stream waits on the endpoint that its name leads to.
abbrev pub AreHeld : Registry → Waiting → Type 0
AreHeld r = All (λ w. lookup w.0 r.endpoints ≡ some w.1)

abbrev pub AreCounted : Registry → Waiting → Type 0
AreCounted r ws =
    (n : Bytes) (p : ℕ) → lookup n r.endpoints ≡ some p → (r.heap p).waiters ≡ count n ws

-- No endpoint is kept that nobody uses.
abbrev pub AreInUse : Registry → Type 0
AreInUse r = (n : Bytes) (ep : Endpoint) → view r n ≡ some ep → is_unused ep ≡ false

pub record IsConsistent (r : Registry) (ws : Waiting) : Type 0 where
  pub sound : IsSound r
  pub held : AreHeld r ws
  pub counted : AreCounted r ws
  pub in_use : AreInUse r

abbrev pub tidied : Registry → Bytes → ℕ → Endpoint → Registry
tidied r n p ep = delete_if_empty (store r p ep) n p

pub heap-tidied :
    (r : Registry) (n : Bytes) (p : ℕ) (ep : Endpoint) (q : ℕ)
    → (tidied r n p ep).heap q ≡ (if p == q then ep else r.heap q)
unfolding delete_if_empty
heap-tidied r n p ep q = ground arith

pub lookup-tidied :
    (r : Registry) (n m : Bytes) (p : ℕ) (ep : Endpoint)
    → lookup n r.endpoints ≡ some p
    → lookup m (tidied r n p ep).endpoints
      ≡ (if bytes_eq n m && is_unused ep then none else lookup m r.endpoints)
unfolding delete_if_empty points_to
lookup-tidied r n m p ep e = ground (arith, lookup-delete n m r.endpoints, bytes_eq_iff n m)

pub unused-waiters : (ep : Endpoint) → is_unused ep ≡ true → ep.waiters ≡ 0
unfolding is_unused
unused-waiters ep h = ground arith

module _ (r : Registry) (n : Bytes) (p : ℕ) (ep : Endpoint) (ws : Waiting) (sound : IsSound r)
    (e : lookup n r.endpoints ≡ some p) (same : ep.name ≡ (r.heap p).name)
    (counts : ep.waiters ≡ count n ws) where
  held-tidied :
      (vs : Waiting)
      → (is_unused ep ≡ true → count n vs ≡ 0)
      → AreHeld r vs
      → AreHeld (tidied r n p ep) vs
  unfolding count
  held-tidied [] u h = tt
  held-tidied ((m, q) ∷ vs) u h = (
    ground (arith, u, lookup-tidied r n m p ep e, bytes_eq_iff n m, bytes_eq_iff m n),
    held-tidied vs (λ k. ground (arith, u k)) h.1,
  )

  pub tidied-IsConsistent :
      AreHeld r ws
      → ((m : Bytes) (q : ℕ)
          → n ≢ m
          → lookup m r.endpoints ≡ some q
          → (r.heap q).waiters ≡ count m ws)
      → ((m : Bytes) (ep : Endpoint) → n ≢ m → view r m ≡ some ep → is_unused ep ≡ false)
      → IsConsistent (tidied r n p ep) ws
  tidied-IsConsistent held others in_use = record {
    sound = delete_if_empty-IsSound (store r p ep) n p (store-IsSound r p ep sound same);
    held = held-tidied ws (λ u. sym counts ∙ unused-waiters ep u) held;
    counted = λ m q f. elim (Bool-cases (bytes_eq n m)) [
      | inl b ↦
          ground (arith, b, heap-tidied r n p ep q, lookup-tidied r n m p ep e, bytes_eq_iff n m)
      | inr b ↦
          let apart : n ≢ m = λ k. cc ((bytes_eq_iff n m).1 k) in
          ground (
            arith,
            b,
            heap-tidied r n p ep q,
            lookup-tidied r n m p ep e,
            others m q apart,
            lookup-injective r n m p sound e,
            apart,
          )
    ];
    in_use = λ m ep' f. elim (Bool-cases (bytes_eq n m)) [
      | inl b ↦ ground (arith, b, view_tidied r n m p ep sound e)
      | inr b ↦
          let apart : n ≢ m = λ k. cc ((bytes_eq_iff n m).1 k) in
          ground (arith, b, view_tidied r n m p ep sound e, in_use m ep' apart)
    ];
  }

-- An endpoint that stays in use is not tidied away.
pub tidied_in_use :
    (r : Registry) (n : Bytes) (p : ℕ) (ep : Endpoint)
    → is_unused ep ≡ false
    → tidied r n p ep ≡ store r p ep
unfolding delete_if_empty
tidied_in_use r n p ep h = ground arith

-- The state between the creation of an endpoint and its first use.
pub count_absent :
    (r : Registry) (n : Bytes) (ws : Waiting)
    → lookup n r.endpoints ≡ none
    → AreHeld r ws
    → count n ws ≡ 0
unfolding count
count_absent r n [] e h = refl
count_absent r n ((m, q) ∷ ws) e h = ground (arith, bytes_eq_iff m n, count_absent r n ws e h.1)

pub held-created :
    (r : Registry) (n : Bytes) (ws : Waiting)
    → lookup n r.endpoints ≡ none
    → AreHeld r ws
    → AreHeld (created r n) ws
unfolding created
held-created r n [] e h = tt
held-created r n ((m, q) ∷ ws) e h = (
  ground (arith, lookup-insert n m r.next r.endpoints, bytes_eq_iff n m),
  held-created r n ws e h.1,
)

-- A change to an endpoint that was there.
pub changed-IsConsistent :
    (r : Registry) (n : Bytes) (p : ℕ) (ep : Endpoint) (ws : Waiting)
    → IsConsistent r ws
    → lookup n r.endpoints ≡ some p
    → ep.name ≡ (r.heap p).name
    → ep.waiters ≡ (r.heap p).waiters
    → IsConsistent (tidied r n p ep) ws
changed-IsConsistent r n p ep ws v e same counts =
    tidied-IsConsistent r n p ep ws v.sound e same (counts ∙ v.counted n p e) v.held
      (λ m q k f. v.counted m q f) (λ m ep' k f. v.in_use m ep' f)

-- The first use of an endpoint that was not there.
pub created-IsConsistent :
    (r : Registry) (n : Bytes) (ep : Endpoint) (ws vs : Waiting)
    → IsConsistent r ws
    → lookup n r.endpoints ≡ none
    → length r.endpoints < max_endpoints
    → ep.name ≡ n
    → ep.waiters ≡ count n vs
    → AreHeld (created r n) vs
    → ((m : Bytes) → n ≢ m → count m vs ≡ count m ws)
    → IsConsistent (tidied (created r n) n r.next ep) vs
created-IsConsistent r n ep ws vs v e room same counts held others =
    tidied-IsConsistent (created r n) n r.next ep vs (created-IsSound r n e room v.sound)
      (lookup-created r n) (unfold created in ground arith) counts held
      (λ m q k f.
        unfold created in
        ground (
          arith,
          lookup-insert n m r.next r.endpoints,
          bytes_eq_iff n m,
          k,
          v.counted m q,
          v.sound.allocated m q,
          others m k,
        ))
      (λ m ep' k f. ground (arith, view-created r n m v.sound, bytes_eq_iff n m, k, v.in_use m ep'))
