-- ===== src/Registry/Waiters.antt =====
-- `WaitForProvider` of internal/broker/endpoint.go among the other calls of the registry: runs of calls
-- in any order, with any number of streams waiting.
use http_broker.Base.{
  ℕ, zero, suc, ◌+◌, ◌-◌, ◌≡◌, refl, sym, subst, ◌∙◌, ◌≢◌, inl, inr, Bool, false, Option, none,
  some, List, [], ◌∷◌, Bytes, bytes_eq_iff, bytes_eq_refl, Option-cases, arith, lookup,
}
use http_broker.Registry.Defs.{
  BrokerSession, Endpoint, Registry, new_endpoint, new_endpoint_registry, is_unused, get_or_create,
}
use http_broker.Registry.Ops.{
  set_provider, add_consumer, remove_provider, forget, register_consumer_yamux,
  unregister_consumer_yamux, WaitStart, refused, waits_on, wait_begin, wait_end, wait_check, ok,
}
use http_broker.Registry.Soundness.{created}
use http_broker.Registry.View.{view, got, full, made, get_or_create-GotOrMade, lookup-created}
use http_broker.Registry.Modify.{
  Waiting, count, AreHeld, IsConsistent, tidied-IsConsistent, tidied_in_use, count_absent,
  held-created, created-IsConsistent,
}
use http_broker.Registry.System.{
  System, AreConsistent, heap_created, set_provider-IsConsistent, add_consumer-IsConsistent,
  remove_provider-IsConsistent, forget-IsConsistent, register_consumer_yamux-IsConsistent,
  unregister_consumer_yamux-IsConsistent,
}

-- The stream that goes on to wait is noted.
abbrev pub noted : Waiting → Bytes → Registry × WaitStart → System
noted ws n (r, refused) = record { registry = r; waiting = ws }
noted ws n (r, waits_on p) = record { registry = r; waiting = (n, p) ∷ ws }

-- The i-th waiting stream and the others.
unfoldable pub pick : ℕ → Waiting → Option ((Bytes × ℕ) × Waiting)
pick i [] = none
pick zero (w ∷ ws) = some (w, ws)
pick (suc i) (w ∷ ws) = elim (pick i ws) [ none ↦ none | some (v, vs) ↦ some (v, w ∷ vs) ]

-- The calls that the broker makes. GetOrCreate is exported too, but only tests call it on its own: the
-- broker gets an endpoint inside the other methods, and then uses it under the same locks.
pub data Call : Type 0 where
  set_provider_call : Bytes → BrokerSession → ℕ → Call
  add_consumer_call : Bytes → BrokerSession → Call
  remove_provider_call : Bytes → Bytes → Call
  forget_call : Bytes → Bytes → Bytes → Call
  register_call : Bytes → Bytes → ℕ → Call
  unregister_call : Bytes → Bytes → Call
  wait_begin_call : Bytes → Call
  wait_end_call : ℕ → Call

module _ (resumable : BrokerSession → Bool) where
  unfoldable pub step : System → Call → System
  step s (set_provider_call n b ys) = record s {
    registry = (set_provider resumable s.registry n b ys).registry;
  }
  step s (add_consumer_call n b) = record s {
    registry = (add_consumer resumable s.registry n b).registry;
  }
  step s (remove_provider_call n id) = record s { registry = (remove_provider s.registry n id).0 }
  step s (forget_call id role n) = record s { registry = forget s.registry id role n }
  step s (register_call n id ys) = record s {
    registry = register_consumer_yamux s.registry n id ys;
  }
  step s (unregister_call n id) = record s { registry = unregister_consumer_yamux s.registry n id }
  step s (wait_begin_call n) = noted s.waiting n (wait_begin s.registry n)
  step s (wait_end_call i) = elim (pick i s.waiting) [
    | none ↦ s
    | some ((n, p), ws) ↦ record { registry = wait_end s.registry n p; waiting = ws }
  ]

  unfoldable pub run : System → List Call → System
  run s [] = s
  run s (c ∷ cs) = run (step s c) cs

count_other : (n m : Bytes) (p : ℕ) (ws : Waiting) → n ≢ m → count m ((n, p) ∷ ws) ≡ count m ws
unfolding count
count_other n m p ws k = ground (arith, bytes_eq_iff n m)

count_self : (n : Bytes) (p : ℕ) (ws : Waiting) → count n ((n, p) ∷ ws) ≡ suc (count n ws)
unfolding count
count_self n p ws = ground (arith, bytes_eq_refl n)

busy : (ep : Endpoint) → is_unused (record ep { waiters = ep.waiters + 1 }) ≡ false
unfolding is_unused
busy ep = ground arith

wait_begin-IsConsistent :
    (r : Registry) (ws : Waiting) (n : Bytes)
    → IsConsistent r ws
    → AreConsistent (noted ws n (wait_begin r n))
unfolding wait_begin
wait_begin-IsConsistent r ws n v = elim (get_or_create-GotOrMade r n) [
  | full e l g ↦ rw (g, wait_begin) v
  | got p e g ↦
      let ep = record (r.heap p) { waiters = (r.heap p).waiters + 1 } in
      rw (g, wait_begin)
        (subst (λ u. IsConsistent u ((n, p) ∷ ws)) (tidied_in_use r n p ep (busy (r.heap p)))
          (tidied-IsConsistent r n p ep ((n, p) ∷ ws) v.sound e refl
            (omega (arith, v.counted n p e, count_self n p ws)) (e, v.held)
            (λ m q k f. v.counted m q f ∙ sym (count_other n m p ws k))
            (λ m ep' k f. v.in_use m ep' f)))
  | made e l g ↦
      let ep = record (new_endpoint n) { waiters = 1 } in
      let vs = (n, r.next) ∷ ws in
      rw (g, heap_created r n, wait_begin)
        (subst (λ u. IsConsistent u vs)
          (tidied_in_use (created r n) n r.next ep (unfold is_unused in refl))
          (created-IsConsistent r n ep ws vs v e l refl
            (omega (arith, count_self n r.next ws, count_absent r n ws e v.held))
            (lookup-created r n, held-created r n ws e v.held)
            (λ m k. count_other n m r.next ws k)))
]

pub pick-AreHeld :
    (r : Registry) (i : ℕ) (ws : Waiting) (n : Bytes) (p : ℕ) (vs : Waiting)
    → pick i ws ≡ some ((n, p), vs)
    → AreHeld r ws
    → (lookup n r.endpoints ≡ some p) × AreHeld r vs
unfolding pick
pick-AreHeld r i [] n p vs e h = absurd (cc)
pick-AreHeld r zero (w ∷ ws) n p vs e h = (ground arith, subst (AreHeld r) (ground arith) h.1)
pick-AreHeld r (suc i) (w ∷ ws) n p vs e h = elim (Option-cases (pick i ws)) [
  | inl f ↦ absurd (ground arith)
  | inr (((m, q), us), f) ↦
      let (l, held) = pick-AreHeld r i ws m q us f h.1 in
      let path : w ∷ us ≡ vs = ground arith in (cc (l, f, e), subst (AreHeld r) path (h.0, held))
]

pick-count :
    (m : Bytes) (i : ℕ) (ws : Waiting) (n : Bytes) (p : ℕ) (vs : Waiting)
    → pick i ws ≡ some ((n, p), vs)
    → count m ws ≡ count m ((n, p) ∷ vs)
unfolding pick count
pick-count m i [] n p vs e = absurd (cc)
pick-count m zero (w ∷ ws) n p vs e = ground arith
pick-count m (suc i) (w ∷ ws) n p vs e = elim (Option-cases (pick i ws)) [
  | inl f ↦ absurd (ground arith)
  | inr (((m', q), us), f) ↦ ground (arith, pick-count m i ws m' q us f)
]

wait_end-IsConsistent :
    (r : Registry) (ws : Waiting) (i : ℕ) (n : Bytes) (p : ℕ) (vs : Waiting)
    → pick i ws ≡ some ((n, p), vs)
    → IsConsistent r ws
    → IsConsistent (wait_end r n p) vs
unfolding wait_end
wait_end-IsConsistent r ws i n p vs e v =
    let (l, held) = pick-AreHeld r i ws n p vs e v.held in
    tidied-IsConsistent r n p (record (r.heap p) { waiters = (r.heap p).waiters - 1 }) vs v.sound l
      refl (omega (arith, v.counted n p l, pick-count n i ws n p vs e, count_self n p vs)) held
      (λ m q k f. v.counted m q f ∙ pick-count m i ws n p vs e ∙ count_other n m p vs k)
      (λ m ep k f. v.in_use m ep f)

abbrev pub started : System
started = record { registry = new_endpoint_registry; waiting = [] }

pub started-AreConsistent : AreConsistent started
unfolding new_endpoint_registry lookup view count
started-AreConsistent = record {
  sound = record {
    distinct = tt;
    bounded = omega arith;
    allocated = λ n p e. absurd (cc);
    named = λ n p e. absurd (cc);
  };
  held = tt;
  counted = λ n p e. absurd (cc);
  in_use = λ n ep e. absurd (cc);
}

module _ (resumable : BrokerSession → Bool) where
  -- Every call keeps the registry consistent.
  pub step-AreConsistent :
      (s : System) (c : Call) → AreConsistent s → AreConsistent (step resumable s c)
  unfolding step
  step-AreConsistent s (set_provider_call n b ys) v =
      set_provider-IsConsistent resumable s.registry s.waiting n b ys v
  step-AreConsistent s (add_consumer_call n b) v =
      add_consumer-IsConsistent resumable s.registry s.waiting n b v
  step-AreConsistent s (remove_provider_call n id) v =
      remove_provider-IsConsistent s.registry s.waiting n id v
  step-AreConsistent s (forget_call id role n) v =
      forget-IsConsistent s.registry s.waiting id role n v
  step-AreConsistent s (register_call n id ys) v =
      register_consumer_yamux-IsConsistent s.registry s.waiting n id ys v
  step-AreConsistent s (unregister_call n id) v =
      unregister_consumer_yamux-IsConsistent s.registry s.waiting n id v
  step-AreConsistent s (wait_begin_call n) v = wait_begin-IsConsistent s.registry s.waiting n v
  step-AreConsistent s (wait_end_call i) v = elim (Option-cases (pick i s.waiting)) [
    | inl e ↦ rw (e, step) v
    | inr (((n, p), ws), e) ↦ rw (e, step) (wait_end-IsConsistent s.registry s.waiting i n p ws e v)
  ]

  pub run-AreConsistent :
      (s : System) (cs : List Call) → AreConsistent s → AreConsistent (run resumable s cs)
  unfolding run
  run-AreConsistent s [] v = v
  run-AreConsistent s (c ∷ cs) v =
      run-AreConsistent (step resumable s c) cs (step-AreConsistent s c v)

  -- After any calls on a new registry, in any order and with any number of waiting streams, whatever
  -- `Resumable` answers: the table holds 1024 endpoints at most, each name once and leading to an
  -- endpoint of that name; each endpoint is used by a provider, a consumer or a waiting stream; its
  -- `waiters` are as many as the streams that wait for its name; and each of these holds the very
  -- endpoint that its name leads to.
  pub run-started-AreConsistent : (cs : List Call) → AreConsistent (run resumable started cs)
  run-started-AreConsistent cs = run-AreConsistent started cs started-AreConsistent

  -- In a consistent system, once a provider is registered under a name, every stream that waits for
  -- that name finds the provider's yamux session at its next look, if its own session has not ended.
  pub waiter_sees_provider :
      (s : System) (i : ℕ) (n : Bytes) (p : ℕ) (ws : Waiting) (b : BrokerSession) (ys : ℕ)
      (peers : List BrokerSession)
      → AreConsistent s
      → pick i s.waiting ≡ some ((n, p), ws)
      → (set_provider resumable s.registry n b ys).result ≡ ok peers
      → wait_check (set_provider resumable s.registry n b ys).registry p false ≡ some (some ys)
  unfolding set_provider wait_check
  waiter_sees_provider s i n p ws b ys peers v e h =
      let (l, held) = pick-AreHeld s.registry i s.waiting n p ws e v.held in
      unfold get_or_create in ground (arith, l)
