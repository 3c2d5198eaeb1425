-- ===== src/Registry/Queries.antt =====
-- The methods of internal/broker/endpoint.go that only read, and what they say of the directory.
use http_broker.Base.{
  ℕ, ◌≡◌, sym, ap, inl, inr, Bool, false, not, Option, none, some, Bytes, if◌then◌else◌,
  Option-cases, arith, length, lookup,
}
use http_broker.Registry.Defs.{BrokerSession, Endpoint, Registry, is_nil}
use http_broker.Registry.Ops.{has_provider, consumer_count, get_provider_yamux, wait_check}
use http_broker.Registry.System.{System, AreConsistent}
use http_broker.Registry.Waiters.{pick, pick-AreHeld}
use http_broker.Registry.Spec.{Promise, provider_yamux_of, pick_name}
use http_broker.Registry.Abstraction.{abstraction, lookup-flatten-some, lookup-flatten-none}
use http_broker.Registry.Methods.{provider_yamux_of-lookup, pick-pick_name}

-- `GetEndpoint`.
unfoldable pub get_endpoint : Registry → Bytes → Option Endpoint
get_endpoint r name = elim (lookup name r.endpoints) [ none ↦ none | some p ↦ some (r.heap p) ]

-- `ProviderResumeDeadline`; `ResumeDeadline` is a method of pollmux.
unfoldable pub provider_resume_deadline : (BrokerSession → Option ℕ) → Registry → Bytes → Option ℕ
provider_resume_deadline resume_deadline r name = elim (lookup name r.endpoints) [
  | none ↦ none
  | some p ↦ elim (r.heap p).provider_session [ none ↦ none | some sess ↦ resume_deadline sess ]
]

-- A question of a caller; `looks_again` is a round of a waiting stream, whose own session may be done.
pub data Query : Type 0 where
  asks_endpoint asks_provider asks_count asks_yamux asks_deadline : Bytes → Query
  looks_again : ℕ → Bool → Query

pub data Told : Type 0 where
  endpoint : Option Endpoint → Told
  whether : Bool → Told
  number : ℕ → Told
  yamux deadline : Option ℕ → Told
  round : Option (Option ℕ) → Told
  no_stream : Told

module _ (resume_deadline : BrokerSession → Option ℕ) where
  -- What the registry answers.
  unfoldable pub ask : System → Query → Told
  ask s (asks_endpoint n) = endpoint (get_endpoint s.registry n)
  ask s (asks_provider n) = whether (has_provider s.registry n)
  ask s (asks_count n) = number (consumer_count s.registry n)
  ask s (asks_yamux n) = yamux (get_provider_yamux s.registry n)
  ask s (asks_deadline n) = deadline (provider_resume_deadline resume_deadline s.registry n)
  ask s (looks_again i done) = elim (pick i s.waiting) [
    | none ↦ no_stream
    | some ((n, p), ws) ↦ round (wait_check s.registry p done)
  ]

  abbrev pub told_deadline : Option Endpoint → Option ℕ
  told_deadline none = none
  told_deadline (some ep) = elim ep.provider_session [
    | none ↦ none
    | some sess ↦ resume_deadline sess
  ]

  -- What the directory answers.
  unfoldable pub tell : Promise → Query → Told
  tell s (asks_endpoint n) = endpoint (lookup n s.directory)
  tell s (asks_provider n) =
      whether
        (elim (lookup n s.directory) [ none ↦ false | some ep ↦ not (is_nil ep.provider_session) ])
  tell s (asks_count n) =
      number
        (elim (lookup n s.directory) [ none ↦ 0 | some ep ↦ length ep.consumer_yamux_sessions ])
  tell s (asks_yamux n) = yamux (provider_yamux_of (lookup n s.directory))
  tell s (asks_deadline n) = deadline (told_deadline (lookup n s.directory))
  tell s (looks_again i done) = elim (pick_name i s.waiting) [
    | none ↦ no_stream
    | some (n, ns) ↦ round (
        if done then some none else elim (provider_yamux_of (lookup n s.directory)) [
          | none ↦ none
          | some ys ↦ some (some ys)
        ])
  ]

  look-tell :
      (s : System) (i : ℕ) (done : Bool)
      → AreConsistent s
      → ask s (looks_again i done) ≡ tell (abstraction s) (looks_again i done)
  unfolding ask tell wait_check provider_yamux_of
  look-tell s i done v = elim (Option-cases (pick i s.waiting)) [
    | inl e ↦ ground (arith, e, pick-pick_name i s.waiting)
    | inr (((n, p), ws), e) ↦
        let l = (pick-AreHeld s.registry i s.waiting n p ws e v.held).0 in
        ground (arith, e, pick-pick_name i s.waiting, lookup-flatten-some s.registry n p l)
  ]

  -- In a consistent system every question of a caller, a waiting stream's look at its provider included,
  -- is answered as the directory of Registry/Spec answers it.
  pub ask-tell : (s : System) (q : Query) → AreConsistent s → ask s q ≡ tell (abstraction s) q
  unfolding ask tell get_endpoint has_provider consumer_count provider_resume_deadline
  ask-tell s (asks_endpoint n) v = elim (Option-cases (lookup n s.registry.endpoints)) [
    | inl e ↦ ground (arith, e, lookup-flatten-none s.registry n e)
    | inr (p, e) ↦ ground (arith, e, lookup-flatten-some s.registry n p e)
  ]
  ask-tell s (asks_provider n) v = elim (Option-cases (lookup n s.registry.endpoints)) [
    | inl e ↦ ground (arith, e, lookup-flatten-none s.registry n e)
    | inr (p, e) ↦ ground (arith, e, lookup-flatten-some s.registry n p e)
  ]
  ask-tell s (asks_count n) v = elim (Option-cases (lookup n s.registry.endpoints)) [
    | inl e ↦ ground (arith, e, lookup-flatten-none s.registry n e)
    | inr (p, e) ↦ ground (arith, e, lookup-flatten-some s.registry n p e)
  ]
  ask-tell s (asks_yamux n) v = ap yamux (sym (provider_yamux_of-lookup s.registry n))
  ask-tell s (asks_deadline n) v = elim (Option-cases (lookup n s.registry.endpoints)) [
    | inl e ↦ ground (arith, e, lookup-flatten-none s.registry n e)
    | inr (p, e) ↦ ground (arith, e, lookup-flatten-some s.registry n p e)
  ]
  ask-tell s (looks_again i done) v = look-tell s i done v
