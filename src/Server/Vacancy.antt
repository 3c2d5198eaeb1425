-- ===== src/Server/Vacancy.antt =====
-- A provider that is out of its endpoint in the registry of internal/broker/endpoint.go stays out, whatever
-- other sessions call.
use http_broker.Base.{
  ◌≡◌, ◌≢◌, refl, sym, ap, subst, ◌∙◌, inl, inr, Bool, true, false, not, ◌&&◌, Option, none, some,
  Bytes, bytes_eq, bytes_eq_iff, bytes_eq_refl, Bool-cases, Option-cases, arith, lookup,
}
use http_broker.Registry.Defs.{BrokerSession, Endpoint, Registry}
use http_broker.Registry.Ops.{provider, owned_by_other}
use http_broker.Registry.View.{view}
use http_broker.Registry.System.{System, AreConsistent}
use http_broker.Registry.Waiters.{
  Call, set_provider_call, add_consumer_call, remove_provider_call, forget_call, register_call,
  unregister_call, wait_begin_call, wait_end_call, step,
}
use http_broker.Registry.Flatten.{flatten}
use http_broker.Registry.Abstraction.{abstraction, lookup-flatten-some, lookup-flatten-none}
use http_broker.Registry.Refines.{step-promise}
use http_broker.Registry.Debts.{Owed, owe, AreOwed}
use http_broker.Registry.Clearing.{promise-AreOwed}
use http_broker.Server.Stopping.{holds}

-- A call that does not register a session as a provider.
abbrev pub IsForeign : BrokerSession → Call → Type 0
IsForeign b (set_provider_call n p ys) = p.id ≢ b.id
IsForeign b (add_consumer_call n c) = Unit
IsForeign b (remove_provider_call n id) = Unit
IsForeign b (forget_call id role n) = Unit
IsForeign b (register_call n id ys) = Unit
IsForeign b (unregister_call n id) = Unit
IsForeign b (wait_begin_call n) = Unit
IsForeign b (wait_end_call i) = Unit

-- Everything but one provider.
all_but : BrokerSession → Owed
all_but b = record {
  provider = λ n id. not (bytes_eq b.endpoint n && bytes_eq b.id id);
  consumer = λ n id. true;
  yamux = λ n id. true;
}

owe-all_but :
    (b : BrokerSession) (c : Call)
    → IsForeign b c
    → (owe (all_but b) c).provider b.endpoint b.id ≡ false
unfolding owe all_but
owe-all_but b (set_provider_call n p ys) other =
    ground (arith, bytes_eq_refl b.endpoint, bytes_eq_refl b.id, bytes_eq_iff p.id b.id, other)
owe-all_but b (add_consumer_call n c) other =
    ground (arith, bytes_eq_refl b.endpoint, bytes_eq_refl b.id)
owe-all_but b (remove_provider_call n id) other =
    ground (arith, bytes_eq_refl b.endpoint, bytes_eq_refl b.id)
owe-all_but b (forget_call id role n) other =
    ground (arith, bytes_eq_refl b.endpoint, bytes_eq_refl b.id)
owe-all_but b (register_call n id ys) other =
    ground (arith, bytes_eq_refl b.endpoint, bytes_eq_refl b.id)
owe-all_but b (unregister_call n id) other =
    ground (arith, bytes_eq_refl b.endpoint, bytes_eq_refl b.id)
owe-all_but b (wait_begin_call n) other =
    ground (arith, bytes_eq_refl b.endpoint, bytes_eq_refl b.id)
owe-all_but b (wait_end_call i) other = ground (arith, bytes_eq_refl b.endpoint, bytes_eq_refl b.id)

lookup-flatten : (r : Registry) (n : Bytes) → lookup n (flatten r) ≡ view r n
unfolding view
lookup-flatten r n = elim (Option-cases (lookup n r.endpoints)) [
  | inl e ↦ ground (arith, e, lookup-flatten-none r n e)
  | inr (p, e) ↦ ground (arith, e, lookup-flatten-some r n p e)
]

-- An endpoint holds a provider exactly if its provider has the id.
holds-provider :
    (b c : BrokerSession) (ep : Endpoint)
    → b.role ≡ provider
    → ep.provider_session ≡ some c
    → holds b (some ep) ≡ bytes_eq c.id b.id
unfolding owned_by_other
holds-provider b c ep role e = ground (arith, role, e, bytes_eq_refl provider)

holds-nobody :
    (b : BrokerSession) (ep : Endpoint)
    → b.role ≡ provider
    → ep.provider_session ≡ none
    → holds b (some ep) ≡ false
holds-nobody b ep role e = ground (arith, role, e, bytes_eq_refl provider)

out-AreOwed :
    (b : BrokerSession) (r : Registry)
    → b.role ≡ provider
    → holds b (view r b.endpoint) ≡ false
    → AreOwed (all_but b) (flatten r)
unfolding all_but
out-AreOwed b r role out n ep e = record {
  of_provider = λ c k. elim (Bool-cases (bytes_eq b.endpoint n && bytes_eq b.id c.id)) [
    | inr f ↦ ground (arith, f)
    | inl f ↦
        let here : view r b.endpoint ≡ some ep =
          ap (view r) ((bytes_eq_iff b.endpoint n).0 (ground (arith, f)))
          ∙ sym (lookup-flatten r n)
          ∙ e in
        let same : b.id ≡ c.id = (bytes_eq_iff b.id c.id).0 (ground (arith, f)) in
        let held : holds b (some ep) ≡ true =
          holds-provider b c ep role k ∙ (bytes_eq_iff c.id b.id).1 (sym same) in
        absurd (cc (ap (holds b) (sym here) ∙ out, held))
  ];
  of_consumer = λ id c k. refl;
  of_yamux = λ id ys k. refl;
}

AreOwed-out :
    (b : BrokerSession) (o : Owed) (r : Registry)
    → b.role ≡ provider
    → o.provider b.endpoint b.id ≡ false
    → AreOwed o (flatten r)
    → holds b (view r b.endpoint) ≡ false
AreOwed-out b o r role free h = go (view r b.endpoint) refl
  where
    go : (seen : Option Endpoint) → view r b.endpoint ≡ seen → holds b seen ≡ false
    go none e = refl
    go (some ep) e = elim (Option-cases ep.provider_session) [
      | inl k ↦ holds-nobody b ep role k
      | inr (c, k) ↦ holds-provider b c ep role k ∙ elim (Bool-cases (bytes_eq c.id b.id)) [
        | inr f ↦ f
        | inl f ↦
            let owed = (h b.endpoint ep (lookup-flatten r b.endpoint ∙ e)).of_provider c k in
            let same : c.id ≡ b.id = (bytes_eq_iff c.id b.id).0 f in
            absurd (cc (sym (ap (o.provider b.endpoint) same) ∙ owed, free))
      ]
    ]

-- A provider that is out stays out under a call that does not register it.
pub step_out :
    (resumable : BrokerSession → Bool) (b : BrokerSession) (s : System) (c : Call)
    → b.role ≡ provider
    → AreConsistent s
    → IsForeign b c
    → holds b (view s.registry b.endpoint) ≡ false
    → holds b (view (step resumable s c).registry b.endpoint) ≡ false
step_out resumable b s c role v other out =
    AreOwed-out b (owe (all_but b) c) (step resumable s c).registry role (owe-all_but b c other) (
      subst (λ u. AreOwed (owe (all_but b) c) u.0.directory) (step-promise resumable s c v)
        (promise-AreOwed resumable (all_but b) (abstraction s) c
          (out-AreOwed b s.registry role out)))
