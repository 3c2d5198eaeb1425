-- ===== src/Registry/Tests.antt =====
-- Runs of the registry on one endpoint.
use http_broker.Base.{
  arith, inr, All, ◌≤◌, ◌≡◌, refl, ◌⊎◌, Bool, true, false, none, some, List, [], ◌∷◌, Bytes, codes,
  bytes_eq, insert, if◌then◌else◌, length, lookup,
}
use http_broker.Registry.Defs.{
  BrokerSession, Endpoint, new_endpoint_registry, max_endpoints, get_or_create, is_nil,
  delete_if_empty, is_unused, points_to,
}
use http_broker.Registry.Ops.{
  provider, consumer, set_provider, half_resumable_peers, ok, err, wait_check, wait_begin, wait_end,
  register_consumer_yamux, add_consumer, mismatched, endpoint_limit, already_has_provider,
}
use http_broker.Registry.View.{view}
use http_broker.Registry.Provider.{current, set_provider_lem}
use http_broker.Registry.System.{System, AreConsistent}
use http_broker.Registry.Stays.{Spares, provider_stays}
use http_broker.Registry.Waiters.{
  forget_call, remove_provider_call, started, step, run, pick, wait_begin_call, set_provider_call,
  add_consumer_call, register_call, unregister_call, wait_end_call, Call, run-started-AreConsistent,
  waiter_sees_provider,
}
use http_broker.Registry.Spec.{promises}
use http_broker.Registry.Abstraction.{abstraction, answers}
use http_broker.Registry.Refines.{run-promises}
use http_broker.Registry.Modify.{count}
use http_broker.Registry.Debts.{owe, owes, none_owed}
use http_broker.Registry.Clearing.{settled_name_is_gone}
use http_broker.Registry.Register.{register_at, late_register}
use http_broker.Registry.Queries.{looks_again, ask, tell, ask-tell}

abbrev home : Bytes
home = codes "home"

abbrev session : BrokerSession
session = record { id = codes "s1"; role = provider; endpoint = home }

abbrev user : BrokerSession
user = record { id = codes "c1"; role = codes "consumer"; endpoint = home }

abbrev never : BrokerSession → Bool
never s = false

-- A stream waits, then a provider and a consumer come.
abbrev calls : List Call
calls =
    wait_begin_call home
    ∷ add_consumer_call home user
    ∷ register_call home (codes "c1") 7
    ∷ set_provider_call home session 5
    ∷ wait_end_call 0
    ∷ []

run-started-AreConsistent_example : AreConsistent (run never started calls)
run-started-AreConsistent_example = run-started-AreConsistent never calls

-- A stream waits for a provider that is not there.
abbrev waiting_call : List Call
waiting_call = wait_begin_call home ∷ []

abbrev waited : System
waited = run never started waiting_call

waited-pick : pick 0 waited.waiting ≡ some ((home, 0), [])
unfolding run step wait_begin get_or_create new_endpoint_registry pick lookup
waited-pick = refl

waited-set : (set_provider never waited.registry home session 5).result ≡ ok []
unfolding run step wait_begin get_or_create new_endpoint_registry lookup set_provider
    half_resumable_peers insert bytes_eq mismatched
waited-set = refl

waiter_sees_provider_example :
    wait_check (set_provider never waited.registry home session 5).registry 0 false ≡ some (some 5)
waiter_sees_provider_example =
    waiter_sees_provider never waited 0 home 0 [] session 5 []
      (run-started-AreConsistent never waiting_call) waited-pick waited-set

abbrev served : System
served = run never started calls

abbrev served_endpoint : Endpoint
served_endpoint = record {
  name = home;
  provider_session = some session;
  provider_yamux = some 5;
  consumer_sessions = (codes "c1", user) ∷ [];
  waiters = 0;
  consumer_yamux_sessions = (codes "c1", 7) ∷ [];
}

served-view : view served.registry home ≡ some served_endpoint
unfolding run step wait_begin get_or_create new_endpoint_registry lookup set_provider view pick
    wait_end delete_if_empty is_unused register_consumer_yamux add_consumer insert bytes_eq
served-view = refl

set_provider_lem_example :
    let reply = set_provider never served.registry home session 9 in
    let old = current (view served.registry home) home in
    let new = record old { provider_session = some session; provider_yamux = some 9 } in
    ((reply.result ≡ err endpoint_limit)
      × (view served.registry home ≡ none)
      × (max_endpoints ≤ length served.registry.endpoints)
      × (reply.registry ≡ served.registry))
    ⊎ ((reply.result ≡ err already_has_provider)
        × (is_nil old.provider_session ≡ false)
        × (reply.registry ≡ served.registry))
    ⊎ ((reply.result ≡ ok (half_resumable_peers never new session))
        × (is_nil old.provider_session ≡ true)
        × (view reply.registry home
            ≡ (if bytes_eq home home then some new else view served.registry home)))
set_provider_lem_example =
    set_provider_lem never served.registry home home session 9
      (run-started-AreConsistent never calls).sound

-- A consumer leaves, then another provider that was never registered.
abbrev other_calls : List Call
other_calls =
    forget_call (codes "s12") (codes "consumer") home ∷ remove_provider_call home (codes "s") ∷ []

other_calls-Spares : All (Spares home session) other_calls
other_calls-Spares = (inr (λ e. cc), (inr (λ e. cc), tt))

provider_stays_example :
    (later : Endpoint) × (view (run never served other_calls).registry home ≡ some later)
    × (later.provider_session ≡ some session)
provider_stays_example =
    provider_stays never served other_calls home served_endpoint session
      (run-started-AreConsistent never calls) served-view refl other_calls-Spares

run-promises_example :
    promises never (record { directory = []; waiting = [] }) calls
    ≡ (abstraction (run never started calls), answers never started calls)
run-promises_example = run-promises never calls

ask-tell_example :
    ask (λ s. none) waited (looks_again 0 false)
    ≡ tell (λ s. none) (abstraction waited) (looks_again 0 false)
ask-tell_example =
    ask-tell (λ s. none) waited (looks_again 0 false) (run-started-AreConsistent never waiting_call)

-- A registration that found its endpoint, and a provider that leaves before it goes on.
abbrev leaving : List Call
leaving = remove_provider_call home (codes "s1") ∷ []

served-lookup : lookup home served.registry.endpoints ≡ some 0
unfolding run step wait_begin get_or_create new_endpoint_registry lookup set_provider pick wait_end
    delete_if_empty is_unused register_consumer_yamux add_consumer insert bytes_eq
served-lookup = refl

late_register_example :
    let r = (run never served leaving).registry in
    view (register_at r 0 (codes "c2") 8) home ≡ (
      if points_to (lookup home r.endpoints) 0
      then view (register_consumer_yamux r home (codes "c2") 8) home
      else view r home)
late_register_example =
    late_register never served leaving home home 0 (codes "c2") 8
      (run-started-AreConsistent never calls) served-lookup

-- All that came has left again, the provider's session twice.
abbrev visits : List Call
visits =
    add_consumer_call home user
    ∷ register_call home (codes "c1") 7
    ∷ set_provider_call home session 5
    ∷ forget_call (codes "s1") provider home
    ∷ forget_call (codes "c1") consumer home
    ∷ unregister_call home (codes "c1")
    ∷ remove_provider_call home (codes "s1")
    ∷ []

visits_owe :
    (id : Bytes)
    → let o = owes none_owed visits in
      (o.provider home id ≡ false) × (o.consumer home id ≡ false) × (o.yamux home id ≡ false)
unfolding owes owe bytes_eq
visits_owe id = (ground arith, ground arith, ground arith)

none_waits : count home (run never started visits).waiting ≡ 0
unfolding run step count
none_waits = refl

settled_name_is_gone_example : view (run never started visits).registry home ≡ none
settled_name_is_gone_example =
    settled_name_is_gone never visits home (λ id. (visits_owe id).0) (λ id. (visits_owe id).1)
      (λ id. (visits_owe id).2) none_waits
