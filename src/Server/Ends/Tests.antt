-- ===== src/Server/Ends/Tests.antt =====
-- A provider with a consumer ends; another comes between its disconnect hook and its end.
use http_broker.Base.{
  ◌≡◌, refl, Bool, false, some, List, [], ◌∷◌, Bytes, codes, bytes_eq, insert, delete,
  if◌then◌else◌, lookup,
}
use http_broker.Registry.Defs.{
  BrokerSession, Endpoint, Registry, new_endpoint_registry, get_or_create, delete_if_empty,
  is_unused, points_to,
}
use http_broker.Registry.Ops.{
  consumer, provider, set_provider, remove_provider, owned_by_other, yamux_values,
  register_consumer_yamux, add_consumer,
}
use http_broker.Registry.View.{view}
use http_broker.Registry.Provider.{deserted}
use http_broker.Registry.Waiters.{
  Call, started, step, run, set_provider_call, add_consumer_call, register_call,
  remove_provider_call, run-started-AreConsistent,
}
use http_broker.Server.Connect.{on_disconnect}
use http_broker.Server.Ends.{provider_end_orders, successor_keeps_consumers}

abbrev home : Bytes
home = codes "home"

abbrev session : BrokerSession
session = record { id = codes "s1"; role = provider; endpoint = home }

abbrev successor : BrokerSession
successor = record { id = codes "s"; role = provider; endpoint = home }

abbrev user : BrokerSession
user = record { id = codes "c1"; role = consumer; endpoint = home }

abbrev never : BrokerSession → Bool
never s = false

abbrev calls : List Call
calls =
    add_consumer_call home user
    ∷ register_call home (codes "c1") 7
    ∷ set_provider_call home session 5
    ∷ []

abbrev served : Registry
served = (run never started calls).registry

abbrev served_endpoint : Endpoint
served_endpoint = record {
  name = home;
  provider_session = some session;
  provider_yamux = some 5;
  consumer_sessions = (codes "c1", user) ∷ [];
  waiters = 0;
  consumer_yamux_sessions = (codes "c1", 7) ∷ [];
}

served-view : view served home ≡ some served_endpoint
unfolding run step get_or_create new_endpoint_registry lookup set_provider view
    register_consumer_yamux add_consumer insert bytes_eq
served-view = refl

provider_end_orders_example :
    let end_first = remove_provider served home (codes "s1") in
    let hook_first = remove_provider (on_disconnect served session) home (codes "s1") in
    let left = if bytes_eq home home then deserted served_endpoint else view served home in
    (end_first.1 ≡ yamux_values served_endpoint.consumer_yamux_sessions)
    × (view (on_disconnect end_first.0 session) home ≡ left)
    × (hook_first.1 ≡ yamux_values served_endpoint.consumer_yamux_sessions)
    × (view hook_first.0 home ≡ left)
provider_end_orders_example =
    provider_end_orders served session served_endpoint home
      (run-started-AreConsistent never calls).sound refl served-view refl

successor_keeps_consumers_example :
    let r' = (set_provider never (on_disconnect served session) home successor 9).registry in
    (view r' home
      ≡ some
          (record served_endpoint { provider_session = some successor; provider_yamux = some 9 }))
    × (remove_provider r' home (codes "s1") ≡ (r', []))
successor_keeps_consumers_example =
    successor_keeps_consumers never served session successor served_endpoint 9
      (run-started-AreConsistent never calls).sound refl served-view refl (λ e. cc e) (λ e. cc e)

-- A consumer whose HandleConsumer comes to RegisterConsumerYamux when its endpoint has been dropped: a
-- provider that comes and goes later closes nothing.
abbrev late_calls : List Call
late_calls =
    add_consumer_call home user
    ∷ set_provider_call home session 5
    ∷ remove_provider_call home (codes "s1")
    ∷ register_call home (codes "c1") 7
    ∷ set_provider_call home successor 9
    ∷ []

late_consumer : (remove_provider (run never started late_calls).registry home (codes "s")).1 ≡ []
unfolding run step get_or_create new_endpoint_registry lookup set_provider remove_provider
    register_consumer_yamux add_consumer insert bytes_eq owned_by_other yamux_values delete_if_empty
    is_unused points_to delete
late_consumer = refl
