-- ===== src/Server/Tests.antt =====
-- Runs of the broker: a reaped session, two providers of one name.
use http_broker.Base.{
  ◌≡◌, refl, ◌+◌, ◌&&◌, Bool, true, false, not, leb, Option, none, some, List, [], ◌∷◌, Bytes, ℕ,
  codes, bytes_eq, if◌then◌else◌, lookup, length, keep_if, ◌≤◌, insert, All,
}
use http_broker.Registry.Defs.{
  BrokerSession, Endpoint, Registry, new_endpoint_registry, get_or_create,
}
use http_broker.Registry.Ops.{
  consumer, provider, yamux_values, set_provider, half_resumable_peers, mismatched,
}
use http_broker.Registry.Soundness.{IsSound}
use http_broker.Registry.View.{view}
use http_broker.Registry.Provider.{current, deserted}
use http_broker.Registry.System.{AreConsistent}
use http_broker.Registry.Waiters.{
  started, run-started-AreConsistent, Call, set_provider_call, run, step,
}
use http_broker.Server.Reaper.{
  PollSession, broken_poll_grace, is_exempt, mark_broken_poll, sweep_broken_polls, mark_then_sweep,
}
use http_broker.Server.Connect.{authenticate_connect}
use http_broker.Server.Relay.{handle_provider, leave_provider, registered}
use http_broker.Server.Broker.{Event, connects, provider_starts, stream_waits, history, AreNamed}
use http_broker.Config.Settings.{zero_broker_config}
use http_broker.Config.Broker.{broker_config}
use http_broker.Server.Settings.{Config}
use http_broker.Server.Status.{find_status, IsCoherent}
use http_broker.Server.Page.{status_page, is_detached, IsShown, status_page_lem}
use http_broker.Server.Names.{IsAdmitted, history-AreNamed}
use http_broker.Server.Stopping.{
  Server, shuts_down_http, closes_session, stops_sweeper, holds, stop, stop_forgets,
}
use http_broker.Server.Visits.{duplicate_provider, provider_visit}

abbrev live : Bytes → Option PollSession
live id = some (record { closed = false; resumable = false })

abbrev idle : Bytes → Bool
idle id = true

mark_then_sweep_example :
    lookup
      (codes "s1")
      (sweep_broken_polls live idle 9000000000 (mark_broken_poll live 2 [] (codes "s1"))).1
    ≡ (if leb (2 + broken_poll_grace) 9000000000
          && not (is_exempt (live (codes "s1")))
          && not (is_exempt (live (codes "s1")))
          && idle (codes "s1")
        then some 2
        else none)
unfolding lookup
mark_then_sweep_example = mark_then_sweep live live idle 2 9000000000 (codes "s1") [] tt refl

abbrev home : Bytes
home = codes "home"

abbrev session : BrokerSession
session = record { id = codes "s1"; role = provider; endpoint = home }

abbrev second : BrokerSession
second = record { id = codes "s2"; role = provider; endpoint = home }

abbrev user : BrokerSession
user = record { id = codes "c1"; role = consumer; endpoint = home }

abbrev never : BrokerSession → Bool
never s = false

abbrev events : List Event
events = connects user ∷ stream_waits user ∷ provider_starts session (some 5) ∷ []

events-IsAdmitted : All IsAdmitted events
unfolding authenticate_connect bytes_eq
events-IsAdmitted = (refl, (refl, (refl, tt)))

history-AreNamed_example :
    AreConsistent (history never started events)
    × AreNamed (history never started events).registry.endpoints
history-AreNamed_example = history-AreNamed never events events-IsAdmitted

-- The registry after the first provider came.
abbrev one_call : List Call
one_call = set_provider_call home session 5 ∷ []

abbrev served : Registry
served = (run never started one_call).registry

abbrev served_endpoint : Endpoint
served_endpoint = record {
  name = home;
  provider_session = some session;
  provider_yamux = some 5;
  consumer_sessions = [];
  waiters = 0;
  consumer_yamux_sessions = [];
}

served-view : view served home ≡ some served_endpoint
unfolding run step set_provider get_or_create new_endpoint_registry lookup insert bytes_eq view
served-view = refl

duplicate_provider_example :
    ((handle_provider never served second (some 6)).0 ≡ served)
    × (leave_provider served second (handle_provider never served second (some 6)).1 ≡ (served, []))
duplicate_provider_example =
    duplicate_provider never served served second (some 6) served_endpoint
      (run-started-AreConsistent never one_call).sound served-view refl

abbrev no_calls : List Call
no_calls = []

starts : handle_provider never started.registry session (some 5) ≡ (served, registered [])
unfolding handle_provider run step set_provider get_or_create new_endpoint_registry lookup insert
    bytes_eq half_resumable_peers mismatched
starts = refl

started-IsSound : IsSound started.registry
unfolding run
started-IsSound = (run-started-AreConsistent never no_calls).sound

provider_visit_example :
    let old = current (view started.registry home) home in
    ((leave_provider served session (registered [])).1 ≡ yamux_values old.consumer_yamux_sessions)
    × (view (leave_provider served session (registered [])).0 home
        ≡ (if bytes_eq home home then deserted old else view started.registry home))
provider_visit_example =
    provider_visit never started.registry served session 5 [] home started-IsSound starts

abbrev no_time : BrokerSession → Option ℕ
no_time s = none

abbrev cfg : Config
cfg = broker_config (codes "1.0") zero_broker_config

status_page_lem_example :
    let page = status_page never no_time cfg served (session ∷ user ∷ []) in
    IsShown never no_time home (view served home) (find_status home page.endpoints)
    × All IsCoherent page.endpoints
    × (length page.endpoints ≡ length served.endpoints)
    × (page.total_sessions ≡ 2)
    × (page.resumable_sessions ≡ length (keep_if never (session ∷ user ∷ [])))
    × (page.detached_resumable_sessions
        ≡ length (keep_if (is_detached never no_time) (session ∷ user ∷ [])))
    × (page.detached_resumable_sessions ≤ page.resumable_sessions)
    × (page.resumable_sessions ≤ page.total_sessions)
status_page_lem_example = status_page_lem never no_time cfg served (session ∷ user ∷ []) home

-- A server with one provider and one consumer that never came to its endpoint.
abbrev running : Server
running = record { registry = served; has_sweeper = true; stop_once = false }

stop_forgets_example :
    let stopped = stop {E = ℕ} (some 7) (session ∷ user ∷ []) running in
    All (λ b. holds b (view stopped.server.registry b.endpoint) ≡ false) (session ∷ user ∷ [])
    × (stopped.error ≡ some 7)
    × (stopped.effects
        ≡ shuts_down_http ∷ closes_session session ∷ closes_session user ∷ stops_sweeper ∷ [])
    × ((again : Option ℕ) (found : List BrokerSession)
        → stop again found stopped.server
          ≡ record { server = stopped.server; error = none; effects = [] })
stop_forgets_example =
    stop_forgets (some 7) (session ∷ user ∷ []) running
      (run-started-AreConsistent never one_call).sound refl
