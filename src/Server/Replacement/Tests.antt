-- ===== src/Server/Replacement/Tests.antt =====
-- A run of the broker: a provider dies in a poll and another takes its place.
use http_broker.Base.{
  ◌≡◌, ◌≢◌, refl, ◌+◌, ◌≤◌, ◌<◌, arith, Bool, true, false, Option, none, some, List, [], ◌∷◌, Bytes,
  ℕ, codes, bytes_eq, if◌then◌else◌, lookup, HasDistinctKeys, All,
}
use http_broker.Registry.Defs.{BrokerSession, Registry}
use http_broker.Registry.Ops.{provider}
use http_broker.Registry.View.{view}
use http_broker.Registry.Waiters.{
  started, run-started-AreConsistent, Call, set_provider_call, add_consumer_call, wait_begin_call,
  run, step,
}
use http_broker.Server.Reaper.{PollSession, broken_poll_grace, is_exempt}
use http_broker.Server.Stopping.{holds}
use http_broker.Server.FastReaper.{
  fast_reaper_interval, Watch, Beat, ticks, marks, calls, fast_reaper,
}
use http_broker.Server.Blackout.{IsDead, IsPaced}
use http_broker.Server.Replacement.{Replaces, dead_provider_replaced}

abbrev home : Bytes
home = codes "home"

abbrev dead : BrokerSession
dead = record { id = codes "s1"; role = provider; endpoint = home }

abbrev heir : BrokerSession
heir = record { id = codes "s2"; role = provider; endpoint = home }

abbrev user : BrokerSession
user = record { id = codes "c1"; role = codes "consumer"; endpoint = home }

abbrev never : BrokerSession → Bool
never s = false

abbrev one_call : List Call
one_call = set_provider_call home dead 5 ∷ []

abbrev served : Registry
served = (run never started one_call).registry

abbrev known : Bytes → Option BrokerSession
known id = if bytes_eq id (codes "s1") then some dead else none

abbrev live : Bytes → Option PollSession
live id = some (record { closed = false; resumable = false })

abbrev idle : Bytes → Bool
idle id = true

abbrev tick_at : ℕ → Beat
tick_at now = ticks (record { now = now; store = live; close_if_idle = idle })

-- The session is marked at 2; another is marked between the ticks, a consumer comes to the endpoint, and a
-- stream waits at another.
abbrev beats : List Beat
beats =
    tick_at 2000000000
    ∷ marks live 3000000000 (codes "s")
    ∷ tick_at 4000000000
    ∷ calls (add_consumer_call home user)
    ∷ calls (wait_begin_call (codes "away"))
    ∷ tick_at 6000000000
    ∷ []

abbrev watch : Watch
watch = record { registry = served; waiting = []; polls = (codes "s1", 2) ∷ []; evicted = [] }

watch-HasDistinctKeys : HasDistinctKeys watch.polls
unfolding lookup
watch-HasDistinctKeys = (refl, tt)

other_key : codes "s" ≢ codes "s1"
other_key = λ e. cc e

beats-IsDead : All (IsDead known never dead) beats
unfolding is_exempt
beats-IsDead = ((refl, refl), (other_key, ((refl, refl), (tt, (tt, ((refl, refl), tt))))))

known-dead : known dead.id ≡ some dead
unfolding bytes_eq
known-dead = refl

is_marked : lookup dead.id watch.polls ≡ some 2
unfolding lookup bytes_eq
is_marked = refl

is_unlogged : lookup dead.id watch.evicted ≡ none
unfolding lookup
is_unlogged = refl

beats-IsPaced : IsPaced known never 2 beats
beats-IsPaced =
    (omega arith, omega arith, (omega arith, omega arith, (omega arith, omega arith, tt)))

dead_provider_replaced_example :
    let after = fast_reaper known never watch beats in
    ((t : ℕ) × (lookup (codes "s1") after.evicted ≡ some t)
      × (2 + broken_poll_grace ≤ t)
      × (t < 2 + broken_poll_grace + fast_reaper_interval))
    × (holds dead (view after.registry home) ≡ false)
    × Replaces never dead heir 7 after.registry
unfolding run step
dead_provider_replaced_example =
    dead_provider_replaced never known watch beats dead heir 2 7
      (run-started-AreConsistent never one_call) watch-HasDistinctKeys known-dead refl is_marked
      is_unlogged beats-IsDead beats-IsPaced (omega arith)
