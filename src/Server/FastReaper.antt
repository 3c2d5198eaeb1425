-- ===== src/Server/FastReaper.antt =====
-- startFastReaper of internal/broker/server.go: the ticks of its goroutine until `stop` is closed. What
-- pollmux answers at a tick (its store, which sessions it closes as idle) is part of the tick, and
-- CloseSessionIfNoPollInFlight calls `onDisconnect` of a session that it closes, as pollmux documents.
use http_broker.Base.{ℕ, Bool, Option, none, some, List, [], ◌∷◌, ◌++◌, Bytes}
use http_broker.Registry.Defs.{BrokerSession, Registry}
use http_broker.Registry.Modify.{Waiting}
use http_broker.Registry.Waiters.{Call, step}
use http_broker.Server.Connect.{on_disconnect}
use http_broker.Server.Reaper.{PollSession, mark_broken_poll, sweep_broken_polls}

abbrev pub fast_reaper_interval : ℕ
fast_reaper_interval = 2000000000

-- The registry with the streams that wait, `brokenPolls`, and the sessions that were evicted with the time of their tick.
pub record Watch : Type 0 where
  pub registry : Registry
  pub waiting : Waiting
  pub polls : List (Bytes × ℕ)
  pub evicted : List (Bytes × ℕ)

pub record Tick : Type 0 where
  pub now : ℕ
  pub store : Bytes → Option PollSession
  pub close_if_idle : Bytes → Bool

-- A tick of the reaper, the end of a poll that marks its session, or a call of the registry by a session that
-- connects, registers, waits or leaves.
pub data Beat : Type 0 where
  ticks : Tick → Beat
  marks : (Bytes → Option PollSession) → ℕ → Bytes → Beat
  calls : Call → Beat

-- The entries of a sweep, with the time of the tick in place of the time of the mark.
unfoldable pub stamped : ℕ → List (Bytes × ℕ) → List (Bytes × ℕ)
stamped now [] = []
stamped now ((id, at) ∷ due) = (id, now) ∷ stamped now due

module _ (session_of : Bytes → Option BrokerSession) where
  unfoldable pub disconnect_id : Registry → Bytes → Registry
  disconnect_id r id = elim (session_of id) [ none ↦ r | some b ↦ on_disconnect r b ]

  unfoldable pub disconnect_all : Registry → List (Bytes × ℕ) → Registry
  disconnect_all r [] = r
  disconnect_all r ((id, at) ∷ due) = disconnect_all (disconnect_id r id) due

  -- One tick: `sweepBrokenPolls` and the hooks of the sessions that it closes.
  unfoldable pub tick : Watch → Tick → Watch
  tick w t =
      let swept = sweep_broken_polls t.store t.close_if_idle t.now w.polls in
      record w {
        registry = disconnect_all w.registry swept.1;
        polls = swept.0;
        evicted = w.evicted ++ stamped t.now swept.1;
      }

  module _ (resumable : BrokerSession → Bool) where
    -- Between the ticks, other requests mark their sessions and call the registry.
    unfoldable pub beat : Watch → Beat → Watch
    beat w (ticks t) = tick w t
    beat w (marks store at id) = record w { polls = mark_broken_poll store at w.polls id }
    beat w (calls c) =
        let s = step resumable (record { registry = w.registry; waiting = w.waiting }) c in
        record w { registry = s.registry; waiting = s.waiting }

    unfoldable pub fast_reaper : Watch → List Beat → Watch
    fast_reaper w [] = w
    fast_reaper w (b ∷ bs) = fast_reaper (beat w b) bs
