-- ===== src/Server/Blackout.antt =====
-- How long a provider that died mid-poll keeps its place: the fast reaper of internal/broker/server.go over
-- the registry.
use http_broker.Base.{
  ℕ, ◌+◌, ◌≤◌, ◌<◌, ◌≡◌, ◌≢◌, ◌∙◌, inl, inr, true, false, Option, none, some, List, [], ◌∷◌, Bytes,
  Bool, bytes_eq_iff, arith, lookup, lookup-append, lookup-insert, HasDistinctKeys, All, le_or_lt,
}
use http_broker.Registry.Defs.{BrokerSession}
use http_broker.Registry.Ops.{provider}
use http_broker.Registry.Modify.{IsConsistent}
use http_broker.Registry.Waiters.{Call, step-AreConsistent}
use http_broker.Registry.View.{view}
use http_broker.Server.Reaper.{
  PollSession, broken_poll_grace, is_exempt, mark_broken_poll, sweep_broken_polls,
  sweep_broken_polls-lookup,
}
use http_broker.Server.Stopping.{holds}
use http_broker.Server.FastReaper.{
  fast_reaper_interval, Watch, Tick, Beat, ticks, marks, calls, stamped, tick, beat, fast_reaper,
}
use http_broker.Server.Vacancy.{IsForeign, step_out}
use http_broker.Server.Evicting.{
  find_due-HasDistinctKeys, mark_broken_poll-HasDistinctKeys, lookup-stamped,
  disconnect_all-IsConsistent, disconnect_all_other, disconnect_all_self,
}

module _ (session_of : Bytes → Option BrokerSession) (resumable : BrokerSession → Bool) where
  -- A session waits for its grace to end; it was evicted at a time.
  pub record IsPending (b : BrokerSession) (at : ℕ) (w : Watch) : Type 0 where
    pub consistent : IsConsistent w.registry w.waiting
    pub distinct : HasDistinctKeys w.polls
    pub marked : lookup b.id w.polls ≡ some at
    pub unlogged : lookup b.id w.evicted ≡ none

  pub record IsGone (b : BrokerSession) (t : ℕ) (w : Watch) : Type 0 where
    pub consistent : IsConsistent w.registry w.waiting
    pub logged : lookup b.id w.evicted ≡ some t
    pub out : holds b (view w.registry b.endpoint) ≡ false

  -- What a dead client does: at no tick is its session closed, resumable or in a poll, and nothing marks it
  -- again or registers it as a provider.
  abbrev pub IsDead : BrokerSession → Beat → Type 0
  IsDead b (ticks t) = (is_exempt (t.store b.id) ≡ false) × (t.close_if_idle b.id ≡ true)
  IsDead b (marks store at id) = id ≢ b.id
  IsDead b (calls c) = IsForeign b c

  -- Ticks come in order and at most an interval apart.
  abbrev pub IsPaced : ℕ → List Beat → Type 0
  IsPaced from [] = Unit
  IsPaced from (ticks t ∷ bs) =
      (from ≤ t.now) × (t.now ≤ from + fast_reaper_interval) × IsPaced t.now bs
  IsPaced from (marks store at id ∷ bs) = IsPaced from bs
  IsPaced from (calls c ∷ bs) = IsPaced from bs

  abbrev pub last_tick : ℕ → List Beat → ℕ
  last_tick from [] = from
  last_tick from (ticks t ∷ bs) = last_tick t.now bs
  last_tick from (marks store at id ∷ bs) = last_tick from bs
  last_tick from (calls c ∷ bs) = last_tick from bs

  tick-early :
      (b : BrokerSession) (at : ℕ) (w : Watch) (t : Tick)
      → IsPending b at w
      → t.now < at + broken_poll_grace
      → IsPending b at (tick session_of w t)
  unfolding tick sweep_broken_polls
  tick-early b at w t p early =
      let found = sweep_broken_polls-lookup t.store t.close_if_idle t.now b.id w.polls p.distinct in
      let due = (sweep_broken_polls t.store t.close_if_idle t.now w.polls).1 in
      record {
        consistent = disconnect_all-IsConsistent session_of w.registry w.waiting due p.consistent;
        distinct = find_due-HasDistinctKeys t.store t.now w.polls p.distinct;
        marked = ground (arith, found.0, p.marked, early);
        unlogged = ground (
          arith,
          lookup-append b.id w.evicted (stamped t.now due),
          lookup-stamped b.id t.now due,
          found.1,
          p.unlogged,
          p.marked,
          early,
        );
      }

  tick-late :
      (b : BrokerSession) (at : ℕ) (w : Watch) (t : Tick)
      → IsPending b at w
      → session_of b.id ≡ some b
      → IsDead b (ticks t)
      → at + broken_poll_grace ≤ t.now
      → IsGone b t.now (tick session_of w t)
  unfolding tick
  tick-late b at w t p s d late =
      let found =
        (sweep_broken_polls-lookup t.store t.close_if_idle t.now b.id w.polls p.distinct).1 in
      let due = (sweep_broken_polls t.store t.close_if_idle t.now w.polls).1 in
      let mine : lookup b.id due ≡ some at = found ∙ ground (arith, p.marked, d.0, d.1, late) in
      record {
        consistent = disconnect_all-IsConsistent session_of w.registry w.waiting due p.consistent;
        logged = ground (
          arith,
          lookup-append b.id w.evicted (stamped t.now due),
          lookup-stamped b.id t.now due,
          mine,
          p.unlogged,
        );
        out = disconnect_all_self session_of w.registry due b at p.consistent.sound s mine;
      }

  beat-IsGone :
      (b : BrokerSession) (t : ℕ) (w : Watch) (x : Beat)
      → b.role ≡ provider
      → IsDead b x
      → IsGone b t w
      → IsGone b t (beat session_of resumable w x)
  unfolding beat tick
  beat-IsGone b t w (marks store at id) role d g = record {
    consistent = g.consistent;
    logged = g.logged;
    out = g.out;
  }
  beat-IsGone b t w (calls c) role d g = record {
    consistent = step-AreConsistent resumable _ c g.consistent;
    logged = g.logged;
    out = step_out resumable b _ c role g.consistent d g.out;
  }
  beat-IsGone b t w (ticks k) role d g =
      let due = (sweep_broken_polls k.store k.close_if_idle k.now w.polls).1 in
      record {
        consistent = disconnect_all-IsConsistent session_of w.registry w.waiting due g.consistent;
        logged = ground (arith, lookup-append b.id w.evicted (stamped k.now due), g.logged);
        out = disconnect_all_other session_of w.registry due b g.consistent.sound g.out;
      }

  mark-IsPending :
      (b : BrokerSession) (at : ℕ) (w : Watch) (store : Bytes → Option PollSession) (now : ℕ)
      (id : Bytes)
      → IsPending b at w
      → id ≢ b.id
      → IsPending b at (beat session_of resumable w (marks store now id))
  unfolding beat mark_broken_poll
  mark-IsPending b at w store now id p other = record {
    consistent = p.consistent;
    distinct = mark_broken_poll-HasDistinctKeys store now w.polls id p.distinct;
    marked = ground (arith, lookup-insert id b.id now w.polls, bytes_eq_iff id b.id, p.marked);
    unlogged = p.unlogged;
  }

  call-IsPending :
      (b : BrokerSession) (at : ℕ) (w : Watch) (c : Call)
      → IsPending b at w
      → IsPending b at (beat session_of resumable w (calls c))
  unfolding beat
  call-IsPending b at w c p = record {
    consistent = step-AreConsistent resumable _ c p.consistent;
    distinct = p.distinct;
    marked = p.marked;
    unlogged = p.unlogged;
  }

  fast_reaper-IsGone :
      (b : BrokerSession) (t : ℕ) (w : Watch) (xs : List Beat)
      → b.role ≡ provider
      → All (IsDead b) xs
      → IsGone b t w
      → IsGone b t (fast_reaper session_of resumable w xs)
  unfolding fast_reaper
  fast_reaper-IsGone b t w [] role d g = g
  fast_reaper-IsGone b t w (x ∷ xs) role d g =
      fast_reaper-IsGone b t (beat session_of resumable w x) xs role d.1
        (beat-IsGone b t w x role d.0 g)

  abbrev pub InTime : ℕ → ℕ → Type 0
  InTime at t = (at + broken_poll_grace ≤ t) × (t < at + broken_poll_grace + fast_reaper_interval)

  pub evicted_from :
      (from : ℕ) (w : Watch) (xs : List Beat) (b : BrokerSession) (at : ℕ)
      → IsPending b at w
      → session_of b.id ≡ some b
      → b.role ≡ provider
      → All (IsDead b) xs
      → IsPaced from xs
      → from < at + broken_poll_grace
      → at + broken_poll_grace ≤ last_tick from xs
      → (t : ℕ) × InTime at t × IsGone b t (fast_reaper session_of resumable w xs)
  unfolding fast_reaper beat
  evicted_from from w [] b at p s role d pace early late = absurd (omega arith)
  evicted_from from w (marks store now id ∷ xs) b at p s role d pace early late =
      evicted_from from (beat session_of resumable w (marks store now id)) xs b at
        (mark-IsPending b at w store now id p d.0) s role d.1 pace early late
  evicted_from from w (calls c ∷ xs) b at p s role d pace early late =
      evicted_from from (beat session_of resumable w (calls c)) xs b at (call-IsPending b at w c p)
        s role d.1 pace early late
  evicted_from from w (ticks k ∷ xs) b at p s role d pace early late =
      elim (le_or_lt (at + broken_poll_grace) k.now) [
        | inl over ↦ (
          k.now,
          (over, omega arith),
          fast_reaper-IsGone b k.now (tick session_of w k) xs role d.1
              (tick-late b at w k p s d.0 over),
        )
        | inr soon ↦
            evicted_from k.now (tick session_of w k) xs b at (tick-early b at w k p soon) s role d.1
              pace.2 soon late
      ]
