-- ===== src/Server/Reaper.antt =====
-- The fast reaper of internal/broker/server.go: markBrokenPoll and sweepBrokenPolls. Times are
-- nanoseconds of one clock. What pollmux answers for an id is a parameter: its store's `Get`, and
-- whether `CloseSessionIfNoPollInFlight` closes the session.
use http_broker.Base.{
  ℕ, ◌+◌, ◌-◌, ◌≡◌, refl, subst, inl, inr, Bool, true, not, ◌&&◌, ◌||◌, Option, none, some, List,
  [], ◌∷◌, Bytes, bytes_eq, bytes_eq_iff, ltb, leb, if◌then◌else◌, Bool-cases, arith, lookup,
  insert, HasDistinctKeys, lookup-insert_self, ap, ◌∙◌, insert-HasDistinctKeys,
}

-- What the reaper asks of a session.
pub record PollSession : Type 0 where
  pub closed : Bool
  pub resumable : Bool

abbrev pub broken_poll_grace : ℕ
broken_poll_grace = 5000000000

-- `!ok || sess.IsClosed() || sess.Resumable()`.
unfoldable pub is_exempt : Option PollSession → Bool
is_exempt none = true
is_exempt (some s) = s.closed || s.resumable

-- `markBrokenPoll` at the time `now`.
unfoldable pub mark_broken_poll :
    (Bytes → Option PollSession) → ℕ → List (Bytes × ℕ) → Bytes → List (Bytes × ℕ)
mark_broken_poll store now polls id = if is_exempt (store id) then polls else insert id now polls

module _ (store : Bytes → Option PollSession) (now : ℕ) where
  -- The first loop of `sweepBrokenPolls`: the entries that stay, and `due`.
  unfoldable pub find_due : List (Bytes × ℕ) → List (Bytes × ℕ) × List (Bytes × ℕ)
  find_due [] = ([], [])
  find_due ((id, at) ∷ polls) =
      let rest = find_due polls in
      if ltb (now - at) broken_poll_grace
      then ((id, at) ∷ rest.0, rest.1)
      else if is_exempt (store id)
      then rest
      else (rest.0, (id, at) ∷ rest.1)

-- The second loop: the sessions that it logs as evicted.
unfoldable pub evict_due : (Bytes → Bool) → List (Bytes × ℕ) → List (Bytes × ℕ)
evict_due close_if_idle [] = []
evict_due close_if_idle ((id, at) ∷ due) =
    let rest = evict_due close_if_idle due in
    if not (close_if_idle id) then rest else (id, at) ∷ rest

-- `sweepBrokenPolls`: the entries that it leaves, and the sessions that it evicts.
unfoldable pub sweep_broken_polls :
    (Bytes → Option PollSession)
    → (Bytes → Bool)
    → ℕ
    → List (Bytes × ℕ)
    → List (Bytes × ℕ) × List (Bytes × ℕ)
sweep_broken_polls store close_if_idle now polls =
    let due = find_due store now polls in (due.0, evict_due close_if_idle due.1)

-- What a sweep does to the entry of one session.
abbrev pub still_waits : ℕ → Option ℕ → Option ℕ
still_waits now none = none
still_waits now (some at) = if ltb (now - at) broken_poll_grace then some at else none

abbrev pub falls_due : (Bytes → Option PollSession) → ℕ → Bytes → Option ℕ → Option ℕ
falls_due store now id none = none
falls_due store now id (some at) =
    if ltb (now - at) broken_poll_grace
    then none
    else if is_exempt (store id)
    then none
    else some at

module _ (store : Bytes → Option PollSession) (now : ℕ) where
  pub find_due-lookup :
      (id : Bytes) (polls : List (Bytes × ℕ))
      → HasDistinctKeys polls
      → (lookup id (find_due store now polls).0 ≡ still_waits now (lookup id polls))
        × (lookup id (find_due store now polls).1 ≡ falls_due store now id (lookup id polls))
  unfolding find_due lookup
  find_due-lookup id [] h = (refl, refl)
  find_due-lookup id ((j, at) ∷ polls) h =
      let rest = find_due-lookup id polls h.1 in
      elim (Bool-cases (bytes_eq j id)) [
        | inl e ↦
            let same : j ≡ id = (bytes_eq_iff j id).0 e in
            let absent : lookup id polls ≡ none = subst (λ k. lookup k polls ≡ none) same h.0 in
            (ground (arith, e, rest, absent, same), ground (arith, e, rest, absent, same))
        | inr e ↦ (ground (arith, e, rest), ground (arith, e, rest))
      ]

evict_due-lookup :
    (close_if_idle : Bytes → Bool) (id : Bytes) (due : List (Bytes × ℕ))
    → lookup id (evict_due close_if_idle due) ≡ (if close_if_idle id then lookup id due else none)
unfolding evict_due lookup
evict_due-lookup close_if_idle id [] = ground arith
evict_due-lookup close_if_idle id ((j, at) ∷ due) =
    ground (arith, evict_due-lookup close_if_idle id due, bytes_eq_iff j id)

-- For a map of broken polls in which each id stands once, `sweepBrokenPolls` is this function of the
-- entry of each session: the entry stays exactly while it is younger than the grace, and else the
-- session is evicted exactly if the store has it, open and not resumable, and pollmux closes it as idle.
pub sweep_broken_polls-lookup :
    (store : Bytes → Option PollSession) (close_if_idle : Bytes → Bool) (now : ℕ) (id : Bytes)
    (polls : List (Bytes × ℕ))
    → HasDistinctKeys polls
    → (lookup id (sweep_broken_polls store close_if_idle now polls).0
        ≡ still_waits now (lookup id polls))
      × (lookup id (sweep_broken_polls store close_if_idle now polls).1
          ≡ (if close_if_idle id then falls_due store now id (lookup id polls) else none))
unfolding sweep_broken_polls
sweep_broken_polls-lookup store close_if_idle now id polls h =
    let found = find_due-lookup store now id polls h in
    (
      found.0,
      evict_due-lookup close_if_idle id (find_due store now polls).1
          ∙ ap (λ due. if close_if_idle id then due else none) found.1,
    )

-- A sweep at `now` after the poll of a session broke at `at`, with every id once in the map before: the
-- session is evicted exactly if the grace has passed and it was, then and now, open and not resumable,
-- and pollmux closes it as idle; here it had no entry from a poll that broke before.
pub mark_then_sweep :
    (before after : Bytes → Option PollSession) (close_if_idle : Bytes → Bool) (at now : ℕ)
    (id : Bytes) (polls : List (Bytes × ℕ))
    → HasDistinctKeys polls
    → lookup id polls ≡ none
    → lookup id (sweep_broken_polls after close_if_idle now (mark_broken_poll before at polls id)).1
      ≡ (if leb (at + broken_poll_grace) now
            && not (is_exempt (before id))
            && not (is_exempt (after id))
            && close_if_idle id
          then some at
          else none)
unfolding mark_broken_poll
mark_then_sweep before after close_if_idle at now id polls h fresh =
    elim (Bool-cases (is_exempt (before id))) [
      | inl e ↦ ground (arith, e, sweep_broken_polls-lookup after close_if_idle now id polls h)
      | inr e ↦ ground (
        arith,
        e,
        sweep_broken_polls-lookup after close_if_idle now id (insert id at polls)
            (insert-HasDistinctKeys id at polls h),
        lookup-insert_self id at polls,
      )
    ]
