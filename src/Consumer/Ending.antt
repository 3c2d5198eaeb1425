-- ===== src/Consumer/Ending.antt =====
-- The end of Serve in Run of internal/consumer/client.go: the select between the shutdown, the failure of
-- the transport and the close of the yamux session. pollmux's channels are Booleans.
use http_broker.Base.{
  ℕ, ◌≡◌, refl, inl, inr, ◌⊎◌, Bool, true, false, Option, none, some, if◌then◌else◌,
}
use http_broker.Client.{Outcome, outcome_shutdown, outcome_transport_failed, outcome_peer_closed}

-- Whether `ctx.Done()`, `conn.TransportFailed()` and `sess.CloseChan()` are ready at the select.
pub record Signals : Type 0 where
  pub done : Bool
  pub transport_failed : Bool
  pub closed : Bool

pub data Case : Type 0 where
  done_case failed_case closed_case : Case

unfoldable pub is_ready : Signals → Case → Bool
is_ready g done_case = g.done
is_ready g failed_case = g.transport_failed
is_ready g closed_case = g.closed

-- The case that Go picks, and what the inner select finds of the transport in the third.
unfoldable pub end_of_session : Case → Bool → Outcome
end_of_session done_case failed_then = outcome_shutdown
end_of_session failed_case failed_then = outcome_transport_failed
end_of_session closed_case failed_then =
    if failed_then then outcome_transport_failed else outcome_peer_closed

-- Serve; the first argument is what `ClientSession` answers.
unfoldable pub serve : Option ℕ → Case → Bool → Outcome
serve none picked failed_then = outcome_transport_failed
serve (some sess) picked failed_then = end_of_session picked failed_then

-- Whichever ready case is picked, where a transport that has failed stays so: Serve reports a shutdown only
-- when the context is cancelled, the peer's close only when the yamux session is closed and the transport
-- had not failed, and otherwise that the transport failed; and under no shutdown, a transport that had
-- failed is reported as that.
pub serve_outcome :
    (sess : Option ℕ) (g : Signals) (picked : Case) (failed_then : Bool)
    → is_ready g picked ≡ true
    → (g.transport_failed ≡ false) ⊎ (failed_then ≡ true)
    → let o = serve sess picked failed_then in
      ((o ≡ outcome_shutdown) × (g.done ≡ true))
      ⊎ ((o ≡ outcome_peer_closed)
          × (g.closed ≡ true)
          × (g.transport_failed ≡ false)
          × (failed_then ≡ false))
      ⊎ (o ≡ outcome_transport_failed)
unfolding serve is_ready end_of_session
serve_outcome none g picked f ready stays = inr (inr refl)
serve_outcome (some s) g done_case f ready stays = inl (refl, ready)
serve_outcome (some s) g failed_case f ready stays = inr (inr refl)
serve_outcome (some s) g closed_case true ready stays = inr (inr refl)
serve_outcome (some s) g closed_case false ready (inl alive) = inr (inl (refl, ready, alive, refl))
serve_outcome (some s) g closed_case false ready (inr failed) = absurd (cc failed)
