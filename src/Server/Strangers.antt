-- ===== src/Server/Strangers.antt =====
-- Requests without the token, over the routes of NewServer in internal/broker/server.go. What pollmux
-- keeps is an abstract state: its handlers and its session store are parameters.
mod Tests
use http_broker.Base.{
  ℕ, ◌≡◌, ◌≢◌, refl, inl, inr, ap, ◌∙◌, Bool, true, false, Option, none, some, List, [], ◌∷◌, ◌++◌,
  Bytes, bytes_eq, bytes_eq_iff, if◌then◌else◌, Bool-cases, arith,
}
use http_broker.Auth.{Request, bearer_prefix}
use http_broker.Server.Reaper.{PollSession}
use http_broker.Server.Settings.{Config}
use http_broker.Server.Routes.{
  Handler, connect_handler, poll_handler, delete_handler, web_socket_handler, resume_handler,
  status_handler, Router, Reply, reaches, redirects, refuses, not_found, router_answer,
  route_request, after_reply,
}
use http_broker.Server.Doors.{tunnel_needs_token, stranger_marks_nothing}

-- A request as it comes in: `cancelled` says whether its connection broke before the answer, `now` is the
-- time after it.
pub record Visit : Type 0 where
  pub request : Request
  pub method : Bytes
  pub path : Bytes
  pub cancelled : Bool
  pub now : ℕ

-- The state of pollmux and of everything its hooks change, and `brokenPolls`.
pub record World (W : Type 0) : Type 0 where
  pub tunnel : W
  pub polls : List (Bytes × ℕ)

-- A request has the token.
abbrev pub has_token : Config → Visit → Bool
has_token cfg v = bytes_eq v.request.authorization (bearer_prefix ++ cfg.auth_token)

unfoldable pub with_token : Config → List Visit → List Visit
with_token cfg [] = []
with_token cfg (v ∷ vs) = if has_token cfg v then v ∷ with_token cfg vs else with_token cfg vs

module _ {W A : Type 0} (handle : Handler → Bytes → Visit → W → W)
    (reply_of : Handler → Bytes → Visit → W → A) (store_of : W → Bytes → Option PollSession)
    (router : Router) (cfg : Config) where
  -- What a reply does: `handleStatus` only reads, and no handler runs where none is reached.
  unfoldable pub effect : Visit → Reply → W → W
  effect v (reaches connect_handler id) w = handle connect_handler id v w
  effect v (reaches poll_handler id) w = handle poll_handler id v w
  effect v (reaches delete_handler id) w = handle delete_handler id v w
  effect v (reaches web_socket_handler id) w = handle web_socket_handler id v w
  effect v (reaches resume_handler id) w = handle resume_handler id v w
  effect v (reaches status_handler id) w = w
  effect v (redirects url) w = w
  effect v refuses w = w
  effect v not_found w = w
  effect v router_answer w = w

  -- A request through the router, its handler, and what the poll handler's wrapper does behind it.
  unfoldable pub serve_visit : World W → Visit → World W
  serve_visit s v =
      let reply = route_request router cfg v.request v.method v.path in
      let later = effect v reply s.tunnel in
      record {
        tunnel = later;
        polls = after_reply (store_of later) v.now v.cancelled s.polls reply;
      }

  unfoldable pub serve_visits : World W → List Visit → World W
  serve_visits s [] = s
  serve_visits s (v ∷ vs) = serve_visits (serve_visit s v) vs

  stranger_has_no_effect :
      (v : Visit) (w : W)
      → cfg.auth_enabled ≡ true
      → cfg.auth_token ≢ []
      → v.request.authorization ≢ bearer_prefix ++ cfg.auth_token
      → effect v (route_request router cfg v.request v.method v.path) w ≡ w
  unfolding effect
  stranger_has_no_effect v w on k stranger =
      go (route_request router cfg v.request v.method v.path) refl
    where
      go :
          (reply : Reply)
          → route_request router cfg v.request v.method v.path ≡ reply
          → effect v (route_request router cfg v.request v.method v.path) w ≡ w
      go (reaches handler id) e =
          elim (tunnel_needs_token router cfg v.request v.method v.path handler id on k e) [
            | inl token ↦ absurd (stranger token)
            | inr (h, shown) ↦ ground (arith, e, h)
          ]
      go (redirects url) e = ground (arith, e)
      go refuses e = ground (arith, e)
      go not_found e = ground (arith, e)
      go router_answer e = ground (arith, e)

  serve_stranger :
      (s : World W) (v : Visit)
      → cfg.auth_enabled ≡ true
      → cfg.auth_token ≢ []
      → has_token cfg v ≡ false
      → serve_visit s v ≡ s
  unfolding serve_visit
  serve_stranger s v on k h =
      let stranger : v.request.authorization ≢ bearer_prefix ++ cfg.auth_token =
        λ e. cc ((bytes_eq_iff v.request.authorization (bearer_prefix ++ cfg.auth_token)).1 e, h) in
      rw
        (
          stranger_has_no_effect v s.tunnel on k stranger,
          stranger_marks_nothing router cfg v.request v.method v.path (store_of s.tunnel) v.now
              v.cancelled s.polls on k stranger,
        )
        refl

  -- What a handler answers.
  unfoldable pub respond : Visit → Reply → W → Option A
  respond v (reaches h id) w = some (reply_of h id v w)
  respond v (redirects url) w = none
  respond v refuses w = none
  respond v not_found w = none
  respond v router_answer w = none

  -- The answers to the requests with the token.
  unfoldable pub token_answers : World W → List Visit → List (Option A)
  token_answers s [] = []
  token_answers s (v ∷ vs) =
      let rest = token_answers (serve_visit s v) vs in
      if has_token cfg v
      then respond v (route_request router cfg v.request v.method v.path) s.tunnel ∷ rest
      else rest

  -- With authentication enabled and a token configured, whatever the handlers of pollmux do to their state
  -- and answer from it: any run of requests, one after the other, leaves the tunnel's state and the marks of
  -- the fast reaper exactly as the requests among them that have the token, in their order, leave them, and
  -- these get the same answers.
  pub strangers_change_nothing :
      (s : World W) (vs : List Visit)
      → cfg.auth_enabled ≡ true
      → cfg.auth_token ≢ []
      → (serve_visits s vs ≡ serve_visits s (with_token cfg vs))
        × (token_answers s vs ≡ token_answers s (with_token cfg vs))
  unfolding serve_visits with_token token_answers
  strangers_change_nothing s [] on k = (refl, refl)
  strangers_change_nothing s (v ∷ vs) on k = elim (Bool-cases (has_token cfg v)) [
    | inl h ↦
        let rest = strangers_change_nothing (serve_visit s v) vs on k in
        let mine = respond v (route_request router cfg v.request v.method v.path) s.tunnel in
        rw h (rest.0, rw h (ap (λ answers. mine ∷ answers) rest.1))
    | inr h ↦
        let rest = strangers_change_nothing s vs on k in
        let same = serve_stranger s v on k h in
        rw h (ap (λ t. serve_visits t vs) same ∙ rest.0, ap (λ t. token_answers t vs) same ∙ rest.1)
  ]
