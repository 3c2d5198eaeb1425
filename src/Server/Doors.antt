-- ===== src/Server/Doors.antt =====
-- Which requests come to a handler, over the routes of NewServer in internal/broker/server.go.
pub mod Tests
use http_broker.Base.{
  ℕ, ◌≡◌, ◌≢◌, refl, ap, subst, sym, ◌∙◌, ◌↔◌, ◌⊎◌, inl, inr, Bool, true, false, Option, List, [],
  ◌∷◌, ◌++◌, Bytes, codes, if◌then◌else◌, Bool-cases, bytes_eq, bytes_eq_iff, arith, All,
  All-member, Memᴰ,
}
use http_broker.Auth.{
  Request, Outcome, auth_middleware, choose_authenticator, authenticate, bearer_prefix, serve_next,
  redirect, unauthorized, auth_middleware_serves,
}
use http_broker.Server.Reaper.{PollSession}
use http_broker.Server.Settings.{Config}
use http_broker.Server.Routes.{
  Handler, connect_handler, poll_handler, delete_handler, web_socket_handler, resume_handler,
  status_handler, Route, routes, status_route, Match, found, no_route, router_answers, Router,
  Reply, reaches, redirects, refuses, not_found, router_answer, guard, answer_not_found,
  route_request, after_reply, handle_unauthorized_redirect,
}

-- A route behind the middleware, or the status page where it is enabled.
abbrev IsGuarded : Config → Route → Type 0
IsGuarded cfg route =
    (route.guarded ≡ true)
    ⊎ ((route.handler ≡ status_handler) × (cfg.status_endpoint_enabled ≡ true))

status_route-IsGuarded :
    (cfg : Config) (b : Bool)
    → cfg.status_endpoint_enabled ≡ b
    → All (IsGuarded cfg) (if b then status_route ∷ [] else [])
status_route-IsGuarded cfg true e = (inr (refl, e), tt)
status_route-IsGuarded cfg false e = tt

routes-IsGuarded : (cfg : Config) → All (IsGuarded cfg) (routes cfg)
unfolding routes
routes-IsGuarded cfg =
    let last = status_route-IsGuarded cfg cfg.status_endpoint_enabled refl in
    (inl refl, (inl refl, (inl refl, (inl refl, (inl refl, last)))))

-- What AuthMiddleware says of a request, with the settings of the server.
abbrev verdict : Config → Request → Outcome
verdict cfg r =
    auth_middleware (choose_authenticator cfg.auth_enabled cfg.auth_token)
      cfg.unauthorized_redirect_enabled cfg.unauthorized_redirect_url r

guard_passes :
    (cfg : Config) (r : Request) (next : Reply) (handler : Handler) (id : Bytes)
    → guard cfg r next ≡ reaches handler id
    → verdict cfg r ≡ serve_next
unfolding guard
guard_passes cfg r next handler id e = go (verdict cfg r) refl
  where
    go : (o : Outcome) → verdict cfg r ≡ o → verdict cfg r ≡ serve_next
    go serve_next f = f
    go (redirect url) f = absurd (ground (arith, e, f))
    go unauthorized f = absurd (ground (arith, e, f))

-- With authentication on and a token that is not empty, the middleware's verdict is about the token.
verdict_token :
    (cfg : Config) (r : Request)
    → cfg.auth_enabled ≡ true
    → cfg.auth_token ≢ []
    → (verdict cfg r ≡ serve_next) ↔ (r.authorization ≡ bearer_prefix ++ cfg.auth_token)
verdict_token cfg r on k =
    subst
      (λ b.
        (auth_middleware (choose_authenticator b cfg.auth_token) cfg.unauthorized_redirect_enabled
            cfg.unauthorized_redirect_url r
          ≡ serve_next)
        ↔ (r.authorization ≡ bearer_prefix ++ cfg.auth_token))
      (sym on)
      (auth_middleware_serves cfg.auth_token cfg.unauthorized_redirect_url
        cfg.unauthorized_redirect_enabled r k)

-- Who is let through: everyone where nothing is to be checked, else who has the token.
abbrev pub MayEnter : Config → Request → Type 0
MayEnter cfg r =
    (cfg.auth_enabled ≡ false)
    ⊎ (cfg.auth_token ≡ [])
    ⊎ (r.authorization ≡ bearer_prefix ++ cfg.auth_token)

open_verdict :
    (cfg : Config) (r : Request)
    → (cfg.auth_enabled ≡ false) ⊎ (cfg.auth_token ≡ [])
    → verdict cfg r ≡ serve_next
unfolding auth_middleware choose_authenticator authenticate
open_verdict cfg r (inl off) = ground (arith, off)
open_verdict cfg r (inr empty) = ground (arith, empty, bytes_eq_iff cfg.auth_token [])

verdict_serves : (cfg : Config) (r : Request) → MayEnter cfg r → verdict cfg r ≡ serve_next
verdict_serves cfg r (inl off) = open_verdict cfg r (inl off)
verdict_serves cfg r (inr (inl empty)) = open_verdict cfg r (inr empty)
verdict_serves cfg r (inr (inr token)) = elim (Bool-cases cfg.auth_enabled) [
  | inl on ↦ elim (Bool-cases (bytes_eq cfg.auth_token [])) [
    | inl empty ↦ open_verdict cfg r (inr ((bytes_eq_iff cfg.auth_token []).0 empty))
    | inr k ↦ (verdict_token cfg r on (λ e. cc ((bytes_eq_iff cfg.auth_token []).1 e, k))).1 token
  ]
  | inr off ↦ open_verdict cfg r (inl off)
]

module _ (router : Router) (cfg : Config) (r : Request) where
  -- A handler that is reached is that of a route, which was open or behind the middleware.
  route_request_reaches :
      (method path : Bytes) (handler : Handler) (id : Bytes)
      → route_request router cfg r method path ≡ reaches handler id
      → (verdict cfg r ≡ serve_next)
        ⊎ ((handler ≡ status_handler) × (cfg.status_endpoint_enabled ≡ true))
  unfolding route_request answer_not_found handle_unauthorized_redirect
  route_request_reaches method path handler id e = go (router.find (routes cfg) method path) refl
    where
      go :
          (m : Match)
          → router.find (routes cfg) method path ≡ m
          → (verdict cfg r ≡ serve_next)
            ⊎ ((handler ≡ status_handler) × (cfg.status_endpoint_enabled ≡ true))
      go (found route i) f = elim (Bool-cases route.guarded) [
        | inl g ↦
            inl (guard_passes cfg r (reaches route.handler i) handler id (ground (arith, e, f, g)))
        | inr g ↦
            elim (All-member (IsGuarded cfg) (routes cfg) (routes-IsGuarded cfg)
              (router.found_is_given (routes cfg) method path i route f)) [
                | inl always ↦ absurd (cc (always, g))
                | inr (h, on) ↦ inr (ground (arith, e, f, g, h), on)
              ]
      ]
      go no_route f = absurd (ground (arith, e, f))
      go router_answers f = absurd (ground (arith, e, f))

  -- With authentication enabled and a token configured, whatever the router finds: a request comes to a
  -- handler only with the header "Bearer " and that token, every byte of it, or to the status page where
  -- this is enabled. No other request comes to a handler of the tunnel.
  pub tunnel_needs_token :
      (method path : Bytes) (handler : Handler) (id : Bytes)
      → cfg.auth_enabled ≡ true
      → cfg.auth_token ≢ []
      → route_request router cfg r method path ≡ reaches handler id
      → (r.authorization ≡ bearer_prefix ++ cfg.auth_token)
        ⊎ ((handler ≡ status_handler) × (cfg.status_endpoint_enabled ≡ true))
  tunnel_needs_token method path handler id on k e =
      elim (route_request_reaches method path handler id e) [
        | inl passed ↦ inl ((verdict_token cfg r on k).0 passed)
        | inr status ↦ inr status
      ]

  -- A request with the token, or under a server without authentication or without a token, comes to the
  -- handler of the route that the router finds, with the id of its path.
  pub token_opens_route :
      (method path id : Bytes) (route : Route)
      → MayEnter cfg r
      → router.find (routes cfg) method path ≡ found route id
      → route_request router cfg r method path ≡ reaches route.handler id
  unfolding route_request guard
  token_opens_route method path id route may f = ground (arith, f, verdict_serves cfg r may)

  -- With authentication enabled and a token configured, a request without it marks no session for the
  -- fast reaper, whether its connection breaks or not.
  pub stranger_marks_nothing :
      (method path : Bytes) (store : Bytes → Option PollSession) (now : ℕ) (cancelled : Bool)
      (polls : List (Bytes × ℕ))
      → cfg.auth_enabled ≡ true
      → cfg.auth_token ≢ []
      → r.authorization ≢ bearer_prefix ++ cfg.auth_token
      → after_reply store now cancelled polls (route_request router cfg r method path) ≡ polls
  unfolding after_reply
  stranger_marks_nothing method path store now cancelled polls on k stranger =
      go (route_request router cfg r method path) refl
    where
      go :
          (reply : Reply)
          → route_request router cfg r method path ≡ reply
          → after_reply store now cancelled polls (route_request router cfg r method path) ≡ polls
      go (reaches handler id) e = elim (tunnel_needs_token method path handler id on k e) [
        | inl token ↦ absurd (stranger token)
        | inr (h, shown) ↦ ground (arith, e, h)
      ]
      go (redirects url) e = ground (arith, e)
      go refuses e = ground (arith, e)
      go not_found e = ground (arith, e)
      go router_answer e = ground (arith, e)
