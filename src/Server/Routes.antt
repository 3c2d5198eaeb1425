-- ===== src/Server/Routes.antt =====
-- The routes that NewServer of internal/broker/server.go sets up, each with its middleware, and what
-- becomes of a request. The matching of gorilla/mux and the handlers of pollmux are parameters.
use http_broker.Base.{
  ℕ, Bool, true, false, not, ◌&&◌, Option, List, [], ◌∷◌, Bytes, bytes_eq, codes, if◌then◌else◌,
  Memᴰ, ◌≡◌,
}
use http_broker.Auth.{
  Request, auth_middleware, choose_authenticator, build_redirect_url, serve_next, redirect,
  unauthorized,
}
use http_broker.Server.Reaper.{PollSession, mark_broken_poll}
use http_broker.Server.Settings.{Config}

-- The five handlers of pollmux, and `handleStatus`.
pub data Handler : Type 0 where
  connect_handler poll_handler delete_handler web_socket_handler resume_handler : Handler
  status_handler : Handler

-- A template of a path and a method, and whether the handler stands behind AuthMiddleware.
pub record Route : Type 0 where
  pub template : Bytes
  pub method : Bytes
  pub guarded : Bool
  pub handler : Handler

abbrev tunnel_route : Bytes → Bytes → Handler → Route
tunnel_route template method handler = record {
  template = template;
  method = method;
  guarded = true;
  handler = handler;
}

abbrev pub status_route : Route
status_route = record {
  template = codes "/status";
  method = codes "GET";
  guarded = false;
  handler = status_handler;
}

unfoldable pub routes : Config → List Route
routes cfg =
    tunnel_route (codes "/tunnel/connect") (codes "POST") connect_handler
    ∷ tunnel_route (codes "/tunnel/{id}/poll") (codes "POST") poll_handler
    ∷ tunnel_route (codes "/tunnel/{id}") (codes "DELETE") delete_handler
    ∷ tunnel_route (codes "/tunnel/{id}/ws") (codes "GET") web_socket_handler
    ∷ tunnel_route (codes "/tunnel/{id}/resume") (codes "POST") resume_handler
    ∷ (if cfg.status_endpoint_enabled then status_route ∷ [] else [])

-- What the router finds: a route with the id of its template, which is empty where the template has none,
-- no route, or an answer of its own (another method, a path that is not clean).
pub data Match : Type 0 where
  found : Route → Bytes → Match
  no_route : Match
  router_answers : Match

-- The router over the routes, of a method and a path. It finds none but those it was given.
pub record Router : Type 0 where
  pub find : List Route → Bytes → Bytes → Match
  pub found_is_given :
      (rs : List Route) (method path id : Bytes) (r : Route)
      → find rs method path ≡ found r id
      → Memᴰ r rs

pub data Reply : Type 0 where
  reaches : Handler → Bytes → Reply
  redirects : Bytes → Reply
  refuses : Reply
  not_found : Reply
  router_answer : Reply

-- A handler behind AuthMiddleware.
unfoldable pub guard : Config → Request → Reply → Reply
guard cfg r next =
    elim (auth_middleware (choose_authenticator cfg.auth_enabled cfg.auth_token)
      cfg.unauthorized_redirect_enabled cfg.unauthorized_redirect_url r) [
        | serve_next ↦ next
        | redirect url ↦ redirects url
        | unauthorized ↦ refuses
      ]

-- `handleUnauthorizedRedirect`.
unfoldable pub handle_unauthorized_redirect : Config → Request → Reply
handle_unauthorized_redirect cfg r = redirects (build_redirect_url cfg.unauthorized_redirect_url r)

-- The NotFoundHandler, or the router's own.
unfoldable pub answer_not_found : Config → Request → Reply
answer_not_found cfg r =
    if cfg.unauthorized_redirect_enabled && not (bytes_eq cfg.unauthorized_redirect_url [])
    then handle_unauthorized_redirect cfg r
    else not_found

unfoldable pub route_request : Router → Config → Request → Bytes → Bytes → Reply
route_request router cfg r method path = elim (router.find (routes cfg) method path) [
  | found route id ↦
      if route.guarded then guard cfg r (reaches route.handler id) else reaches route.handler id
  | no_route ↦ answer_not_found cfg r
  | router_answers ↦ router_answer
]

-- What the wrapper of the poll handler does behind it: `cancelled` says whether the request's context has
-- an error then.
unfoldable pub after_reply :
    (Bytes → Option PollSession) → ℕ → Bool → List (Bytes × ℕ) → Reply → List (Bytes × ℕ)
after_reply store now cancelled polls (reaches poll_handler id) =
    if cancelled then mark_broken_poll store now polls id else polls
after_reply store now cancelled polls (reaches connect_handler id) = polls
after_reply store now cancelled polls (reaches delete_handler id) = polls
after_reply store now cancelled polls (reaches web_socket_handler id) = polls
after_reply store now cancelled polls (reaches resume_handler id) = polls
after_reply store now cancelled polls (reaches status_handler id) = polls
after_reply store now cancelled polls (redirects url) = polls
after_reply store now cancelled polls refuses = polls
after_reply store now cancelled polls not_found = polls
after_reply store now cancelled polls router_answer = polls
