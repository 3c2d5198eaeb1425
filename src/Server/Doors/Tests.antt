-- ===== src/Server/Doors/Tests.antt =====
-- A router that takes paths literally, over a broker with a token.
use http_broker.Base.{
  ◌≡◌, refl, ◌⊎◌, inl, inr, Bool, true, false, ◌&&◌, List, [], ◌∷◌, ◌++◌, Bytes, bytes_eq, codes,
  if◌then◌else◌, Bool-cases, arith, Memᴰ,
}
use mathlib.Core.List.Memᴰ.{head, tail}
use http_broker.Auth.{Request, bearer_prefix}
use http_broker.Config.Settings.{zero_broker_config}
use http_broker.Config.Broker.{broker_config}
use http_broker.Server.Settings.{Config}
use http_broker.Server.Routes.{
  Route, Match, found, no_route, Router, routes, connect_handler, status_handler, reaches,
  route_request,
}
use http_broker.Server.Doors.{tunnel_needs_token, token_opens_route}

abbrev pub fits : Bytes → Bytes → Route → Bool
fits method path route = bytes_eq route.method method && bytes_eq route.template path

abbrev pub first_fit : List Route → Bytes → Bytes → Match
first_fit [] method path = no_route
first_fit (r ∷ rs) method path = if fits method path r then found r [] else first_fit rs method path

pub first_fit_is_given :
    (rs : List Route) (method path id : Bytes) (r : Route)
    → first_fit rs method path ≡ found r id
    → Memᴰ r rs
first_fit_is_given [] method path id r e = absurd (cc e)
first_fit_is_given (s ∷ rs) method path id r e = elim (Bool-cases (fits method path s)) [
  | inl fit ↦ head (ground (arith, e, fit))
  | inr other ↦ tail (first_fit_is_given rs method path id r (ground (arith, e, other)))
]

abbrev pub literal_router : Router
literal_router = record { find = first_fit; found_is_given = first_fit_is_given }

abbrev pub cfg : Config
cfg =
    broker_config (codes "1.0")
      (record zero_broker_config { auth = record { enabled = true; token = codes "t" } })

abbrev pub member : Request
member = record { authorization = codes "Bearer t"; forwarded_proto = []; tls = false }

abbrev pub stranger : Request
stranger = record member { authorization = [] }

connect_found :
    first_fit (routes cfg) (codes "POST") (codes "/tunnel/connect")
    ≡ found
        (record {
          template = codes "/tunnel/connect";
          method = codes "POST";
          guarded = true;
          handler = connect_handler;
        })
        []
unfolding routes bytes_eq
connect_found = refl

member_reaches :
    route_request literal_router cfg member (codes "POST") (codes "/tunnel/connect")
    ≡ reaches connect_handler []
unfolding broker_config
member_reaches =
    token_opens_route literal_router cfg member (codes "POST") (codes "/tunnel/connect") []
      (record {
        template = codes "/tunnel/connect";
        method = codes "POST";
        guarded = true;
        handler = connect_handler;
      })
      (inr (inr refl)) connect_found

tunnel_needs_token_example :
    (member.authorization ≡ bearer_prefix ++ cfg.auth_token)
    ⊎ ((connect_handler ≡ status_handler) × (cfg.status_endpoint_enabled ≡ true))
unfolding broker_config
tunnel_needs_token_example =
    tunnel_needs_token literal_router cfg member (codes "POST") (codes "/tunnel/connect")
      connect_handler [] refl (λ e. cc e) member_reaches
