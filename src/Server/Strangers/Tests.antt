-- ===== src/Server/Strangers/Tests.antt =====
-- A run of requests over a broker with a token: two strangers and a member.
use http_broker.Base.{
  ℕ, ◌≡◌, refl, true, false, Option, some, List, [], ◌∷◌, Bytes, codes, length, bytes_eq,
  has_prefix, insert,
}
use http_broker.Auth.{auth_middleware, authenticate, choose_authenticator, check_token}
use http_broker.Config.Broker.{broker_config}
use http_broker.Server.Reaper.{PollSession, mark_broken_poll, is_exempt}
use http_broker.Server.Routes.{Handler, route_request, after_reply, routes, guard}
use http_broker.Server.Doors.Tests.{literal_router, cfg, member, stranger}
use http_broker.Server.Strangers.{
  Visit, World, serve_visit, serve_visits, token_answers, effect, with_token,
  strangers_change_nothing,
}

-- The tunnel's state is the paths it has served.
abbrev log : Handler → Bytes → Visit → List Bytes → List Bytes
log h id v served = v.path ∷ served

-- An answer is how many it has served.
abbrev seen : Handler → Bytes → Visit → List Bytes → ℕ
seen h id v served = length served

abbrev store_of : List Bytes → Bytes → Option PollSession
store_of served id = some (record { closed = false; resumable = false })

abbrev member_visit : Visit
member_visit = record {
  request = member;
  method = codes "POST";
  path = codes "/tunnel/{id}/poll";
  cancelled = true;
  now = 7;
}

abbrev visits : List Visit
visits =
    record member_visit { request = stranger }
    ∷ member_visit
    ∷ record member_visit { request = stranger; now = 9 }
    ∷ []

abbrev nothing : World (List Bytes)
nothing = record { tunnel = []; polls = [] }

strangers_change_nothing_example :
    (serve_visits log seen store_of literal_router cfg nothing visits
      ≡ serve_visits log seen store_of literal_router cfg nothing (with_token cfg visits))
    × (token_answers log seen store_of literal_router cfg nothing visits
        ≡ token_answers log seen store_of literal_router cfg nothing (with_token cfg visits))
unfolding broker_config
strangers_change_nothing_example =
    strangers_change_nothing log seen store_of literal_router cfg nothing visits refl (λ e. cc e)

-- The member alone is served and marked.
visits_leave :
    serve_visits log seen store_of literal_router cfg nothing visits
    ≡ record { tunnel = codes "/tunnel/{id}/poll" ∷ []; polls = ([], 7) ∷ [] }
unfolding broker_config serve_visits serve_visit effect route_request after_reply routes bytes_eq
    guard auth_middleware authenticate choose_authenticator check_token has_prefix mark_broken_poll
    is_exempt insert
visits_leave = refl
