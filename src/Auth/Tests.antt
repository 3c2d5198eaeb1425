-- ===== src/Auth/Tests.antt =====
-- The middleware on concrete requests.
use http_broker.Base.{◌≡◌, refl, ◌≢◌, ◌↔◌, ◌⊎◌, true, false, ◌++◌, Bytes, codes, has_prefix}
use http_broker.Auth.{
  Request, auth_middleware, choose_authenticator, serve_next, bearer_prefix, auth_middleware_serves,
  build_redirect_url, build_redirect_url_domain,
}
use http_broker.Scrubber.Text.{to_lower}

abbrev request : Request
request = record { authorization = codes "Bearer k"; forwarded_proto = codes "HTTPS"; tls = false }

auth_middleware_serves_example :
    (auth_middleware (choose_authenticator true (codes "k")) true (codes "/login") request
      ≡ serve_next)
    ↔ (request.authorization ≡ bearer_prefix ++ codes "k")
auth_middleware_serves_example =
    auth_middleware_serves (codes "k") (codes "/login") true request (λ e. cc)

abbrev domain : Bytes
domain = codes "example.com"

domain-prefixes :
    (has_prefix domain (codes "/") ≡ false)
    × (has_prefix domain (codes "http://") ≡ false)
    × (has_prefix domain (codes "https://") ≡ false)
unfolding has_prefix
domain-prefixes = (refl, refl, refl)

build_redirect_url_domain_example :
    ((build_redirect_url domain request ≡ codes "https://" ++ domain)
      × ((to_lower request.forwarded_proto ≡ codes "https")
          ⊎ ((to_lower request.forwarded_proto ≢ codes "http") × (request.tls ≡ true))))
    ⊎ ((build_redirect_url domain request ≡ codes "http://" ++ domain)
        × ((to_lower request.forwarded_proto ≡ codes "http")
            ⊎ ((to_lower request.forwarded_proto ≢ codes "https") × (request.tls ≡ false))))
build_redirect_url_domain_example =
    build_redirect_url_domain domain request (λ e. cc) domain-prefixes.0 domain-prefixes.1
      domain-prefixes.2
