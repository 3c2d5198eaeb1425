-- ===== src/Auth.antt =====
-- internal/broker/middleware.go: authentication of requests and the redirect of those refused.
mod Tests
use http_broker.Base.{
  ◌≡◌, sym, ap, ◌∙◌, ◌≢◌, ◌↔◌, ◌⊎◌, inl, inr, Bool, true, false, not, ◌&&◌, ◌||◌, Option, none,
  some, [], ◌++◌, Bytes, codes, bytes_eq, bytes_eq_iff, has_prefix, has_prefix_sound,
  has_prefix-append, if◌then◌else◌, Bool-cases, arith, length, drop,
}
use http_broker.Scrubber.Text.{to_lower}

-- What the code reads of a request: two headers, empty where absent, and whether `r.TLS` is set.
pub record Request : Type 0 where
  pub authorization : Bytes
  pub forwarded_proto : Bytes
  pub tls : Bool

pub data AuthError : Type 0 where
  missing_header invalid_format empty_token invalid_token : AuthError

pub data Authenticator : Type 0 where
  noop : Authenticator
  token_authenticator : Bytes → Authenticator

abbrev pub bearer_prefix : Bytes
bearer_prefix = codes "Bearer "

-- `(*TokenAuthenticator).Authenticate`; `none` is the nil error. The constant-time comparison answers
-- what a comparison of the bytes answers.
unfoldable pub check_token : Bytes → Request → Option AuthError
check_token expected r =
    let header = r.authorization in
    let token = drop (length bearer_prefix) header in
    if bytes_eq header []
    then some missing_header
    else if not (has_prefix header bearer_prefix)
    then some invalid_format
    else if bytes_eq token []
    then some empty_token
    else if not (bytes_eq token expected)
    then some invalid_token
    else none

-- `Authenticate` of the two authenticators.
unfoldable pub authenticate : Authenticator → Request → Option AuthError
authenticate noop r = none
authenticate (token_authenticator token) r = check_token token r

-- `buildRedirectURL`.
unfoldable pub redirect_scheme : Request → Bytes
redirect_scheme r =
    let scheme = if r.tls then codes "https" else codes "http" in
    let proto = to_lower r.forwarded_proto in
    if bytes_eq proto (codes "http") || bytes_eq proto (codes "https") then proto else scheme

unfoldable pub build_redirect_url : Bytes → Request → Bytes
build_redirect_url configured r =
    if bytes_eq configured []
    then codes "/"
    else if has_prefix configured (codes "/")
    then configured
    else if has_prefix configured (codes "http://") || has_prefix configured (codes "https://")
    then configured
    else redirect_scheme r ++ codes "://" ++ configured

-- What `AuthMiddleware` does with a request.
pub data Outcome : Type 0 where
  serve_next : Outcome
  redirect : Bytes → Outcome
  unauthorized : Outcome

unfoldable pub auth_middleware : Authenticator → Bool → Bytes → Request → Outcome
auth_middleware auth redirect_enabled redirect_url r = elim (authenticate auth r) [
  | none ↦ serve_next
  | some e ↦
      if redirect_enabled && not (bytes_eq redirect_url [])
      then redirect (build_redirect_url redirect_url r)
      else unauthorized
]

-- `NewServer`'s choice of the authenticator.
unfoldable pub choose_authenticator : Bool → Bytes → Authenticator
choose_authenticator auth_enabled auth_token =
    if auth_enabled
    then if bytes_eq auth_token [] then noop else token_authenticator auth_token
    else noop

bearer_split :
    (h : Bytes)
    → has_prefix h bearer_prefix ≡ true
    → h ≡ bearer_prefix ++ drop (length bearer_prefix) h
bearer_split h e = go (has_prefix_sound h bearer_prefix e)
  where
    go :
        ((t : Bytes) × (h ≡ bearer_prefix ++ t))
        → h ≡ bearer_prefix ++ drop (length bearer_prefix) h
    go (t, f) = f ∙ ap (◌++◌ bearer_prefix) (sym (ap (drop (length bearer_prefix)) f))

check_token_accepts :
    (t : Bytes) (r : Request)
    → check_token t r ≡ none
    → (r.authorization ≡ bearer_prefix ++ t) × (t ≢ [])
check_token_accepts t r h =
    let token = drop (length bearer_prefix) r.authorization in
    unfold check_token in
    (
      ground (arith, bearer_split r.authorization, bytes_eq_iff token t),
      ground (arith, bytes_eq_iff token t, bytes_eq_iff token []),
    )

check_token_complete :
    (t : Bytes) (r : Request)
    → r.authorization ≡ bearer_prefix ++ t
    → t ≢ []
    → check_token t r ≡ none
unfolding check_token
check_token_complete t r e k = ground (
  arith,
  ap (λ h. bytes_eq h []) e,
  ap (λ h. has_prefix h bearer_prefix) e,
  ap (drop (length bearer_prefix)) e,
  has_prefix-append bearer_prefix t,
  bytes_eq_iff (bearer_prefix ++ t) [],
  bytes_eq_iff t [],
  bytes_eq_iff t t,
)

-- With authentication enabled and a token configured that is not empty, the middleware lets a
-- request through exactly if its header is "Bearer " and that token, every byte of it.
pub auth_middleware_serves :
    (token url : Bytes) (enabled : Bool) (r : Request)
    → token ≢ []
    → (auth_middleware (choose_authenticator true token) enabled url r ≡ serve_next)
      ↔ (r.authorization ≡ bearer_prefix ++ token)
unfolding auth_middleware choose_authenticator authenticate
auth_middleware_serves token url enabled r k = (
  λ h. (check_token_accepts token r (ground (arith, bytes_eq_iff token []))).0,
  λ e. ground (arith, check_token_complete token r e k, bytes_eq_iff token []),
)

abbrev SchemeCases : Request → Bytes → Type 0
SchemeCases r scheme =
    ((scheme ≡ codes "https")
      × ((to_lower r.forwarded_proto ≡ codes "https")
          ⊎ ((to_lower r.forwarded_proto ≢ codes "http") × (r.tls ≡ true))))
    ⊎ ((scheme ≡ codes "http")
        × ((to_lower r.forwarded_proto ≡ codes "http")
            ⊎ ((to_lower r.forwarded_proto ≢ codes "https") × (r.tls ≡ false))))

redirect_scheme_cases : (r : Request) → SchemeCases r (redirect_scheme r)
redirect_scheme_cases r =
    let proto = to_lower r.forwarded_proto in
    let http_iff = bytes_eq_iff proto (codes "http") in
    let https_iff = bytes_eq_iff proto (codes "https") in
    unfold redirect_scheme in
    elim (Bool-cases (bytes_eq proto (codes "http"))) [
      | inl h ↦ inr (ground (arith, h), inl (http_iff.0 h))
      | inr h ↦ elim (Bool-cases (bytes_eq proto (codes "https"))) [
        | inl s ↦ inl (ground (arith, h, s, https_iff.0 s), inl (https_iff.0 s))
        | inr s ↦ elim (Bool-cases r.tls) [
          | inl l ↦ inl (ground (arith, h, s), inr (λ e. cc (http_iff.1 e), l))
          | inr l ↦ inr (ground (arith, h, s), inr (λ e. cc (https_iff.1 e), l))
        ]
      ]
    ]

-- The redirect of a configured text that is not empty and starts neither with a slash nor with a
-- scheme goes to that text under "http" or "https", whatever the client's header says: "https" under
-- that header's word, or under TLS where the header does not say "http"; "http" under that header's
-- word, or without TLS where the header does not say "https".
pub build_redirect_url_domain :
    (configured : Bytes) (r : Request)
    → configured ≢ []
    → has_prefix configured (codes "/") ≡ false
    → has_prefix configured (codes "http://") ≡ false
    → has_prefix configured (codes "https://") ≡ false
    → ((build_redirect_url configured r ≡ codes "https://" ++ configured)
        × ((to_lower r.forwarded_proto ≡ codes "https")
            ⊎ ((to_lower r.forwarded_proto ≢ codes "http") × (r.tls ≡ true))))
      ⊎ ((build_redirect_url configured r ≡ codes "http://" ++ configured)
          × ((to_lower r.forwarded_proto ≡ codes "http")
              ⊎ ((to_lower r.forwarded_proto ≢ codes "https") × (r.tls ≡ false))))
build_redirect_url_domain configured r k a b c = elim (redirect_scheme_cases r) [
  | inl (e, why) ↦ inl (url e, why)
  | inr (e, why) ↦ inr (url e, why)
]
  where
    url :
        {scheme : Bytes}
        → redirect_scheme r ≡ scheme
        → build_redirect_url configured r ≡ scheme ++ codes "://" ++ configured
    url e = unfold build_redirect_url in ground (arith, e, bytes_eq_iff configured [])
