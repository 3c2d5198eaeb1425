-- ===== src/Scrubber/Headers.antt =====
-- `looksLikeHTTPRequest`, `shouldRemoveLine` and `scrubProxyHeaders` of
-- internal/provider/scrubber.go.
use http_broker.Base.{
  ◌≡◌, refl, Bool, true, false, ◌&&◌, List, [], ◌∷◌, ◌++◌, Bytes, codes, bytes_eq, has_prefix, ltb,
  leb, if◌then◌else◌, length, take,
}
use http_broker.Scrubber.Text.{split_lines, join_lines, equal_fold}

abbrev pub proxy_headers : List Bytes
proxy_headers =
    codes "X-Forwarded-For"
    ∷ codes "X-Real-IP"
    ∷ codes "Via"
    ∷ codes "Forwarded"
    ∷ codes "Proxy-Connection"
    ∷ codes "Proxy-Authorization"
    ∷ codes "X-Proxy-ID"
    ∷ []

abbrev pub http_methods : List Bytes
http_methods =
    codes "GET "
    ∷ codes "POST "
    ∷ codes "PUT "
    ∷ codes "DELETE "
    ∷ codes "HEAD "
    ∷ codes "OPTIONS "
    ∷ codes "PATCH "
    ∷ codes "CONNECT "
    ∷ []

-- One round of the loop over the methods.
unfoldable pub starts_method : Bytes → Bytes → Bool
unfolding bytes_eq has_prefix
starts_method p method =
    if ltb (length p) (length method)
    then bytes_eq p (take (length p) method)
    else has_prefix p method

unfoldable pub starts_any : List Bytes → Bytes → Bool
unfolding starts_method
starts_any [] p = false
starts_any (m ∷ ms) p = if starts_method p m then true else starts_any ms p

unfoldable pub looks_like_http_request : Bytes → Bool
looks_like_http_request p = starts_any http_methods p

unfoldable pub names_header : List Bytes → Bytes → Bool
unfolding equal_fold
names_header [] line = false
names_header (h ∷ hs) line =
    let prefix = h ++ b':' ∷ [] in
    if leb (length prefix) (length line) && equal_fold (take (length prefix) line) prefix
    then true
    else names_header hs line

unfoldable pub should_remove_line : Bytes → Bool
should_remove_line line = names_header proxy_headers line

-- The lines that the loop appends to `result`.
unfoldable pub kept_lines : List Bytes → List Bytes
kept_lines [] = []
kept_lines (l ∷ ls) = let rest = kept_lines ls in if should_remove_line l then rest else l ∷ rest

unfoldable pub scrub_proxy_headers : Bytes → Bytes
scrub_proxy_headers header_bytes = join_lines (kept_lines (split_lines header_bytes))

detects :
    (looks_like_http_request (codes "GE") ≡ true)
    × (looks_like_http_request (codes "PATCH /x") ≡ true)
    × (looks_like_http_request (codes "GOT ") ≡ false)
unfolding looks_like_http_request starts_any
detects = (refl, refl, refl)

scrubs :
    scrub_proxy_headers (codes "GET / HTTP/1.1\r\nvia: a\r\nHost: b\r\n\r\n")
    ≡ codes "GET / HTTP/1.1\r\nHost: b\r\n\r\n"
unfolding scrub_proxy_headers split_lines join_lines kept_lines should_remove_line names_header
scrubs = refl
