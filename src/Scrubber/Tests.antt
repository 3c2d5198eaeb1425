-- ===== src/Scrubber/Tests.antt =====
-- Runs of the scrubber on concrete requests.
use http_broker.Base.{
  ◌≡◌, refl, ◌⊎◌, inl, true, false, some, List, [], ◌∷◌, ◌++◌, Bytes, codes, has_prefix, arith, All,
  length,
}
use http_broker.Scrubber.Headers.{
  looks_like_http_request, starts_any, scrub_proxy_headers, should_remove_line, names_header,
}
use http_broker.Scrubber.Text.{index, index_byte, split_lines, cut, crlf, trim_right_cr, trim_space}
use http_broker.Scrubber.Body.{body_length, body_plan, note_lines, note_line, note_header}
use http_broker.Scrubber.Conn.{
  Wrote, new_scrub_conn, header_end, write, inspect, absorb_after, absorb_header_bytes,
}
use http_broker.Scrubber.Contract.{IsValid, write_accepts_all}
use http_broker.Scrubber.Stream.{Stream, sink, sink-KeepsContract, feed}
use http_broker.Scrubber.Chunks.{feed_all, joined, FitsHeader, feed_all-joined}
use http_broker.Scrubber.Lines.{IsKept, scrub_header_end}
use http_broker.Scrubber.Proxies.{
  NamesProxy, lines_name_none, scrub_removes_proxies, scrub_keeps_others,
}
use http_broker.Scrubber.Requests.{
  Request, IsRequest, AtBoundary, sent_as_written, scrubbed, feed_all-requests,
}

-- A post whose second header names a proxy.
abbrev post_header : Bytes
post_header = codes "POST / HTTP/1.1\r\nVia: a\r\nContent-Length: 2\r\n\r\n"

abbrev post : Request
post = record { header = post_header; body = codes "ok" }

abbrev fresh : Stream
fresh = new_scrub_conn []

post-starts : looks_like_http_request post_header ≡ true
unfolding looks_like_http_request starts_any
post-starts = refl

post-ends : index post_header header_end ≡ some 42
unfolding index has_prefix
post-ends = refl

post-plan : body_plan post_header ≡ (2, body_length)
unfolding body_plan note_lines note_line trim_right_cr index_byte trim_space note_header
post-plan = refl

post-IsRequest : IsRequest post
post-IsRequest = record {
  starts = post-starts;
  last = 42;
  ends = post-ends;
  whole = refl;
  announced = inl post-plan;
}

-- The request in two writes that cut the header in two.
abbrev two_writes : List Bytes
two_writes = codes "POST / HT" ∷ codes "TP/1.1\r\nVia: a\r\nContent-Length: 2\r\n\r\nok" ∷ []

first_held : length (feed fresh (codes "POST / HT")).buf ≡ 9
unfolding feed new_scrub_conn write inspect looks_like_http_request starts_any absorb_after
    absorb_header_bytes index
first_held = refl

two_writes-FitsHeader : FitsHeader fresh two_writes
unfolding new_scrub_conn
two_writes-FitsHeader = (omega arith, (omega (arith, first_held), tt))

two_writes-joined : joined two_writes ≡ sent_as_written (post ∷ [])
unfolding joined sent_as_written
two_writes-joined = refl

fresh-AtBoundary : AtBoundary fresh
unfolding new_scrub_conn
fresh-AtBoundary = (refl, refl, refl)

feed_all-requests_example :
    feed_all fresh two_writes ≡ record fresh { conn = fresh.conn ++ scrubbed (post ∷ []) }
feed_all-requests_example =
    feed_all-requests fresh (post ∷ []) two_writes fresh-AtBoundary (post-IsRequest, tt)
      two_writes-joined two_writes-FitsHeader

feed_all-joined_example : feed_all fresh two_writes ≡ feed fresh (joined two_writes)
feed_all-joined_example = feed_all-joined fresh two_writes two_writes-FitsHeader

write_accepts_all_example :
    (w : Wrote Stream) × (write sink 47 fresh post_header ≡ some w)
    × ((w.failed ≡ true) ⊎ ((w.n ≡ length post_header) × IsValid w.state))
unfolding new_scrub_conn
write_accepts_all_example =
    write_accepts_all sink sink-KeepsContract 47 fresh post_header (inl refl) (omega arith)

scrub_removes_proxies_example :
    All (λ line. ¬ NamesProxy line) (split_lines (scrub_proxy_headers post_header))
scrub_removes_proxies_example = scrub_removes_proxies post_header

-- A header that names no proxy.
abbrev plain_header : Bytes
plain_header = codes "GET / HTTP/1.1\r\nHost: b\r\n\r\n"

plain-IsKept : All IsKept (split_lines plain_header)
unfolding split_lines cut has_prefix should_remove_line names_header
plain-IsKept = (refl, (refl, (refl, (refl, tt))))

scrub_keeps_others_example : scrub_proxy_headers plain_header ≡ plain_header
scrub_keeps_others_example =
    scrub_keeps_others plain_header (lines_name_none (split_lines plain_header) plain-IsKept)

abbrev two_lines : Bytes
two_lines = codes "GET / HTTP/1.1\r\nVia: a"

two_lines-kept : should_remove_line (cut two_lines 0).0 ≡ false
unfolding cut has_prefix should_remove_line names_header
two_lines-kept = refl

scrub_header_end_example :
    (t : Bytes) × (scrub_proxy_headers (two_lines ++ crlf ++ crlf) ≡ t ++ crlf ++ crlf)
scrub_header_end_example = scrub_header_end two_lines two_lines-kept
