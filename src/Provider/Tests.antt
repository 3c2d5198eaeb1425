-- ===== src/Provider/Tests.antt =====
-- A stream with one request, served by the provider in one interleaving.
use http_broker.Base.{
  All, ℕ, zero, suc, ◌≡◌, refl, ◌+◌, ◌≤◌, ap, ◌∙◌, inr, true, some, List, [], ◌∷◌, ◌++◌, Bytes,
  codes, arith, has_prefix,
}
use http_broker.Scrubber.Text.{index, index_byte, trim_right_cr, trim_space}
use http_broker.Scrubber.Headers.{looks_like_http_request, starts_any}
use http_broker.Scrubber.Body.{body_none, body_plan, note_lines, note_line, note_header}
use http_broker.Scrubber.Conn.{max_header_bytes, new_scrub_conn, header_end}
use http_broker.Scrubber.Stream.{sink, sink-KeepsContract}
use http_broker.Scrubber.Requests.{Request, IsRequest, sent_as_written, scrubbed}
use http_broker.Tunnel.Whole.{bridged_with, sent_on, served_scrubbed, whole_tunnel}
use http_broker.Tunnel.Bridge as Bridge
use http_broker.Tunnel.Bridge.{
  Bridge, a_to_b, b_to_a, turns_to_a, turns_to_b, bridge_conns_delivers,
}
use http_broker.Tunnel.Address.{dial, dialed, bridge_stream, bridged, address_header}
use http_broker.Tunnel.Bridge.{delivered}
use http_broker.Provider.Copying.{
  scrubbing, Turn, uploads, downloads, copies, start_copies, handle_stream,
}
use http_broker.Provider.Delivery.{upload_sizes, download_sizes, copies_end}
use http_broker.Provider.Serving.{uploaded, handle_stream_scrubs}

abbrev target : Bytes
target = codes "web:80"

abbrev get : Request
get = record { header = codes "GET / HTTP/1.1\r\nVia: a\r\n\r\n"; body = [] }

get-starts : looks_like_http_request get.header ≡ true
unfolding looks_like_http_request starts_any
get-starts = refl

get-ends : index get.header header_end ≡ some 22
unfolding index has_prefix
get-ends = refl

get-plan : body_plan get.header ≡ (0, body_none)
unfolding body_plan note_lines note_line trim_right_cr index_byte trim_space note_header
get-plan = refl

get-IsRequest : IsRequest get
get-IsRequest = record {
  starts = get-starts;
  last = 22;
  ends = get-ends;
  whole = refl;
  announced = inr (get-plan, refl);
}

-- Both goroutines by turns, with reads of at most 64 bytes.
abbrev by_turns : ℕ → List Turn
by_turns zero = []
by_turns (suc n) = uploads 63 ∷ downloads 63 ∷ by_turns n

abbrev ts : List Turn
ts = by_turns 30

by_turns-short : (n : ℕ) → All (λ k. 32768 + suc k ≤ max_header_bytes) (upload_sizes (by_turns n))
unfolding upload_sizes
by_turns-short zero = tt
by_turns-short (suc n) = (omega arith, by_turns-short n)

handle_stream_scrubs_example :
    handle_stream sink
      (λ a. true)
      true
      []
      (address_header target ++ sent_as_written (get ∷ []))
      (codes "ok")
      ts
    ≡ some (record {
      up = uploaded (scrubbing (record (new_scrub_conn []) { conn = scrubbed (get ∷ []) }));
      down = delivered (codes "ok");
    })
unfolding sent_as_written upload_sizes download_sizes
handle_stream_scrubs_example =
    handle_stream_scrubs target (codes "ok") (get ∷ []) (λ a. true) 32768 ts (omega arith) refl
      (get-IsRequest, tt) (omega arith, tt) (by_turns-short 30) (omega arith) (omega arith)

copies_end_example :
    let left = copies sink (start_copies sink true [] (codes "hi") (codes "ok")) ts in
    (left.up.finished ≡ true) × (left.up.half_closed ≡ true) × (left.down ≡ delivered (codes "ok"))
unfolding upload_sizes download_sizes
copies_end_example =
    copies_end sink sink-KeepsContract true [] (codes "hi") (codes "ok") ts (omega arith)
      (omega arith)

-- The broker's bridge by turns.
abbrev bridge_by_turns : ℕ → List Bridge.Turn
bridge_by_turns zero = []
bridge_by_turns (suc n) = a_to_b 63 ∷ b_to_a 63 ∷ bridge_by_turns n

abbrev bs : List Bridge.Turn
bs = bridge_by_turns 30

bridge-passes_get :
    (bridged_with (sent_as_written (get ∷ [])) (codes "ok") bs).to_b.received
    ≡ sent_as_written (get ∷ [])
unfolding delivered sent_as_written turns_to_a turns_to_b
bridge-passes_get =
    ap (λ (g : Bridge). g.to_b.received)
      (bridge_conns_delivers bs (sent_as_written (get ∷ [])) (codes "ok") (omega arith)
        (omega arith))

get-served :
    handle_stream sink
      (λ a. true)
      true
      []
      (sent_on target (sent_as_written (get ∷ [])) (codes "ok") bs)
      (codes "ok")
      ts
    ≡ some (served_scrubbed (get ∷ []) (codes "ok"))
get-served =
    ap (λ x. handle_stream sink (λ a. true) true [] (address_header target ++ x) (codes "ok") ts)
      bridge-passes_get
    ∙ handle_stream_scrubs_example

whole_tunnel_example :
    (dial sink (λ c. c) (some []) target ≡ dialed (address_header target))
    × (bridge_stream sink
          (λ c. c)
          (some (some []))
          (address_header target ++ sent_as_written (get ∷ []))
        ≡ bridged target (sent_as_written (get ∷ [])) (address_header target))
    × ((served_scrubbed (get ∷ []) (codes "ok")).up
        ≡ uploaded (scrubbing (record (new_scrub_conn []) { conn = scrubbed (get ∷ []) })))
    × ((bridged_with (sent_as_written (get ∷ [])) (codes "ok") bs).to_a ≡ delivered (codes "ok"))
unfolding sent_as_written upload_sizes download_sizes turns_to_a turns_to_b delivered
whole_tunnel_example =
    whole_tunnel target (codes "ok") (codes "ok") (get ∷ []) (λ a. true) 32768 bs ts
      (served_scrubbed (get ∷ []) (codes "ok")) (omega arith) refl (get-IsRequest, tt)
      (omega arith, tt) (by_turns-short 30) (omega arith) (omega arith) (omega arith) (omega arith)
      get-served refl
