-- ===== src/Tunnel/Whole.antt =====
-- A request on its whole way: Dial of internal/consumer/dialer.go, bridgeStream and bridgeConns of
-- internal/broker/relay.go and Handle of internal/provider/handler.go, one after the other.
use http_broker.Base.{
  ℕ, suc, ◌+◌, ◌≡◌, ap, ◌∙◌, sym, ◌<◌, ◌≤◌, true, some, List, [], ◌++◌, Bytes, length, All,
}
use http_broker.Scrubber.Conn.{max_header_bytes, new_scrub_conn}
use http_broker.Scrubber.Stream.{sink}
use http_broker.Scrubber.Requests.{Request, IsRequest, sent_as_written, scrubbed}
use http_broker.Tunnel.Address.{
  address_header, dial, dialed, bridge_stream, bridged, address_end_to_end,
}
use http_broker.Tunnel.Bridge as Bridge
use http_broker.Tunnel.Bridge.{
  Bridge, bridge_conns, turns_to_a, turns_to_b, open_copy, delivered, bridge_conns_delivers,
}
use http_broker.Provider.Copying as Copying
use http_broker.Provider.Copying.{Copies, scrubbing, handle_stream}
use http_broker.Provider.Delivery.{upload_sizes, download_sizes}
use http_broker.Provider.Serving.{uploaded, handle_stream_scrubs}
use http_broker.Base.{Bool}

-- What the bridge of the broker leaves of a stream whose consumer sends `rest` behind the address, and
-- whose provider sends `back`.
abbrev pub bridged_with : Bytes → Bytes → List Bridge.Turn → Bridge
bridged_with rest back ts =
    bridge_conns (record { to_a = open_copy back; to_b = open_copy rest }) ts

abbrev pub sent_on : Bytes → Bytes → Bytes → List Bridge.Turn → Bytes
sent_on addr rest back ts = address_header addr ++ (bridged_with rest back ts).to_b.received

-- What the provider's two goroutines leave.
abbrev pub served_scrubbed : List Request → Bytes → Copies Bytes
served_scrubbed rs reply = record {
  up = uploaded (scrubbing (record (new_scrub_conn []) { conn = scrubbed rs }));
  down = delivered reply;
}

-- A consumer dials an address of at most 255 bytes and sends complete requests, over a broker that has a
-- provider and a provider that can dial the address and scrubs. The provider's stream carries the address
-- that the broker sends on and then what its bridge has delivered, and the bridge's other source is what
-- the provider has written to the stream. Then, in every interleaving of the two bridges in which each
-- goroutine runs more often than its source has bytes, and whatever the sizes of the provider's reads, as
-- long as the longest header and a read together are within `max_header_bytes`, every connection taking
-- all that is written to it: the dial and the broker's step before its bridge succeed with that address,
-- the target has received every body byte for byte and every header scrubbed, and the consumer has
-- received all that the target sent.
pub whole_tunnel :
    (addr back reply : Bytes) (rs : List Request) (reachable : Bytes → Bool) (limit : ℕ)
    (bs : List Bridge.Turn) (ts : List Copying.Turn) (served : Copies Bytes)
    → length addr ≤ 255
    → reachable addr ≡ true
    → All IsRequest rs
    → All (λ r. length r.header ≤ limit) rs
    → All (λ k. limit + suc k ≤ max_header_bytes) (upload_sizes ts)
    → length (sent_as_written rs) < length (turns_to_b bs)
    → length back < length (turns_to_a bs)
    → length (sent_as_written rs) < length (upload_sizes ts)
    → length reply < length (download_sizes ts)
    → handle_stream sink reachable true [] (sent_on addr (sent_as_written rs) back bs) reply ts
      ≡ some served
    → served.down.received ≡ back
    → (dial sink (λ c. c) (some []) addr ≡ dialed (address_header addr))
      × (bridge_stream sink (λ c. c) (some (some [])) (address_header addr ++ sent_as_written rs)
          ≡ bridged addr (sent_as_written rs) (address_header addr))
      × (served.up ≡ uploaded (scrubbing (record (new_scrub_conn []) { conn = scrubbed rs })))
      × ((bridged_with (sent_as_written rs) back bs).to_a ≡ delivered reply)
unfolding delivered
whole_tunnel addr back reply rs reachable limit bs ts served h r v m k tb ta lu ld e same =
    let rest = sent_as_written rs in
    let (d, b, p) = address_end_to_end addr rest reachable true h r in
    let bridge = bridge_conns_delivers bs rest back ta tb in
    let arrived = ap (λ (g : Bridge). g.to_b.received) bridge in
    let done = handle_stream_scrubs addr reply rs reachable limit ts h r v m k lu ld in
    let path : served ≡ served_scrubbed rs reply = cc (
      sym e
      ∙ ap (λ x. handle_stream sink reachable true [] (address_header addr ++ x) reply ts) arrived
      ∙ done) in
    let answer : back ≡ reply = sym same ∙ ap (λ (c : Copies Bytes). c.down.received) path in
    (
      d,
      b,
      ap (λ (c : Copies Bytes). c.up) path,
      ap (λ (g : Bridge). g.to_a) bridge ∙ ap delivered answer,
    )
