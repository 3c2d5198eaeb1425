-- ===== src/Provider/Serving.antt =====
-- What a target that takes every byte has received when `Handle` of internal/provider/handler.go is done,
-- from the address header that the broker sends on to the last request.
use http_broker.Base.{
  ℕ, suc, ◌+◌, ◌≤◌, ◌<◌, ◌≡◌, refl, ap, ◌∙◌, sym, Bool, true, false, some, List, [], ◌∷◌, ◌++◌,
  append-nil, append_assoc, Bytes, arith, length, take, drop, All, take-append-drop, length-drop,
  length-take,
}
use http_broker.Scrubber.Conn.{max_header_bytes, new_scrub_conn}
use http_broker.Scrubber.Stream.{sink, Stream, feed, write-pump}
use http_broker.Scrubber.Chunks.{feed-pump, feed_all, joined, FitsHeader}
use http_broker.Scrubber.Held.{short-FitsHeader}
use http_broker.Scrubber.Requests.{
  AtBoundary, Request, IsRequest, sent_as_written, scrubbed, feed_all-requests,
}
use http_broker.Tunnel.Address.{handle, address_header, read_address-header}
use http_broker.Tunnel.Bridge.{delivered, copy_turns-delivered}
use http_broker.Provider.Copying.{
  Writer, plain, scrubbing, new_writer, Upload, Turn, writer_write, upload_turn, copies,
  start_copies, handle_stream,
}
use http_broker.Provider.Delivery.{
  upload_sizes, download_sizes, upload_turns, upload_turns_finished, copies-splits,
}

-- The chunks that reads of given sizes cut from a stream.
unfoldable pub reads : List ℕ → Bytes → List Bytes
reads [] s = []
reads (k ∷ ks) [] = []
reads (k ∷ ks) (x ∷ s) = take (suc k) (x ∷ s) ∷ reads ks (drop (suc k) (x ∷ s))

joined-reads : (ks : List ℕ) (s : Bytes) → length s ≤ length ks → joined (reads ks s) ≡ s
unfolding joined reads
joined-reads [] [] h = refl
joined-reads [] (x ∷ s) h = absurd (omega arith)
joined-reads (k ∷ ks) [] h = refl
joined-reads (k ∷ ks) (x ∷ s) h =
    ap (◌++◌ (take (suc k) (x ∷ s)))
      (joined-reads ks (drop (suc k) (x ∷ s)) (omega (arith, length-drop (suc k) (x ∷ s))))
    ∙ take-append-drop (suc k) (x ∷ s)

-- One write, and many, to a target that takes every byte.
pass : Writer Bytes → Bytes → Writer Bytes
pass (plain c) p = plain (c ++ p)
pass (scrubbing s) p = scrubbing (feed s p)

pass_all : Writer Bytes → List Bytes → Writer Bytes
pass_all w [] = w
pass_all w (p ∷ ps) = pass_all (pass w p) ps

writer_write-pass :
    (w : Writer Bytes) (p : Bytes)
    → writer_write sink w p ≡ some (record { state = pass w p; n = length p; failed = false })
unfolding writer_write pass
writer_write-pass (plain c) p = refl
writer_write-pass (scrubbing s) p = ground (
  arith,
  write-pump (suc (length s.buf + length p)) s p (omega arith),
  feed-pump (suc (length s.buf + length p)) s p (omega arith),
)

abbrev uploading : Bytes → Writer Bytes → Upload Bytes
uploading s w = record { source = s; writer = w; half_closed = false; finished = false }

abbrev pub uploaded : Writer Bytes → Upload Bytes
uploaded w = record { source = []; writer = w; half_closed = true; finished = true }

upload_turn-pass :
    (k x : ℕ) (s : Bytes) (w : Writer Bytes)
    → upload_turn sink k (uploading (x ∷ s) w)
      ≡ uploading (drop (suc k) (x ∷ s)) (pass w (take (suc k) (x ∷ s)))
unfolding upload_turn
upload_turn-pass k x s w = ground (arith, writer_write-pass w (take (suc k) (x ∷ s)))

upload_turns-pass_all :
    (ks : List ℕ) (s : Bytes) (w : Writer Bytes)
    → length s < length ks
    → upload_turns sink ks (uploading s w) ≡ uploaded (pass_all w (reads ks s))
unfolding upload_turns reads pass_all upload_turn
upload_turns-pass_all [] s w h = absurd (omega arith)
upload_turns-pass_all (k ∷ ks) [] w h = upload_turns_finished sink ks (uploaded w) refl
upload_turns-pass_all (k ∷ ks) (x ∷ s) w h =
    ap (upload_turns sink ks) (upload_turn-pass k x s w)
    ∙ upload_turns-pass_all ks (drop (suc k) (x ∷ s)) (pass w (take (suc k) (x ∷ s)))
        (omega (arith, length-drop (suc k) (x ∷ s)))

pass_all-scrubbing :
    (s : Stream) (ps : List Bytes) → pass_all (scrubbing s) ps ≡ scrubbing (feed_all s ps)
unfolding pass_all pass feed_all
pass_all-scrubbing s [] = refl
pass_all-scrubbing s (p ∷ ps) = pass_all-scrubbing (feed s p) ps

pass_all-plain : (c : Bytes) (ps : List Bytes) → pass_all (plain c) ps ≡ plain (c ++ joined ps)
unfolding pass_all pass joined
pass_all-plain c [] = ap plain (sym (append-nil c))
pass_all-plain c (p ∷ ps) = pass_all-plain (c ++ p) ps ∙ ap plain (append_assoc c p (joined ps))

-- Reads that leave room for the longest header.
reads-short :
    (limit : ℕ) (ks : List ℕ) (s : Bytes)
    → All (λ k. limit + suc k ≤ max_header_bytes) ks
    → All (λ p. limit + length p ≤ max_header_bytes) (reads ks s)
unfolding reads
reads-short limit [] s h = tt
reads-short limit (k ∷ ks) [] h = tt
reads-short limit (k ∷ ks) (x ∷ s) h = (
  omega (arith, h.0, length-take (suc k) (x ∷ s)),
  reads-short limit ks (drop (suc k) (x ∷ s)) h.1,
)

-- Handle on an address that it can dial is its two goroutines on the bytes behind it.
handle_stream-header :
    (addr rest reply : Bytes) (reachable : Bytes → Bool) (scrub_headers : Bool) (ts : List Turn)
    → length addr ≤ 255
    → reachable addr ≡ true
    → handle_stream sink reachable scrub_headers [] (address_header addr ++ rest) reply ts
      ≡ some (copies sink (start_copies sink scrub_headers [] rest reply) ts)
unfolding handle_stream handle
handle_stream-header addr rest reply reachable scrub_headers ts h r =
    ground (arith, read_address-header addr rest h, r)

copies-delivered :
    (scrub_headers : Bool) (rest reply : Bytes) (ts : List Turn)
    → length rest < length (upload_sizes ts)
    → length reply < length (download_sizes ts)
    → copies sink (start_copies sink scrub_headers [] rest reply) ts ≡ record {
      up = uploaded (pass_all (new_writer scrub_headers []) (reads (upload_sizes ts) rest));
      down = delivered reply;
    }
unfolding start_copies
copies-delivered scrub_headers rest reply ts lu ld =
    copies-splits sink ts (start_copies sink scrub_headers [] rest reply)
    ∙ ap
        (λ d. record {
          up = upload_turns sink (upload_sizes ts) (uploading rest (new_writer scrub_headers []));
          down = d;
        })
        (copy_turns-delivered (download_sizes ts) reply ld)
    ∙ ap (λ u. record { up = u; down = delivered reply })
        (upload_turns-pass_all (upload_sizes ts) rest (new_writer scrub_headers []) lu)

new_scrub_conn-AtBoundary : AtBoundary (new_scrub_conn [])
unfolding new_scrub_conn
new_scrub_conn-AtBoundary = (refl, refl, refl)

passed_scrubbed :
    (rs : List Request) (ps : List Bytes)
    → All IsRequest rs
    → joined ps ≡ sent_as_written rs
    → FitsHeader (new_scrub_conn []) ps
    → pass_all (new_writer true []) ps
      ≡ scrubbing (record (new_scrub_conn []) { conn = scrubbed rs })
unfolding new_writer new_scrub_conn
passed_scrubbed rs ps v whole fits =
    pass_all-scrubbing (new_scrub_conn []) ps
    ∙ ap scrubbing
        (feed_all-requests (new_scrub_conn []) rs ps new_scrub_conn-AtBoundary v whole fits)

passed_plain : (ps : List Bytes) → pass_all (new_writer false []) ps ≡ plain (joined ps)
unfolding new_writer
passed_plain ps = pass_all-plain [] ps

-- A stream whose address has at most 255 bytes and can be dialled, and then carries complete requests,
-- through Handle with scrubbing, over a target that takes every byte: in every interleaving in which each
-- goroutine runs more often than its source has bytes, and whatever the sizes of the reads, as long as the
-- longest header and a read together are within `max_header_bytes`: the target has received every body
-- byte for byte and every header scrubbed, in order and nothing of the address, and is closed for writing;
-- the stream has received all that the target sent, and is closed.
pub handle_stream_scrubs :
    (addr reply : Bytes) (rs : List Request) (reachable : Bytes → Bool) (limit : ℕ) (ts : List Turn)
    → length addr ≤ 255
    → reachable addr ≡ true
    → All IsRequest rs
    → All (λ r. length r.header ≤ limit) rs
    → All (λ k. limit + suc k ≤ max_header_bytes) (upload_sizes ts)
    → length (sent_as_written rs) < length (upload_sizes ts)
    → length reply < length (download_sizes ts)
    → handle_stream sink reachable true [] (address_header addr ++ sent_as_written rs) reply ts
      ≡ some (record {
        up = uploaded (scrubbing (record (new_scrub_conn []) { conn = scrubbed rs }));
        down = delivered reply;
      })
handle_stream_scrubs addr reply rs reachable limit ts h r v m k lu ld =
    let ks = upload_sizes ts in
    let rest = sent_as_written rs in
    let whole : joined (reads ks rest) ≡ rest = joined-reads ks rest (omega arith) in
    let fits =
      short-FitsHeader limit (new_scrub_conn []) rs (reads ks rest) new_scrub_conn-AtBoundary v m
        (reads-short limit ks rest k) whole in
    handle_stream-header addr rest reply reachable true ts h r
    ∙ ap some (copies-delivered true rest reply ts lu ld)
    ∙ ap (λ w. some (record { up = uploaded w; down = delivered reply }))
        (passed_scrubbed rs (reads ks rest) v whole fits)

-- The same stream without scrubbing, whatever it carries: the target has received its bytes unchanged and
-- is closed for writing, and the stream has received all that the target sent and is closed.
pub handle_stream_forwards :
    (addr rest reply : Bytes) (reachable : Bytes → Bool) (ts : List Turn)
    → length addr ≤ 255
    → reachable addr ≡ true
    → length rest < length (upload_sizes ts)
    → length reply < length (download_sizes ts)
    → handle_stream sink reachable false [] (address_header addr ++ rest) reply ts
      ≡ some (record { up = uploaded (plain rest); down = delivered reply })
handle_stream_forwards addr rest reply reachable ts h r lu ld =
    let ps = reads (upload_sizes ts) rest in
    handle_stream-header addr rest reply reachable false ts h r
    ∙ ap some (copies-delivered false rest reply ts lu ld)
    ∙ ap (λ w. some (record { up = uploaded w; down = delivered reply }))
        (passed_plain ps ∙ ap plain (joined-reads (upload_sizes ts) rest (omega arith)))
