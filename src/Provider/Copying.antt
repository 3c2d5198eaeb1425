-- ===== src/Provider/Copying.antt =====
-- `Handle` of internal/provider/handler.go as a whole: the address and the dial of Tunnel/Address, then
-- its two goroutines, in any interleaving. A `Close` of a yamux stream ends its writing half only, as
-- yamux documents, so the other goroutine reads on.
use http_broker.Base.{
  ℕ, suc, ◌+◌, Bool, true, false, not, ◌||◌, Option, none, some, List, [], ◌∷◌, Bytes,
  if◌then◌else◌, ◌==◌, length, take, drop,
}
use http_broker.Scrubber.Conn.{Wrote, ScrubConn, new_scrub_conn, write}
use http_broker.Tunnel.Address.{handle, length_unread, address_unread, dial_failed, connected}
use http_broker.Tunnel.Bridge.{Copy, copy_turn, open_copy}

-- `targetWriter`.
pub data Writer (S : Type 0) : Type 0 where
  plain : S → Writer S
  scrubbing : ScrubConn S → Writer S

unfoldable pub new_writer : {S : Type 0} → Bool → S → Writer S
new_writer scrub_headers c = if scrub_headers then scrubbing (new_scrub_conn c) else plain c

-- The goroutine from the stream to the target: what the stream still delivers, the writer, whether the
-- target was told the end by `CloseWrite`, and whether the goroutine is done.
pub record Upload (S : Type 0) : Type 0 where
  pub source : Bytes
  pub writer : Writer S
  pub half_closed : Bool
  pub finished : Bool

pub record Copies (S : Type 0) : Type 0 where
  pub up : Upload S
  pub down : Copy

-- Which goroutine runs next, and how much it reads.
pub data Turn : Type 0 where
  uploads downloads : ℕ → Turn

module _ {S : Type 0} (conn_write : S → Bytes → Wrote S) where
  -- `Write` of the writer; `none` says that fuel ran out.
  unfoldable pub writer_write : Writer S → Bytes → Option (Wrote (Writer S))
  writer_write (plain c) p =
      let w = conn_write c p in some (record { state = plain w.state; n = w.n; failed = w.failed })
  writer_write (scrubbing s) p = elim (write conn_write (suc (length s.buf + length p)) s p) [
    | none ↦ none
    | some w ↦ some (record { state = scrubbing w.state; n = w.n; failed = w.failed })
  ]

  -- A turn of `io.Copy(targetWriter, stream)`: a chunk of `k + 1` bytes, of which an error or a short
  -- count ends the copy, or the end of the stream; then `CloseWrite`, for a TCP target.
  unfoldable pub upload_turn : ℕ → Upload S → Upload S
  upload_turn k u = if u.finished then u else elim u.source [
    | [] ↦ record u { half_closed = true; finished = true }
    | x ∷ s ↦
        let chunk = take (suc k) u.source in
        elim (writer_write u.writer chunk) [
          | none ↦ u
          | some w ↦
              let ends = w.failed || not (w.n == length chunk) in
              record {
                source = drop (suc k) u.source;
                writer = w.state;
                half_closed = ends;
                finished = ends;
              }
        ]
  ]

  -- `io.Copy(stream, targetConn); stream.Close()` is a copy as in the broker's bridge.
  unfoldable pub copies_turn : Copies S → Turn → Copies S
  copies_turn c (uploads k) = record c { up = upload_turn k c.up }
  copies_turn c (downloads k) = record c { down = copy_turn k c.down }

  unfoldable pub copies : Copies S → List Turn → Copies S
  copies c [] = c
  copies c (t ∷ ts) = copies (copies_turn c t) ts

  unfoldable pub start_copies : Bool → S → Bytes → Bytes → Copies S
  start_copies scrub_headers target rest reply = record {
    up = record {
      source = rest;
      writer = new_writer scrub_headers target;
      half_closed = false;
      finished = false;
    };
    down = open_copy reply;
  }

  -- `Handle`, over what the stream delivers, what the target answers and the turns of the goroutines;
  -- `none` where it returns before its copies.
  unfoldable pub handle_stream :
      (Bytes → Bool) → Bool → S → Bytes → Bytes → List Turn → Option (Copies S)
  handle_stream reachable scrub_headers target s reply ts =
      elim (handle reachable scrub_headers s) [
        | length_unread ↦ none
        | address_unread ↦ none
        | dial_failed addr ↦ none
        | connected addr rest scrub ↦ some (copies (start_copies scrub target rest reply) ts)
      ]
