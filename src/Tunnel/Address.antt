-- ===== src/Tunnel/Address.antt =====
-- The address header: `Dial` of internal/consumer/dialer.go writes it, `bridgeStream` of
-- internal/broker/relay.go reads it and writes it on, and `Handle` of internal/provider/handler.go
-- reads it. The streams, the wait for a provider and the dialling are parameters.
use http_broker.Base.{
  ℕ, ◌%◌, ◌≤◌, ◌≡◌, Bool, true, Option, none, some, [], ◌∷◌, ◌++◌, Bytes, ltb, if◌then◌else◌, arith,
  length, take, drop, take-append, drop-append, length-append, length-take, take-append-drop,
}
use http_broker.Scrubber.Conn.{Wrote}
use http_broker.Scrubber.Stream.{sink}

-- `header[0] = byte(len(addr)); copy(header[1:], addr)`.
unfoldable pub address_header : Bytes → Bytes
address_header addr = (length addr % 256) ∷ addr

-- What a call of `Dial` ends with: an error, or the stream that it returns.
pub data Dialed (St : Type 0) : Type 0 where
  too_long : Dialed St
  open_failed : Dialed St
  write_failed : St → Dialed St
  dialed : St → Dialed St

-- `io.ReadFull(stream, buf)` of `n` bytes on what a stream still delivers; `none` is its error.
unfoldable pub read_full : ℕ → Bytes → Option (Bytes × Bytes)
read_full n s = if ltb (length s) n then none else some (take n s, drop n s)

-- The two reads at the start of `bridgeStream` and of `Handle`.
pub data Address : Type 0 where
  no_length : Address
  no_address : Address
  address : Bytes → Bytes → Address

unfoldable pub read_body : ℕ → Bytes → Address
read_body n s = elim (read_full n s) [ none ↦ no_address | some (addr, rest) ↦ address addr rest ]

unfoldable pub read_address : Bytes → Address
read_address [] = no_length
read_address (n ∷ s) = read_body n s

-- The end of `bridgeStream`: the step that failed, or the address, what the consumer still sends and the
-- stream to the provider, which are bridged.
pub data Bridged (St : Type 0) : Type 0 where
  bad_length : Bridged St
  bad_address : Bridged St
  no_provider : Bridged St
  provider_open_failed : Bridged St
  provider_write_failed : St → Bridged St
  bridged : Bytes → Bytes → St → Bridged St

-- The end of `Handle` at the provider.
pub data Handled : Type 0 where
  length_unread : Handled
  address_unread : Handled
  dial_failed : Bytes → Handled
  connected : Bytes → Bytes → Bool → Handled

module _ {St : Type 0} (stream_write : St → Bytes → Wrote St) (stream_close : St → St) where
  -- `Dial`; the argument `opened` is the answer of the yamux session's `Open`.
  unfoldable pub dial : Option St → Bytes → Dialed St
  dial opened addr = if ltb 255 (length addr) then too_long else elim opened [
    | none ↦ open_failed
    | some st ↦
        let w = stream_write st (address_header addr) in
        if w.failed then write_failed (stream_close w.state) else dialed w.state
  ]

  unfoldable pub forward_address : Option (Option St) → Bytes → Bytes → Bridged St
  forward_address waited addr rest = elim waited [
    | none ↦ no_provider
    | some opened ↦ elim opened [
      | none ↦ provider_open_failed
      | some st ↦
          let w = stream_write st (address_header addr) in
          if w.failed
          then provider_write_failed (stream_close w.state)
          else bridged addr rest w.state
    ]
  ]

  -- `bridgeStream` up to its last step; `waited` is the answer of `WaitForProvider`, and in it that of
  -- the provider session's `Open`.
  unfoldable pub bridge_stream : Option (Option St) → Bytes → Bridged St
  bridge_stream waited s = elim (read_address s) [
    | no_length ↦ bad_length
    | no_address ↦ bad_address
    | address addr rest ↦ forward_address waited addr rest
  ]

-- `Handle` of the provider up to the copying; `reachable` says whether a dial of the target succeeds,
-- and the last part of the result whether its writer is the scrubber.
unfoldable pub handle : (Bytes → Bool) → Bool → Bytes → Handled
handle reachable scrub_headers s = elim (read_address s) [
  | no_length ↦ length_unread
  | no_address ↦ address_unread
  | address addr rest ↦
      if reachable addr then connected addr rest scrub_headers else dial_failed addr
]

-- The header is read back, and nothing behind it is touched.
pub read_address-header :
    (addr rest : Bytes)
    → length addr ≤ 255
    → read_address (address_header addr ++ rest) ≡ address addr rest
unfolding read_address read_body read_full address_header
read_address-header addr rest h =
    let e : length addr % 256 ≡ length addr = omega arith in
    rw e (ground (arith, take-append addr rest, drop-append addr rest, length-append addr rest))

-- An address that is read is as long as the first byte says, and it and the rest are all that
-- follows that byte.
pub read_address_sound :
    (n : ℕ) (s addr rest : Bytes)
    → read_address (n ∷ s) ≡ address addr rest
    → (length addr ≡ n) × (s ≡ addr ++ rest)
unfolding read_address read_body read_full
read_address_sound n s addr rest e =
    (ground (arith, length-take n s), ground (arith, take-append-drop n s))

-- An address of at most 255 bytes that the provider can reach: what `Dial` writes to a working
-- stream, `bridgeStream` reads and writes unchanged to the stream of a provider that is there, and
-- `Handle` reads, so that the provider dials that address, and the bytes behind it are what both go
-- on with.
pub address_end_to_end :
    (addr rest : Bytes) (reachable : Bytes → Bool) (scrub_headers : Bool)
    → length addr ≤ 255
    → reachable addr ≡ true
    → (dial sink (λ c. c) (some []) addr ≡ dialed (address_header addr))
      × (bridge_stream sink (λ c. c) (some (some [])) (address_header addr ++ rest)
          ≡ bridged addr rest (address_header addr))
      × (handle reachable scrub_headers (address_header addr ++ rest)
          ≡ connected addr rest scrub_headers)
unfolding dial bridge_stream forward_address handle
address_end_to_end addr rest reachable scrub_headers h e =
    let back = read_address-header addr rest h in
    (ground arith, ground (arith, back), ground (arith, back))
