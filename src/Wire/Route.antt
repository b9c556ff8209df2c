-- ===== src/Wire/Route.antt =====
-- `owner_shard` of hex-net-core/src/wire.rs: which shard must handle a datagram.
use hex_net.Common.{
  ℕ, ◌+◌, ◌≤◌, ◌≡◌, refl, Option, none, some, List, [], ◌∷◌, ◌++◌, ◌>>=◌, ok, arith, true, leb,
  if◌then◌else◌, length, get_elem?, take,
}
use hex_net.Common.Ranges.{range}
use hex_net.Common.Masks.{bit_and_mask}
use hex_net.Seq.{WireSequence}
use hex_net.Wire.Ids.{ShardId, shard}
use hex_net.Wire.Kinds.{PacketKind, payload, request, challenge, response, packet_from_byte}
use hex_net.Wire.Header.{Header, encode, max_len}
use hex_net.Wire.Handshake.{
  handshake_len, body_offset, encode_handshake, handshake_blob, blob-encode,
}

abbrev pub shard_offset : ℕ
shard_offset = 1

abbrev pub min_payload_header : ℕ
min_payload_header = 7

abbrev pub first? : List ℕ → Option ℕ
first? [] = none
first? (b ∷ bs) = some b

owner_by_kind : PacketKind → List ℕ → Option ShardId
owner_by_kind payload packet =
    if leb min_payload_header (length packet) then get_elem? packet shard_offset else none
owner_by_kind response packet =
    if leb handshake_len (length packet)
    then (do blob ← handshake_blob packet; first? blob)
    else none
owner_by_kind request packet = none
owner_by_kind challenge packet = none

unfoldable pub owner_shard : List ℕ → Option ShardId
unfolding owner_by_kind
owner_shard packet = do
  first ← first? packet
  kind ← packet_from_byte first
  owner_by_kind kind packet

first_of_range : (xs : List ℕ) (c : ℕ) → range xs 0 1 ≡ c ∷ [] → first? xs ≡ some c
first_of_range [] c e = cc
first_of_range (x ∷ xs) c e = ground arith

module _ (conn_id sequence : ℕ) (o0 o1 o2 o3 o4 o5 o6 o7 o8 o9 o10 o11 o12 o13 : ℕ)
    (rest body : List ℕ) where
  owner_of_fields :
      (kind : PacketKind) (ack : Option WireSequence) (delay bits : ℕ)
      → kind ≡ payload
      → let h : Header = record {
        kind = kind;
        conn_id = conn_id;
        sequence = sequence;
        ack = ack;
        ack_delay = delay;
        ack_bits = bits;
      } in
        let (o, n) =
          encode h
            (o0 ∷ o1 ∷ o2 ∷ o3 ∷ o4 ∷ o5 ∷ o6 ∷ o7 ∷ o8 ∷ o9 ∷ o10 ∷ o11 ∷ o12 ∷ o13 ∷ rest) in
        owner_shard (take n o ++ body) ≡ some (shard conn_id)
  unfolding encode owner_shard shard
  owner_of_fields payload none delay bits e = ground (arith, bit_and_mask 8 conn_id)
  owner_of_fields payload (some ack) delay bits e = ground (arith, bit_and_mask 8 conn_id)
  owner_of_fields request ack delay bits e = absurd cc
  owner_of_fields challenge ack delay bits e = absurd cc
  owner_of_fields response ack delay bits e = absurd cc

-- A payload packet whose header was written into a buffer of at least 14 bytes belongs to the
-- shard in its connection id, whatever else its header says and whatever follows it.
owner-payload :
    (h : Header) (out body : List ℕ)
    → h.kind ≡ payload
    → max_len ≤ length out
    → let (o, n) = encode h out in owner_shard (take n o ++ body) ≡ some (shard h.conn_id)
owner-payload h (o0 ∷ o1 ∷ o2 ∷ o3 ∷ o4 ∷ o5 ∷ o6 ∷ o7 ∷ o8 ∷ o9 ∷ o10 ∷ o11 ∷ o12 ∷ o13 ∷ rest)
      body k room =
    owner_of_fields h.conn_id h.sequence o0 o1 o2 o3 o4 o5 o6 o7 o8 o9 o10 o11 o12 o13 rest body
      h.kind h.ack h.ack_delay h.ack_bits k
owner-payload h _ body k room = absurd (omega arith)

-- A challenge response framed from a cookie that fits, in a buffer that holds a handshake
-- packet, belongs to the shard in the first byte of its cookie.
owner-response :
    (byte : ℕ) (cookie out : List ℕ)
    → handshake_len ≤ length out
    → body_offset + length (byte ∷ cookie) ≤ handshake_len
    → (packet : List ℕ) × (encode_handshake response (byte ∷ cookie) out ≡ ok packet)
      × (owner_shard packet ≡ some byte)
unfolding owner_shard
owner-response byte cookie out room fits =
    let (packet, e, kind, blob, whole, _) = blob-encode response (byte ∷ cookie) out room fits in
    let first = first_of_range packet 3 kind in
    let long : leb handshake_len (length packet) ≡ true = ground arith in
    (packet, e, rw (first, long, blob) refl)
