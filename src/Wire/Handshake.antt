-- ===== src/Wire/Handshake.antt =====
-- Handshake packets of hex-net-core/src/wire.rs: a kind, a length, a blob, for requests and
-- challenges a nonce, and zero padding up to a fixed length.
use hex_net.Common.{
  ℕ, ◌+◌, ◌-◌, ◌^◌, ◌%◌, ◌≤◌, ◌<◌, ◌≡◌, refl, ap, sym, ◌∙◌, ◌||◌, Option, some, List, [], ◌∷◌,
  ◌>>=◌, Result, ok, err, arith, ltb, if◌then◌else◌, length, set, replicate, length-replicate,
  length-set, ◌⊎◌, ◌↔◌,
}
use hex_net.Common.Slices.{splice, length-splice}
use hex_net.Common.Ranges.{range, range-splice, range-splice_above}
use hex_net.Wire.Bytes.{to_le, from_le, slice?, slice-range, from_le-to_le16, from_le-to_le64}
use hex_net.Wire.Kinds.{PacketKind, request, challenge, packet_code}

abbrev pub handshake_len : ℕ
handshake_len = 1200

abbrev pub body_offset : ℕ
body_offset = 3

abbrev pub trailer_len : ℕ
trailer_len = 8

pub data WriteError : Type 0 where
  overflow out_of_range : WriteError

-- The packet on success; the returned length is always `handshake_len`.
unfoldable pub encode_handshake : PacketKind → List ℕ → List ℕ → Result (List ℕ) WriteError
encode_handshake kind blob out =
    let stop = body_offset + length blob in
    if ltb (length out) handshake_len || ltb handshake_len stop
    then err overflow
    else ok (
        splice
          (splice (splice (set out 0 (packet_code kind)) 1 (to_le 2 (length blob % 2 ^ 16)))
            body_offset blob)
          stop (replicate (handshake_len - stop) 0))

unfoldable pub handshake_blob : List ℕ → Option (List ℕ)
handshake_blob packet = do
  size ← slice? packet 1 3
  slice? packet body_offset (body_offset + from_le size)

with_tail : List ℕ → List ℕ → Result (List ℕ) WriteError → Result (List ℕ) WriteError
with_tail blob tail (err e) = err e
with_tail blob tail (ok out) = ok (splice out (body_offset + length blob) tail)

unfoldable pub encode_with_trailer :
    PacketKind → List ℕ → List ℕ → List ℕ → Result (List ℕ) WriteError
unfolding with_tail
encode_with_trailer kind blob tail out =
    if ltb handshake_len (body_offset + length blob + trailer_len)
    then err overflow
    else with_tail blob tail (encode_handshake kind blob out)

unfoldable pub trailer : List ℕ → Option (List ℕ)
trailer packet = do
  blob ← handshake_blob packet
  slice? packet (body_offset + length blob) (body_offset + length blob + trailer_len)

-- `encode_request` with `request_nonce`, `encode_challenge` with `challenge_nonce`: a nonce is a
-- `u64` in the trailer.
unfoldable pub encode_request : List ℕ → ℕ → List ℕ → Result (List ℕ) WriteError
encode_request ticket nonce out = encode_with_trailer request ticket (to_le 8 nonce) out

unfoldable pub request_nonce : List ℕ → Option ℕ
request_nonce packet = do bytes ← trailer packet; some (from_le bytes)

unfoldable pub encode_challenge : List ℕ → ℕ → List ℕ → Result (List ℕ) WriteError
encode_challenge cookie nonce out = encode_with_trailer challenge cookie (to_le 8 nonce) out

unfoldable pub challenge_nonce : List ℕ → Option ℕ
challenge_nonce packet = do bytes ← trailer packet; some (from_le bytes)

-- A packet that states its blob's length gives the blob.
blob_of_ranges :
    (packet blob : List ℕ)
    → length blob < 2 ^ 16
    → body_offset + length blob ≤ length packet
    → range packet 1 2 ≡ to_le 2 (length blob)
    → range packet body_offset (length blob) ≡ blob
    → handshake_blob packet ≡ some blob
unfolding handshake_blob
blob_of_ranges packet blob small room size body =
    let count : from_le (range packet 1 2) ≡ length blob =
      ap from_le size ∙ from_le-to_le16 (length blob) small in
    rw (slice-range packet 1 2 (omega arith), count, slice-range packet 3 (length blob) room, body)
      refl

-- What `encode_handshake` writes, where it succeeds.
framed : PacketKind → List ℕ → List ℕ → List ℕ
framed kind blob out =
    splice
      (splice (splice (set out 0 (packet_code kind)) 1 (to_le 2 (length blob % 2 ^ 16))) body_offset
        blob)
      (body_offset + length blob) (replicate (handshake_len - (body_offset + length blob)) 0)

module _ (kind : PacketKind) (blob out : List ℕ) (room : handshake_len ≤ length out)
    (fits : body_offset + length blob ≤ handshake_len) where
  framed_eq : encode_handshake kind blob out ≡ ok (framed kind blob out)
  unfolding encode_handshake framed
  framed_eq = ground arith

  abbrev size_bytes : List ℕ
  size_bytes = to_le 2 (length blob % 2 ^ 16)

  abbrev sized : List ℕ
  sized = splice (set out 0 (packet_code kind)) 1 size_bytes

  abbrev zeros : List ℕ
  zeros = replicate (handshake_len - (body_offset + length blob)) 0

  length-sized : length sized ≡ length out
  length-sized =
      length-splice (set out 0 (packet_code kind)) 1 size_bytes
      ∙ length-set out 0 (packet_code kind)

  length-framed : length (framed kind blob out) ≡ length out
  unfolding framed
  length-framed =
      length-splice (splice sized 3 blob) (3 + length blob) zeros
      ∙ length-splice sized 3 blob
      ∙ length-sized

  framed_size : range (framed kind blob out) 1 2 ≡ to_le 2 (length blob)
  unfolding framed
  framed_size =
      range-splice_above (splice sized 3 blob) (3 + length blob) 1 2 zeros (omega arith)
      ∙ range-splice_above sized 3 1 2 blob (omega arith)
      ∙ range-splice (set out 0 (packet_code kind)) 1 size_bytes
          (omega (arith, length-set out 0 (packet_code kind)))
      ∙ ap (to_le 2) (omega arith)

  framed_blob : range (framed kind blob out) body_offset (length blob) ≡ blob
  unfolding framed
  framed_blob =
      range-splice_above (splice sized 3 blob) (3 + length blob) 3 (length blob) zeros (omega arith)
      ∙ range-splice sized 3 blob (omega (arith, length-sized))

  framed_kind : range (framed kind blob out) 0 1 ≡ packet_code kind ∷ []
  unfolding framed
  framed_kind =
      range-splice_above (splice sized 3 blob) (3 + length blob) 0 1 zeros (omega arith)
      ∙ range-splice_above sized 3 0 1 blob (omega arith)
      ∙ range-splice_above (set out 0 (packet_code kind)) 1 0 1 size_bytes (omega arith)
      ∙ range-splice out 0 (packet_code kind ∷ []) (omega arith)

  framed_padding :
      range (framed kind blob out) (3 + length blob) (1200 - (3 + length blob))
      ≡ replicate (1200 - (3 + length blob)) 0
  unfolding framed
  framed_padding =
      let size = length-replicate {A = ℕ} (1200 - (3 + length blob)) 0 in
      let whole = length-splice sized 3 blob in
      ap (range (framed kind blob out) (3 + length blob)) (sym size)
      ∙ range-splice (splice sized 3 blob) (3 + length blob) zeros (omega (arith, length-sized))

-- A blob that fits is framed into any buffer that holds a handshake packet, behind the kind's
-- number, and read back from it; the rest of the packet is zeros, and the buffer keeps its length.
pub blob-encode :
    (kind : PacketKind) (blob out : List ℕ)
    → handshake_len ≤ length out
    → body_offset + length blob ≤ handshake_len
    → (packet : List ℕ) × (encode_handshake kind blob out ≡ ok packet)
      × (range packet 0 1 ≡ packet_code kind ∷ [])
      × (handshake_blob packet ≡ some blob)
      × (length packet ≡ length out)
      × (range packet (body_offset + length blob) (handshake_len - (body_offset + length blob))
          ≡ replicate (handshake_len - (body_offset + length blob)) 0)
unfolding encode_handshake
blob-encode kind blob out room fits =
    let whole = length-framed kind blob out room fits in
    (
      framed kind blob out,
      framed_eq kind blob out room fits,
      framed_kind kind blob out room fits,
      blob_of_ranges (framed kind blob out) blob (omega arith) (omega arith)
          (framed_size kind blob out room fits) (framed_blob kind blob out room fits),
      whole,
      framed_padding kind blob out room fits,
    )

-- A blob is refused exactly when the buffer is too short for a handshake packet or the packet is too
-- short for the blob.
encode_handshake-overflow :
    (kind : PacketKind) (blob out : List ℕ)
    → (encode_handshake kind blob out ≡ err overflow)
      ↔ ((length out < handshake_len) ⊎ (handshake_len < body_offset + length blob))
unfolding encode_handshake
encode_handshake-overflow kind blob out = ground arith

-- What follows the blob is read back where it fits, and the blob with it.
tail_lem :
    (kind : PacketKind) (blob tail out : List ℕ)
    → handshake_len ≤ length out
    → length tail ≡ trailer_len
    → body_offset + length blob + trailer_len ≤ handshake_len
    → (packet : List ℕ) × (encode_with_trailer kind blob tail out ≡ ok packet)
      × (range packet 0 1 ≡ packet_code kind ∷ [])
      × (handshake_blob packet ≡ some blob)
      × (trailer packet ≡ some tail)
unfolding encode_with_trailer trailer
tail_lem kind blob tail out room eight fits =
    let short : body_offset + length blob ≤ handshake_len = omega arith in
    let base = framed kind blob out in
    let at = body_offset + length blob in
    let whole = length-framed kind blob out room short in
    let longer = length-splice base at tail in
    let packet = splice base at tail in
    let size =
      range-splice_above base at 1 2 tail (omega arith) ∙ framed_size kind blob out room short in
    let body =
      range-splice_above base at body_offset (length blob) tail (omega arith)
      ∙ framed_blob kind blob out room short in
    let found = blob_of_ranges packet blob (omega arith) (omega arith) size body in
    let last : range packet at trailer_len ≡ tail =
      ap (range packet at) (sym eight) ∙ range-splice base at tail (omega arith) in
    (
      packet,
      rw (framed_eq kind blob out room short) (ground arith),
      range-splice_above base at 0 1 tail (omega arith) ∙ framed_kind kind blob out room short,
      found,
      rw (found, slice-range packet at trailer_len (omega arith), last) refl,
    )

-- In a buffer that holds a handshake packet a request carries its ticket and its nonce, and a
-- challenge its cookie and its nonce: each is read back from the packet that its encoder writes,
-- where ticket or cookie leave room for the nonce and the nonce is below 2^64.
nonce-encode :
    (blob out : List ℕ) (nonce : ℕ)
    → handshake_len ≤ length out
    → nonce < 2 ^ 64
    → body_offset + length blob + trailer_len ≤ handshake_len
    → ((packet : List ℕ) × (encode_request blob nonce out ≡ ok packet)
        × (handshake_blob packet ≡ some blob)
        × (request_nonce packet ≡ some nonce))
      × ((packet : List ℕ) × (encode_challenge blob nonce out ≡ ok packet)
          × (handshake_blob packet ≡ some blob)
          × (challenge_nonce packet ≡ some nonce))
unfolding encode_request encode_challenge request_nonce challenge_nonce
nonce-encode blob out nonce room small fits =
    let (p, e, k, b, t) = tail_lem request blob (to_le 8 nonce) out room refl fits in
    let (q, f, l, c, u) = tail_lem challenge blob (to_le 8 nonce) out room refl fits in
    let back = from_le-to_le64 nonce small in
    ((p, e, b, rw t (ap some back)), (q, f, c, rw u (ap some back)))

-- A request is written where its ticket and nonce fit, and states its kind, its ticket and its nonce.
pub encode_request_lem :
    (ticket out : List ℕ) (nonce : ℕ)
    → handshake_len ≤ length out
    → nonce < 2 ^ 64
    → body_offset + length ticket + trailer_len ≤ handshake_len
    → (packet : List ℕ) × (encode_request ticket nonce out ≡ ok packet)
      × (range packet 0 1 ≡ packet_code request ∷ [])
      × (handshake_blob packet ≡ some ticket)
      × (request_nonce packet ≡ some nonce)
unfolding encode_request request_nonce
encode_request_lem ticket out nonce room small fits =
    let (packet, made, kind, blob, last) =
      tail_lem request ticket (to_le 8 nonce) out room refl fits in
    (packet, made, kind, blob, rw last (ap some (from_le-to_le64 nonce small)))
