-- ===== src/Wire/Header.antt =====
-- `Header` of hex-net-core/src/wire.rs: the cleartext header of a payload packet.
use hex_net.Common.{
  ℕ, bit_and, bit_or, not, Bool, true, false, Option, none, some, List, Result, ok, err, ◌==◌,
  if◌then◌else◌, get_elem?, set,
}
use hex_net.Common.Slices.{splice}
use hex_net.Seq.{WireSequence}
use hex_net.Wire.Bytes.{to_le, from_le, read_array}
use hex_net.Wire.Ids.{ConnectionId}
use hex_net.Wire.Kinds.{
  PacketKind, packet_code, packet_from_bits, kind_mask, ack_flag, ack_bits_flag, reserved_flags,
}

abbrev pub max_datagram : ℕ
max_datagram = 1200

abbrev pub max_len : ℕ
max_len = 14

pub data ReadError : Type 0 where
  eof out_of_range : ReadError

pub record Header : Type 0 where
  pub kind : PacketKind
  pub conn_id : ConnectionId
  pub sequence : WireSequence
  pub ack : Option WireSequence
  pub ack_delay : ℕ
  pub ack_bits : ℕ

-- The acknowledgement fields from offset 7 on: the buffer, the flags and the end.
encode_ack : Header → Option WireSequence → List ℕ → ℕ → List ℕ × ℕ × ℕ
encode_ack h none out flags = (out, flags, 7)
encode_ack h (some ack) out flags =
    let out' = set (splice out 7 (to_le 2 ack)) 9 h.ack_delay in
    let flags' = bit_or flags ack_flag in
    if not (h.ack_bits == 0)
    then (splice out' 10 (to_le 4 h.ack_bits), bit_or flags' ack_bits_flag, 14)
    else (out', flags', 10)

-- The buffer with the header written into it, and the header's length.
unfoldable pub encode : Header → List ℕ → List ℕ × ℕ
unfolding encode_ack
encode h out =
    let fixed = splice (splice out 1 (to_le 4 h.conn_id)) 5 (to_le 2 h.sequence) in
    let (out', flags, at) = encode_ack h h.ack fixed (packet_code h.kind) in (set out' 0 flags, at)

abbrev pub Parse : Type 0 → Type 0
Parse A = Result A ReadError

infixl 5 ◌>>=◌
abbrev pub ◌>>=◌ : {A B : Type 0} → Parse A → (A → Parse B) → Parse B
ok a >>= f = f a
err e >>= f = err e

-- `ok_or`.
abbrev pub ok_or : {A : Type 0} → Option A → ReadError → Parse A
ok_or none e = err e
ok_or (some a) e = ok a

abbrev pub refuse_if : Bool → ReadError → Parse (Unit {0})
refuse_if true e = err e
refuse_if false e = ok tt

abbrev read_int : List ℕ → ℕ → ℕ → Parse ℕ
read_int input at n = do bytes ← ok_or (read_array input at n) eof; ok (from_le bytes)

abbrev has : ℕ → ℕ → Bool
has first flag = not (bit_and first flag == 0)

-- The acknowledgement fields: the sequence, the delay, the history and the end.
decode_ack : List ℕ → ℕ → Parse (Option WireSequence × ℕ × ℕ × ℕ)
unfolding read_array
decode_ack input first =
    if has first ack_flag
    then (do
      ack ← read_int input 7 2
      delay ← ok_or (get_elem? input 9) eof
      if has first ack_bits_flag
          then (do bits ← read_int input 10 4; ok (some ack, delay, bits, 14))
          else ok (some ack, delay, 0, 10))
    else (do _ ← refuse_if (has first ack_bits_flag) out_of_range; ok (none, 0, 0, 7))

unfoldable pub decode : List ℕ → Parse (Header × ℕ)
unfolding decode_ack
decode input = do
  first ← ok_or (get_elem? input 0) eof
  _ ← refuse_if (has first reserved_flags) out_of_range
  kind ← ok_or (packet_from_bits (bit_and first kind_mask)) out_of_range
  conn_id ← read_int input 1 4
  sequence ← read_int input 5 2
  (ack, delay, bits, end_at) ← decode_ack input first
  ok (
    record {
      kind = kind;
      conn_id = conn_id;
      sequence = sequence;
      ack = ack;
      ack_delay = delay;
      ack_bits = bits;
    },
    end_at,
  )
