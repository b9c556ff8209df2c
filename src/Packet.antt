-- ===== src/Packet.antt =====
-- hex-net-core/src/packet.rs: sequencing and sealing of a connection's packets. The cipher of
-- crypto.rs stands on an AEAD of a third-party crate, which is a parameter.
pub mod Receive
pub mod Send
use hex_net.Common.{
  ℕ, ◌+◌, ◌-◌, ◌%◌, ◌^◌, Bool, true, Option, none, some, List, Result, ok, err, ltb, leb, ◌==◌,
  if◌then◌else◌, ◌>>=◌, take, length,
}
use hex_net.Seq.{
  Sequence, WireSequence, ReceiveWindow, WindowError, Check, first, next, back, empty, check,
  insert, resolve, ack_bits,
}
use hex_net.Time.Timestamp.{Timestamp, origin}
use hex_net.Wire.Kinds.{PacketKind, packet_code}
use hex_net.Wire.Header.{Header, encode, decode, max_datagram}
use hex_net.Config.{tag_len}
use hex_net.Crypto.{Aead, Bytes, Cipher}

pub data DecryptError : Type 0 where
  malformed : DecryptError
  replay : WindowError → DecryptError
  unauthenticated : DecryptError

pub record Decrypted : Type 0 where
  pub sequence : Sequence
  pub header : Header
  pub body_start : ℕ
  pub body_end : ℕ
  pub in_order : Bool

pub record Sealed : Type 0 where
  pub sequence : Sequence
  pub len : ℕ

pub record AckState : Type 0 where
  pub newest : Sequence
  pub bits : ℕ
  pub received_at : Timestamp

pub record PacketCrypto : Type 0 where
  pub tx : Cipher
  pub rx : Cipher
  pub next_sequence : Sequence
  pub replay : ReceiveWindow
  pub acked : ReceiveWindow
  pub newest_acked_at : Timestamp

unfoldable pub new : ℕ → Bytes → Bytes → PacketCrypto
new conn_id tx_key rx_key = record {
  tx = record { key = tx_key; conn_id = conn_id };
  rx = record { key = rx_key; conn_id = conn_id };
  next_sequence = first;
  replay = empty;
  acked = empty;
  newest_acked_at = origin;
}

unfoldable pub ack_state : PacketCrypto → Option AckState
ack_state c = do
  newest ← c.acked.newest
  some (record { newest = newest; bits = ack_bits c.acked; received_at = c.newest_acked_at })

abbrev pub is_newer : Option Sequence → Sequence → Bool
is_newer none s = true
is_newer (some n) s = ltb n s

unfoldable pub record_eliciting : PacketCrypto → Sequence → Timestamp → PacketCrypto
record_eliciting c sequence now = record c {
  newest_acked_at = if is_newer c.acked.newest sequence then now else c.newest_acked_at;
  acked = insert c.acked sequence;
}

-- The buffer with the header, and the body's range.
unfoldable pub begin : Header → Bytes → Bytes × ℕ × ℕ
begin header buf = let (out, at) = encode header buf in (out, at, max_datagram - tag_len)

-- `is_none_or(|newest| sequence == newest.next())`; `none` is the panic of `next`.
abbrev pub follows : Option Sequence → Sequence → Option Bool
follows none s = some true
follows (some newest) s = do after ← next newest; some (s == after)

-- The newest sequence sent is the reference, and nothing ahead of it is taken.
abbrev pub up_to : Sequence → Option Sequence → Option Sequence
up_to newest none = none
up_to newest (some ack) = if leb ack newest then some ack else none

unfoldable pub resolve_ack : PacketCrypto → WireSequence → Option Sequence
resolve_ack c wire = do
  newest_sent ← back c.next_sequence 1
  up_to newest_sent (resolve (some newest_sent) wire)

abbrev is_payload : PacketKind → Bool
is_payload kind = packet_code kind == 0

module _ (aead : Aead) where
  -- The receiver after an attempt, the buffer where it was opened, and the outcome.
  abbrev pub Attempt : Type 0
  Attempt = PacketCrypto × Bytes × Result Decrypted DecryptError

  -- The sequence passed the window: open, and insert what authenticates. Nothing is read of a buffer that
  -- fails to open; it is given back as it came.
  unfoldable pub open_checked : PacketCrypto → Bytes → ℕ → Header → ℕ → Sequence → Option Attempt
  open_checked c buf len header header_len sequence = do
    in_order ← follows c.replay.newest sequence
    some (elim (hex_net.Crypto.decrypt aead c.rx sequence buf header_len len) [
      | none ↦ (c, buf, err unauthenticated)
      | some (opened, body_len) ↦ (
        record c { replay = insert c.replay sequence },
        opened,
        ok (record {
          sequence = sequence;
          header = header;
          body_start = header_len;
          body_end = header_len + body_len;
          in_order = in_order;
        }),
      )
    ])

  unfoldable pub open_resolved :
      PacketCrypto → Bytes → ℕ → Header → ℕ → Option Sequence → Option Attempt
  open_resolved c buf len header header_len none = some (c, buf, err malformed)
  open_resolved c buf len header header_len (some sequence) = elim (check c.replay sequence) [
    | ok _ ↦ open_checked c buf len header header_len sequence
    | err e ↦ some (c, buf, err (replay e))
  ]

  unfoldable pub open_parsed : PacketCrypto → Bytes → ℕ → Header → ℕ → Option Attempt
  open_parsed c buf len header header_len =
      if is_payload header.kind
      then open_resolved c buf len header header_len (resolve c.replay.newest header.sequence)
      else some (c, buf, err malformed)

  -- `PacketCrypto::decrypt`. `none` is a panic: a length past the buffer, or past the last sequence.
  unfoldable pub decrypt : PacketCrypto → Bytes → ℕ → Option Attempt
  decrypt c buf len = if ltb (length buf) len then none else (elim (decode (take len buf)) [
    | err _ ↦ some (c, buf, err malformed)
    | ok (header, header_len) ↦ open_parsed c buf len header header_len
  ])

  -- `PacketCrypto::encrypt` with the ticket that `next_sequence` gave. `none` is the panic of `next`.
  unfoldable pub encrypt :
      PacketCrypto → Bytes → ℕ → ℕ → Option (PacketCrypto × Bytes × Option Sealed)
  encrypt c buf header_len body_end =
      elim (hex_net.Crypto.encrypt aead c.tx c.next_sequence buf header_len body_end) [
        | none ↦ some (c, buf, none)
        | some (sealed, len) ↦ (do
          after ← next c.next_sequence
          some (
            record c { next_sequence = after },
            sealed,
            some (record { sequence = c.next_sequence; len = len % 2 ^ 16 }),
          ))
      ]
