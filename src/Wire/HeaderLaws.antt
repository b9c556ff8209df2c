-- ===== src/Wire/HeaderLaws.antt =====
-- The payload header of hex-net-core/src/wire.rs survives the wire.
use hex_net.Common.{
  ℕ, ◌^◌, ◌≤◌, ◌<◌, ◌≡◌, Option, none, some, List, ◌∷◌, ◌++◌, ok, arith, length, take,
}
use hex_net.Seq.{WireSequence}
use hex_net.Wire.Bytes.{from_le-to_le16, from_le-to_le32}
use hex_net.Wire.Header.{Header, max_len, encode, decode}
use hex_net.Wire.Kinds.{PacketKind, payload}

-- What a header can say: without an acknowledgement it has no delay and no history.
abbrev pub said : Option WireSequence → Header → Header
said none h = record h { ack_delay = 0; ack_bits = 0 }
said (some ack) h = h

abbrev FitsAck : Option WireSequence → Type 0
FitsAck none = Unit
FitsAck (some ack) = ack < 2 ^ 16

pub record Fits (h : Header) : Type 0 where
  pub conn_id : h.conn_id < 2 ^ 32
  pub sequence : h.sequence < 2 ^ 16
  pub ack : FitsAck h.ack
  pub ack_bits : h.ack_bits < 2 ^ 32

-- The round trip at a buffer of which the first bytes are written out.
module _ (conn_id sequence : ℕ) (hc : conn_id < 2 ^ 32) (hs : sequence < 2 ^ 16)
    (o0 o1 o2 o3 o4 o5 o6 o7 o8 o9 o10 o11 o12 o13 : ℕ) (rest body : List ℕ) where
  abbrev out : List ℕ
  out = o0 ∷ o1 ∷ o2 ∷ o3 ∷ o4 ∷ o5 ∷ o6 ∷ o7 ∷ o8 ∷ o9 ∷ o10 ∷ o11 ∷ o12 ∷ o13 ∷ rest

  without_ack :
      (kind : PacketKind) (delay bits : ℕ)
      → let h : Header = record {
        kind = kind;
        conn_id = conn_id;
        sequence = sequence;
        ack = none;
        ack_delay = delay;
        ack_bits = bits;
      } in
        let (o, n) = encode h out in decode (take n o ++ body) ≡ ok (said none h, n)
  unfolding encode decode
  without_ack payload delay bits =
      ground (arith, from_le-to_le32 conn_id hc, from_le-to_le16 sequence hs)
  without_ack _ delay bits = ground (arith, from_le-to_le32 conn_id hc, from_le-to_le16 sequence hs)

  with_ack :
      (kind : PacketKind) (ack delay bits : ℕ)
      → ack < 2 ^ 16
      → bits < 2 ^ 32
      → let h : Header = record {
        kind = kind;
        conn_id = conn_id;
        sequence = sequence;
        ack = some ack;
        ack_delay = delay;
        ack_bits = bits;
      } in
        let (o, n) = encode h out in decode (take n o ++ body) ≡ ok (h, n)
  unfolding encode decode
  with_ack payload ack delay bits ha hb = ground (
    arith,
    from_le-to_le32 conn_id hc,
    from_le-to_le16 sequence hs,
    from_le-to_le16 ack ha,
    from_le-to_le32 bits hb,
  )
  with_ack _ ack delay bits ha hb = ground (
    arith,
    from_le-to_le32 conn_id hc,
    from_le-to_le16 sequence hs,
    from_le-to_le16 ack ha,
    from_le-to_le32 bits hb,
  )

  any_ack :
      (kind : PacketKind) (ack : Option WireSequence) (delay bits : ℕ)
      → FitsAck ack
      → bits < 2 ^ 32
      → let h : Header = record {
        kind = kind;
        conn_id = conn_id;
        sequence = sequence;
        ack = ack;
        ack_delay = delay;
        ack_bits = bits;
      } in
        let (o, n) = encode h out in decode (take n o ++ body) ≡ ok (said ack h, n)
  any_ack kind none delay bits ha hb = without_ack kind delay bits
  any_ack kind (some ack) delay bits ha hb = with_ack kind ack delay bits ha hb

-- A header whose fields fit their widths, written into a buffer of at least 14 bytes, cut at its
-- length and followed by any body, parses to what it says and to its own length.
pub decode-encode :
    (h : Header) (out body : List ℕ)
    → Fits h
    → max_len ≤ length out
    → let (o, n) = encode h out in decode (take n o ++ body) ≡ ok (said h.ack h, n)
decode-encode h (o0 ∷ o1 ∷ o2 ∷ o3 ∷ o4 ∷ o5 ∷ o6 ∷ o7 ∷ o8 ∷ o9 ∷ o10 ∷ o11 ∷ o12 ∷ o13 ∷ rest)
      body fits room =
    any_ack h.conn_id h.sequence fits.conn_id fits.sequence o0 o1 o2 o3 o4 o5 o6 o7 o8 o9 o10 o11
      o12 o13 rest body h.kind h.ack h.ack_delay h.ack_bits fits.ack fits.ack_bits
decode-encode h _ body fits room = absurd (omega arith)
