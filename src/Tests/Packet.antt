-- ===== src/Tests/Packet.antt =====
-- Examples for hex-net-core/src/crypto.rs and packet.rs.
use hex_net.Common.{ℕ, ◌≡◌, refl, Option, some, List, [], ◌∷◌, arith, replicate, length}
use hex_net.Crypto.{Aead, Bytes, Cipher, decrypt}
use hex_net.Packet.{PacketCrypto, DecryptError, new, resolve_ack}
use hex_net.Packet.Send.{Outgoing, AllApart, AllSealed, nonces, sent, sent-AllApart}
use hex_net.Packet.Receive.{receive, receive-Fresh}
use hex_net.Seq.{empty, insert, duplicate}
use hex_net.Wire.Header.{decode}
use hex_net.Seq.Replay.{Fresh}

abbrev seal : Bytes → Option (Bytes × Bytes)
seal body = some (body, replicate 16 0)

abbrev open_plain : Bytes → Option Bytes
open_plain text = some text

plain_lengths :
    (body text tag : Bytes)
    → seal body ≡ some (text, tag)
    → (length text ≡ length body) × (length tag ≡ 16)
plain_lengths body text tag e = (ground arith, ground arith)

plain_opens : (body text tag : Bytes) → seal body ≡ some (text, tag) → open_plain text ≡ some body
plain_opens body text tag e = ground arith

-- The AEAD that hides nothing: it has the lengths and opens what it sealed.
abbrev plain : Aead
plain = record {
  encrypt_detached = λ key nonce aad. seal;
  decrypt_detached = λ key nonce aad text tag. open_plain text;
  sealed_lengths = λ key nonce aad. plain_lengths;
  sealed_opens = λ key nonce aad. plain_opens;
}

abbrev side : Cipher
side = record { key = 1 ∷ []; conn_id = 9 }

abbrev datagram : Bytes
datagram = 10 ∷ 11 ∷ 12 ∷ 13 ∷ replicate 16 255

abbrev start : PacketCrypto
start = record (new 9 (1 ∷ []) (2 ∷ [])) { next_sequence = 2 }

abbrev outgoing : List Outgoing
outgoing =
    record { buf = datagram; header_len = 1; body_end = 4 }
    ∷ record { buf = datagram; header_len = 4; body_end = 1 }
    ∷ record { buf = datagram; header_len = 1; body_end = 3 }
    ∷ []

sent-AllApart_example :
    AllSealed plain start.tx (sent plain start outgoing)
    × AllApart (nonces start.tx (sent plain start outgoing))
sent-AllApart_example = sent-AllApart plain start outgoing

-- A payload packet without a body.
abbrev packet : ℕ → Bytes
packet sequence = 0 ∷ 9 ∷ 0 ∷ 0 ∷ 0 ∷ sequence ∷ 0 ∷ replicate 16 0

abbrev arrivals : List (Bytes × ℕ)
arrivals = (packet 1, 23) ∷ (packet 3, 23) ∷ (packet 3, 23) ∷ (packet 2, 20) ∷ (packet 2, 23) ∷ []

taken : receive plain (new 9 (1 ∷ []) (2 ∷ [])) arrivals ≡ 1 ∷ 3 ∷ 2 ∷ []
unfolding receive new hex_net.Packet.decrypt decode hex_net.Packet.open_parsed
    hex_net.Packet.open_resolved hex_net.Seq.resolve hex_net.Seq.reconstruct hex_net.Seq.check
    hex_net.Packet.open_checked hex_net.Packet.Receive.accepted_of decrypt insert hex_net.Seq.next
taken = refl

receive-Fresh_example : Fresh [] (receive plain (new 9 (1 ∷ []) (2 ∷ [])) arrivals)
receive-Fresh_example = receive-Fresh plain 9 (1 ∷ []) (2 ∷ []) arrivals

abbrev later : PacketCrypto
later = record start { replay = insert empty 1; next_sequence = 65_540 }
