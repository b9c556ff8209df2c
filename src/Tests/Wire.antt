-- ===== src/Tests/Wire.antt =====
-- Examples for hex-net-core/src/wire.rs, shard.rs and the ids of handshake.rs.
use hex_net.Common.{
  ℕ, ◌≡◌, some, List, [], ◌∷◌, ◌++◌, arith, length, length-replicate, take, replicate, ok,
}
use hex_net.Shard.{ShardCount}
use hex_net.Wire.Kinds.{payload}
use hex_net.Wire.Header.{Header, encode, decode}
use hex_net.Wire.HeaderLaws.{said, Fits, decode-encode}

abbrev header : Header
header = record {
  kind = payload;
  conn_id = 0x0102_0305;
  sequence = 65_535;
  ack = some 700;
  ack_delay = 12;
  ack_bits = 0x8000_0001;
}

header-Fits : Fits header
header-Fits = record {
  conn_id = omega arith;
  sequence = omega arith;
  ack = omega arith;
  ack_bits = omega arith;
}

abbrev scratch : List ℕ
scratch = 0 ∷ 0 ∷ 0 ∷ 0 ∷ 0 ∷ 0 ∷ 0 ∷ 0 ∷ 0 ∷ 0 ∷ 0 ∷ 0 ∷ 0 ∷ 0 ∷ 0 ∷ []

decode-encode_example :
    let (o, n) = encode header scratch in
    decode (take n o ++ (1 ∷ 2 ∷ [])) ≡ ok (said header.ack header, n)
decode-encode_example = decode-encode header scratch (1 ∷ 2 ∷ []) header-Fits (omega arith)

unfoldable datagram : List ℕ
datagram = replicate 1200 0

datagram_size : length datagram ≡ 1200
unfolding datagram
datagram_size = length-replicate {A = ℕ} 1200 0

abbrev cookie : List ℕ
cookie = 3 ∷ 77 ∷ 78 ∷ []

abbrev count : ShardCount
count = 4

abbrev ticket : List ℕ
ticket = 250 ∷ 1 ∷ 2 ∷ 3 ∷ 4 ∷ 5 ∷ 6 ∷ 7 ∷ 8 ∷ 9 ∷ 10 ∷ 11 ∷ []
