-- ===== src/Tests/Connection.antt =====
-- Examples for hex-net-core/src/connection.rs and endpoint.rs.
use hex_net.Common.{◌+◌, ◌/◌, ◌≤◌, true, false, List, [], ◌∷◌, arith}
use hex_net.Connection.{
  Acks, Happening, nothing, arrives, carries, asks, alone, AreSpaced, alone-AreSpaced,
}
use hex_net.Wire.Kinds.{path_challenge}
use hex_net.Bits.{BitWriter, write_u64}
use hex_net.Bits.Writing.{IsValid}
use hex_net.Connection.Control.{Settles, write_frame_lem}
use hex_net.Connection.Steps.{Extends, write_u64-IsTame}
use hex_net.Connection.Queue.{ControlQueue}
use hex_net.Endpoint.{Policy, full, taken, taken_bounded}

abbrev acks : Acks
acks = record { owed = nothing; delay = 25; alone_after = 0 }

abbrev happenings : List Happening
happenings =
    arrives 10 true
    ∷ asks 20
    ∷ arrives 30 false
    ∷ asks 30
    ∷ arrives 31 false
    ∷ asks 32
    ∷ asks 55
    ∷ carries 60
    ∷ []

alone-AreSpaced_example : AreSpaced 25 0 (alone acks happenings)
alone-AreSpaced_example = alone-AreSpaced acks happenings

abbrev policy : Policy
policy = record { burst = 3; interval = 100 }

taken_bounded_example :
    taken policy (omega arith) (omega arith) (full policy) (0 ∷ 0 ∷ 1 ∷ 2 ∷ 150 ∷ 160 ∷ 420 ∷ [])
    ≤ 3 + 430 / 100
taken_bounded_example =
    taken_bounded policy (omega arith) (omega arith) (0 ∷ 0 ∷ 1 ∷ 2 ∷ 150 ∷ 160 ∷ 420 ∷ []) 430
      (omega arith) (omega arith)

-- A packet with a byte in it, and room for one frame more.
abbrev packet : BitWriter
packet = record {
  buf = 7 ∷ 0 ∷ 0 ∷ 0 ∷ 0 ∷ 0 ∷ 0 ∷ 0 ∷ 0 ∷ 0 ∷ 0 ∷ 0 ∷ [];
  scratch = 7;
  scratch_bits = 8;
  word_index = 0;
  bits_written = 8;
}

packet-IsValid : IsValid packet
packet-IsValid = omega arith

write_frame_lem_example :
    (w' : BitWriter) × Extends packet w' × Settles packet path_challenge (λ w. write_u64 w 99) w'
write_frame_lem_example =
    write_frame_lem packet path_challenge (λ w. write_u64 w 99) packet-IsValid (omega arith)
      (write_u64-IsTame 99)

-- Everything is owed.
abbrev owing : ControlQueue
owing = record { owed = 15; challenge = 5; response = 6; ticket = 1 ∷ 2 ∷ 3 ∷ [] }
