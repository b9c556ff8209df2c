-- ===== src/Tests/Bits.antt =====
-- Examples for hex-net-core/src/bits.rs.
use hex_net.Common.{ℕ, ◌%◌, ◌^◌, ◌≡◌, some, List, [], ◌∷◌, arith, ok, take, replicate}
use hex_net.Bits.{
  BitWriter, BitReader, new_writer, rollback, finish, new_reader, bits_left, read_bits,
}
use hex_net.Bits.Writing.{written}
use hex_net.Bits.Reading.{unread, Taken, read_bits-Taken}
use hex_net.Bits.Position.{rollback-written}
use hex_net.Bits.Codec.{write_all, read_all, read_all-write_all}
use hex_net.Bits.Writing
use hex_net.Bits.Reading

-- A writer with a word in the buffer and a byte pending.
abbrev writer : BitWriter
writer = record {
  buf = 1 ∷ 2 ∷ 3 ∷ 4 ∷ 9 ∷ 9 ∷ 9 ∷ 9 ∷ 9 ∷ [];
  scratch = 200;
  scratch_bits = 8;
  word_index = 4;
  bits_written = 40;
}

writer-IsValid : Writing.IsValid writer
writer-IsValid = omega arith

rollback-written_example :
    (w' : BitWriter) × (rollback writer 10 ≡ some w')
    × Writing.IsValid w'
    × (written w' ≡ written writer % 2 ^ 10)
    × (w'.bits_written ≡ 10)
    × (w'.buf ≡ writer.buf)
rollback-written_example = rollback-written writer 10 writer-IsValid (omega arith) (omega arith)

abbrev reader : BitReader
reader = record {
  buffer = 1 ∷ 2 ∷ 3 ∷ 4 ∷ 9 ∷ [];
  scratch = 2;
  scratch_bits = 2;
  byte_index = 1;
  bits_read = 6;
}

reader-IsValid : Reading.IsValid reader
reader-IsValid = omega arith

read_bits-Taken_example :
    (r' : BitReader) × (read_bits reader 32 ≡ some (r', ok (unread reader % 2 ^ 32)))
    × Taken reader r' 32
unfolding bits_left
read_bits-Taken_example = read_bits-Taken reader 32 reader-IsValid (omega arith) (omega arith)

read_all-write_all_example :
    (w : BitWriter) × (out : List ℕ) × (n : ℕ) × (r : BitReader) × (write_all
        (new_writer (replicate 6 255))
        ((5, 3) ∷ (0xFFFF_FFFF, 32) ∷ (300, 8) ∷ [])
      ≡ some (w, ok tt))
    × (finish w ≡ some (out, n))
    × (read_all (new_reader (take n out)) (3 ∷ 32 ∷ 8 ∷ [])
        ≡ some (r, ok (5 ∷ 0xFFFF_FFFF ∷ 44 ∷ [])))
read_all-write_all_example =
    read_all-write_all (replicate 6 255) ((5, 3) ∷ (0xFFFF_FFFF, 32) ∷ (300, 8) ∷ []) (omega arith)
      (omega arith) (omega arith)
