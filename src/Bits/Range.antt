-- ===== src/Bits/Range.antt =====
-- Values of a declared range in hex-net-core/src/bits.rs.
use hex_net.Common.{
  ℕ, ◌+◌, ◌-◌, ◌%◌, ◌^◌, ◌≤◌, ◌<◌, ◌≡◌, refl, arith, ok, err, some, ltb, ◌⊎◌, inl, inr, Bool-cases,
  true, false,
}
use hex_net.Wire.Header.{ReadError}
use hex_net.Wire.Handshake.{WriteError}
use hex_net.Config.{bits_required, bits_required_lem}
use hex_net.Bits.{
  BitWriter, bits_remaining, write_range, BitReader, bits_left, read_range, wrapping_sub32,
}
use hex_net.Bits.Writing
use hex_net.Bits.Reading
use native.Mathlib.Nat.{mod-eq_of_lt}

-- A value of the range is written as its distance from the low end.
write_range-Appended :
    (w : BitWriter) (value low high : ℕ)
    → Writing.IsValid w
    → low ≤ value
    → value ≤ high
    → low < high
    → high < 2 ^ 32
    → bits_required (high - low) ≤ bits_remaining w
    → (w' : BitWriter) × (write_range w value low high ≡ some (w', ok tt))
      × Writing.Appended w w' (value - low) (bits_required (high - low))
unfolding write_range
write_range-Appended w value low high valid le ge proper word room =
    let (fits, narrow, tight) = bits_required_lem (high - low) (omega arith) (omega arith) in
    let offset : wrapping_sub32 value low ≡ value - low = omega arith in
    let go : ltb (high - low) (value - low) ≡ false = ground arith in
    let (w', made, done) =
      Writing.write_bits-Appended w (value - low) (bits_required (high - low)) valid narrow room in
    let small : (value - low) % 2 ^ bits_required (high - low) ≡ value - low =
      mod-eq_of_lt (omega arith) in
    (w', rw (offset, go) made, rw small at done)

-- A value below or above the range is refused, and nothing is consumed.
write_range-out_of_range :
    (w : BitWriter) (value low high : ℕ)
    → low ≤ high
    → high < 2 ^ 32
    → value < 2 ^ 32
    → (value < low) ⊎ (high < value)
    → write_range w value low high ≡ some (w, err WriteError.out_of_range)
unfolding write_range
write_range-out_of_range w value low high le word small out =
    let far : high - low < wrapping_sub32 value low = omega arith in
    let go : ltb (high - low) (wrapping_sub32 value low) ≡ true = ground arith in rw go refl

-- What a read of the range does, on every branch: past the end it consumes nothing; otherwise it
-- takes the range's bits, and gives a value of the range or refuses the offset.
read_range_lem :
    (r : BitReader) (low high : ℕ)
    → Reading.IsValid r
    → low < high
    → high < 2 ^ 32
    → ((bits_left r < bits_required (high - low))
        × (read_range r low high ≡ some (r, err ReadError.eof)))
      ⊎ ((r' : BitReader) × (offset : ℕ) × (offset
            ≡ Reading.unread r % 2 ^ bits_required (high - low))
          × Reading.Taken r r' (bits_required (high - low))
          × (((high - low < offset)
                × (read_range r low high ≡ some (r', err ReadError.out_of_range)))
              ⊎ ((low + offset ≤ high) × (read_range r low high ≡ some (r', ok (low + offset))))))
unfolding read_range
read_range_lem r low high valid proper word =
    let bits = bits_required (high - low) in
    let (fits, narrow, tight) = bits_required_lem (high - low) (omega arith) (omega arith) in
    elim (Bool-cases (ltb (bits_left r) bits)) [
      | inl short ↦
          let h : bits_left r < bits = ground arith in
          inl (h, rw (Reading.read_bits-eof r bits h) refl)
      | inr enough ↦
          let h : bits ≤ bits_left r = ground arith in
          let (r', made, taken) = Reading.read_bits-Taken r bits valid narrow h in
          let offset = Reading.unread r % 2 ^ bits in
          inr (
            r',
            offset,
            refl,
            taken,
            elim (Bool-cases (ltb (high - low) offset)) [
              | inl far ↦
                  let far' : high - low < offset = ground arith in inl (far', rw (made, far) refl)
              | inr near ↦
                  let near' : low + offset ≤ high = ground arith in
                  inr (near', rw (made, near) refl)
            ],
          )
    ]
