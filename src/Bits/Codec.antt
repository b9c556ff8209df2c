-- ===== src/Bits/Codec.antt =====
-- What `BitWriter` of hex-net-core/src/bits.rs writes, `BitReader` reads back.
use hex_net.Common.{
  ℕ, ◌+◌, ◌*◌, ◌/◌, ◌%◌, ◌^◌, ◌≤◌, ◌≡◌, refl, ap, ◌∙◌, List, [], ◌∷◌, arith, length, take, ok, some,
  length-take,
}
use hex_net.Wire.Bytes.{from_le}
use hex_net.Bits.{
  BitWriter, new_writer, bits_remaining, write_bits, Written, and_then, finish, div_ceil8,
  BitReader, new_reader, bits_left, read_bits, Read, and_read,
}
use hex_net.Bits.Written.{pow_add, low_part, high_part, AreBytes, AreBytes-take, mod_lt_pow}
use hex_net.Bits.Writing
use hex_net.Bits.Reading

-- A value and its width.
pub Field : Type 0
Field = ℕ × ℕ

abbrev pub width : List (ℕ × ℕ) → ℕ
width [] = 0
width ((v, b) ∷ fields) = b + width fields

abbrev pub widths : List (ℕ × ℕ) → List ℕ
widths [] = []
widths ((v, b) ∷ fields) = b ∷ widths fields

abbrev pub values : List (ℕ × ℕ) → List ℕ
values [] = []
values ((v, b) ∷ fields) = v % 2 ^ b ∷ values fields

-- At most 32 bits each.
abbrev pub AreNarrow : List (ℕ × ℕ) → Type 0
AreNarrow [] = Unit {0}
AreNarrow ((v, b) ∷ fields) = (b ≤ 32) × AreNarrow fields

unfoldable pub write_all : BitWriter → List (ℕ × ℕ) → Written
write_all w [] = some (w, ok tt)
write_all w ((v, b) ∷ fields) = and_then (write_bits w v b) (λ w'. write_all w' fields)

unfoldable pub read_all : BitReader → List ℕ → Read (List ℕ)
read_all r [] = some (r, ok [])
read_all r (b ∷ bits) =
    and_read (read_bits r b)
      (λ r' v. and_read (read_all r' bits) (λ r'' vs. some (r'', ok (v ∷ vs))))

-- The fields as one number, the first in the lowest bits.
packed : List (ℕ × ℕ) → ℕ
packed [] = 0
packed ((v, b) ∷ fields) = v % 2 ^ b + packed fields * 2 ^ b

write_all-Appended :
    (w : BitWriter) (fields : List (ℕ × ℕ))
    → Writing.IsValid w
    → AreNarrow fields
    → width fields ≤ bits_remaining w
    → (w' : BitWriter) × (write_all w fields ≡ some (w', ok tt))
      × Writing.Appended w w' (packed fields) (width fields)
unfolding write_all packed bits_remaining
write_all-Appended w [] valid narrow room =
    (w, refl, (valid, omega arith, omega arith, refl, λ b. b))
write_all-Appended w ((v, b) ∷ fields) valid (thin, narrow) room =
    let (w', made, (valid', number, total, len, bytes)) =
      Writing.write_bits-Appended w v b valid thin (omega arith) in
    let (w'', made', (valid'', number', total', len', bytes')) =
      write_all-Appended w' fields valid' narrow (omega arith) in
    let e : 2 ^ w'.bits_written ≡ 2 ^ w.bits_written * 2 ^ b =
      rw total (pow_add w.bits_written b) in
    (
      w'',
      rw made made',
      (
        valid'',
        omega (arith, number, number', ap (λ t. packed fields * t) e),
        omega arith,
        omega arith,
        λ h. bytes' (bytes h),
      ),
    )

read_all-values :
    (r : BitReader) (fields : List (ℕ × ℕ))
    → Reading.IsValid r
    → AreNarrow fields
    → width fields ≤ bits_left r
    → Reading.unread r ≡ packed fields
    → (r' : BitReader) × (read_all r (widths fields) ≡ some (r', ok (values fields)))
unfolding read_all packed bits_left
read_all-values r [] valid narrow room same = (r, refl)
read_all-values r ((v, b) ∷ fields) valid (thin, narrow) room same =
    let (r', made, (valid', rest, total, buf)) =
      Reading.read_bits-Taken r b valid thin (omega arith) in
    let small = mod_lt_pow v b in
    let first : Reading.unread r % 2 ^ b ≡ v % 2 ^ b =
      ap (λ n. n % 2 ^ b) same ∙ low_part b (v % 2 ^ b) (packed fields) small in
    let others : Reading.unread r' ≡ packed fields =
      rest ∙ ap (λ n. n / 2 ^ b) same ∙ high_part b (v % 2 ^ b) (packed fields) small in
    let len : length r'.buffer ≡ length r.buffer = ap (λ l. length l) buf in
    let (r'', made') = read_all-values r' fields valid' narrow (omega arith) others in
    (r'', rw (made, made', first) refl)

-- Fields of at most 32 bits that fit the buffer are all written; and of the finished bytes, read with
-- the same widths, the same values come back, each cut to its width.
pub read_all-write_all :
    (buf : List ℕ) (fields : List (ℕ × ℕ))
    → AreBytes buf
    → AreNarrow fields
    → width fields ≤ length buf * 8
    → (w : BitWriter) × (out : List ℕ) × (n : ℕ) × (r : BitReader) × (write_all
          (new_writer buf)
          fields
        ≡ some (w, ok tt))
      × (finish w ≡ some (out, n))
      × (read_all (new_reader (take n out)) (widths fields) ≡ some (r, ok (values fields)))
unfolding new_writer bits_remaining bits_left new_reader Writing.written
read_all-write_all buf fields bytes narrow room =
    let (w, made, (valid, number, total, len, keep)) =
      write_all-Appended (new_writer buf) fields (Writing.new_writer-IsValid buf) narrow
        (omega arith) in
    let (out, done, value, fits, keep') = Writing.finish-written w valid in
    let n = div_ceil8 w.bits_written in
    let size : length (take n out) ≡ n = omega (arith, length-take n out) in
    let packed_value : from_le (take n out) ≡ packed fields = omega (arith, value, number) in
    let (r, back) =
      read_all-values (new_reader (take n out)) fields
        (Reading.new_reader-IsValid (take n out) (AreBytes-take n out (keep' (keep bytes)))) narrow
        (omega arith) (Reading.new_reader-unread (take n out) ∙ packed_value) in
    (w, out, n, r, made, done, back)
