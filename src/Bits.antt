-- ===== src/Bits.antt =====
-- hex-net-core/src/bits.rs: the bit writer and the bit reader. Bytes are numbers below 256, an `i32`
-- is the `u32` of its pattern, and `none` of an operation is a panic: an index past a buffer.
pub mod Written
pub mod Writing
pub mod Position
pub mod Reading
pub mod Codec
pub mod Range
use hex_net.Common.{
  ℕ, zero, suc, ◌+◌, ◌-◌, ◌*◌, ◌/◌, ◌%◌, ◌^◌, min, bit_and, bit_or, Bool, true, false, not, Option,
  none, some, List, ◌∷◌, [], ◌++◌, Result, ok, err, ltb, leb, ◌==◌, if◌then◌else◌, ◌>>=◌, length,
  take, drop, get_elem?, replicate,
}
use hex_net.Common.Slices.{splice}
use hex_net.Common.Ranges.{range}
use hex_net.Wire.Bytes.{to_le, from_le, slice?}
use hex_net.Wire.Header.{ReadError}
use hex_net.Wire.Handshake.{WriteError}
use hex_net.Config.{bits_required}

-- `scratch` holds the bits that are not flushed yet, in its low `scratch_bits` positions.
pub record BitWriter : Type 0 where
  pub buf : List ℕ
  pub scratch : ℕ
  pub scratch_bits : ℕ
  pub word_index : ℕ
  pub bits_written : ℕ

unfoldable pub new_writer : List ℕ → BitWriter
new_writer buf = record {
  buf = buf;
  scratch = 0;
  scratch_bits = 0;
  word_index = 0;
  bits_written = 0;
}

unfoldable pub bits_remaining : BitWriter → ℕ
bits_remaining w = length w.buf * 8 - w.bits_written

abbrev pub Written : Type 0
Written = Option (BitWriter × Result (Unit {0}) WriteError)

-- `copy_from_slice` into a range of the buffer.
abbrev pub copy_to : List ℕ → ℕ → List ℕ → Option (List ℕ)
copy_to buf at bytes =
    if leb (at + length bytes) (length buf) then some (splice buf at bytes) else none

-- The bits below `2 ^ bits` of the value, placed above the pending ones.
unfoldable pub place : BitWriter → ℕ → ℕ → BitWriter
place w value bits = record w {
  scratch = bit_or (bit_and value (2 ^ bits - 1) * 2 ^ w.scratch_bits % 2 ^ 64) w.scratch;
  scratch_bits = w.scratch_bits + bits;
  bits_written = w.bits_written + bits;
}

-- A full word goes to the buffer.
unfoldable pub flush : BitWriter → Option BitWriter
flush w = do
  buf ← copy_to w.buf w.word_index (to_le 4 (w.scratch % 2 ^ 32))
  some (record w {
    buf = buf;
    scratch = w.scratch / 2 ^ 32;
    scratch_bits = w.scratch_bits - 32;
    word_index = w.word_index + 4;
  })

unfoldable pub write_bits : BitWriter → ℕ → ℕ → Written
write_bits w value bits =
    if ltb (bits_remaining w) bits
    then some (w, err WriteError.overflow)
    else (let placed = place w value bits in
        do
          w' ← (if leb 32 placed.scratch_bits then flush placed else some placed)
          some (w', ok tt))

abbrev pub bit_of : Bool → ℕ
bit_of true = 1
bit_of false = 0

unfoldable pub write_bool : BitWriter → Bool → Written
write_bool w value = write_bits w (bit_of value) 1

-- `?` on a write.
abbrev pub and_then : Written → (BitWriter → Written) → Written
and_then none f = none
and_then (some (w, err e)) f = some (w, err e)
and_then (some (w, ok _)) f = f w

unfoldable pub write_u64 : BitWriter → ℕ → Written
write_u64 w value =
    and_then (write_bits w (value % 2 ^ 32) 32) (λ w'. write_bits w' (value / 2 ^ 32 % 2 ^ 32) 32)

-- `wrapping_sub` on `u32`.
abbrev pub wrapping_sub32 : ℕ → ℕ → ℕ
wrapping_sub32 a b = (a + 2 ^ 32 - b) % 2 ^ 32

-- The end that both forms of `write_range` share.
abbrev pub write_offset : BitWriter → ℕ → ℕ → Written
write_offset w offset range =
    if ltb range offset
    then some (w, err WriteError.out_of_range)
    else write_bits w offset (bits_required range)

unfoldable pub write_range : BitWriter → ℕ → ℕ → ℕ → Written
write_range w value low high = write_offset w (wrapping_sub32 value low) (high - low)

unfoldable pub write_range_i32 : BitWriter → ℕ → ℕ → ℕ → Written
write_range_i32 w value low high =
    write_offset w (wrapping_sub32 value low) (wrapping_sub32 high low)

abbrev pub padding : ℕ → ℕ
padding bits = (8 - bits % 8) % 8

unfoldable pub align : BitWriter → Written
align w = write_bits w 0 (padding w.bits_written)

abbrev pub div_ceil8 : ℕ → ℕ
div_ceil8 n = (n + 7) / 8

unfoldable pub flush_partial : BitWriter → Option BitWriter
flush_partial w = do
  buf ← copy_to w.buf w.word_index (take (div_ceil8 w.scratch_bits) (to_le 4 (w.scratch % 2 ^ 32)))
  some (record w { buf = buf })

-- Up to four bytes of the buffer, filled up with zeros.
unfoldable pub reload : List ℕ → ℕ → ℕ
reload buf at = from_le (range buf at 4)

-- The position, from the number of bits before it.
unfoldable pub reposition : List ℕ → ℕ → BitWriter
reposition buf bits = record {
  buf = buf;
  scratch =
      if not (bits % 32 == 0)
      then bit_and (reload buf (bits / 32 * 4)) (2 ^ (bits % 32) - 1)
      else 0;
  scratch_bits = bits % 32;
  word_index = bits / 32 * 4;
  bits_written = bits;
}

unfoldable pub write_bytes : BitWriter → List ℕ → Written
write_bytes w bytes =
    if ltb (bits_remaining w) (length bytes * 8)
    then some (w, err WriteError.overflow)
    else (if length bytes == 0 then some (w, ok tt) else (do
      flushed ← flush_partial w
      buf ← copy_to flushed.buf (w.bits_written / 8) bytes
      some (reposition buf (w.bits_written + length bytes * 8), ok tt)))

-- A checkpoint is a number of bits. `none` is the assertion that it is not ahead.
unfoldable pub rollback : BitWriter → ℕ → Option BitWriter
rollback w pos =
    if ltb w.bits_written pos
    then none
    else some (record w {
      scratch =
          bit_and
            (if ltb (pos / 32 * 4) w.word_index then reload w.buf (pos / 32 * 4) else w.scratch)
            (2 ^ (pos % 32) - 1);
      scratch_bits = pos % 32;
      word_index = pos / 32 * 4;
      bits_written = pos;
    })

-- The buffer and the length in bytes.
unfoldable pub finish : BitWriter → Option (List ℕ × ℕ)
finish w = do flushed ← flush_partial w; some (flushed.buf, div_ceil8 w.bits_written)

pub record BitReader : Type 0 where
  pub buffer : List ℕ
  pub scratch : ℕ
  pub scratch_bits : ℕ
  pub byte_index : ℕ
  pub bits_read : ℕ

unfoldable pub new_reader : List ℕ → BitReader
new_reader buffer = record {
  buffer = buffer;
  scratch = 0;
  scratch_bits = 0;
  byte_index = 0;
  bits_read = 0;
}

unfoldable pub bits_left : BitReader → ℕ
bits_left r = length r.buffer * 8 - r.bits_read

abbrev pub Read : Type 0 → Type 0
Read A = Option (BitReader × Result A ReadError)

-- More bytes above the pending bits: a word, or one byte of the tail.
unfoldable pub load : BitReader → Option BitReader
load r =
    if leb (r.byte_index + 4) (length r.buffer)
    then some (record r {
      scratch =
          bit_or (from_le (range r.buffer r.byte_index 4) * 2 ^ r.scratch_bits % 2 ^ 64) r.scratch;
      scratch_bits = r.scratch_bits + 32;
      byte_index = r.byte_index + 4;
    })
    else (do
      byte ← get_elem? r.buffer r.byte_index
      some (record r {
        scratch = bit_or (byte * 2 ^ r.scratch_bits % 2 ^ 64) r.scratch;
        scratch_bits = r.scratch_bits + 8;
        byte_index = r.byte_index + 1;
      }))

-- The loop of `read_bits`, on fuel: every round loads at least eight bits.
unfoldable pub refill : ℕ → BitReader → ℕ → Option BitReader
refill zero r bits = if ltb r.scratch_bits bits then none else some r
refill (suc fuel) r bits =
    if ltb r.scratch_bits bits then (do r' ← load r; refill fuel r' bits) else some r

unfoldable pub read_bits : BitReader → ℕ → Read ℕ
read_bits r bits = if ltb (bits_left r) bits then some (r, err ReadError.eof) else (do
  r' ← refill bits r bits
  some (
    record r' {
      scratch = r'.scratch / 2 ^ bits;
      scratch_bits = r'.scratch_bits - bits;
      bits_read = r'.bits_read + bits;
    },
    ok (bit_and r'.scratch (2 ^ bits - 1) % 2 ^ 32),
  ))

-- `?` on a read.
abbrev pub and_read : {A B : Type 0} → Read A → (BitReader → A → Read B) → Read B
and_read none f = none
and_read (some (r, err e)) f = some (r, err e)
and_read (some (r, ok a)) f = f r a

unfoldable pub read_bool : BitReader → Read Bool
read_bool r = and_read (read_bits r 1) (λ r' value. some (r', ok (not (value == 0))))

unfoldable pub read_u64 : BitReader → Read ℕ
read_u64 r = and_read (read_bits r 32) (λ r' low.
    and_read (read_bits r' 32) (λ r'' high. some (r'', ok (bit_or (high * 2 ^ 32 % 2 ^ 64) low))))

unfoldable pub read_range : BitReader → ℕ → ℕ → Read ℕ
read_range r low high = and_read (read_bits r (bits_required (high - low))) (λ r' offset.
    if ltb (high - low) offset
    then some (r', err ReadError.out_of_range)
    else some (r', ok (low + offset)))

unfoldable pub read_range_i32 : BitReader → ℕ → ℕ → Read ℕ
read_range_i32 r low high =
    and_read (read_bits r (bits_required (wrapping_sub32 high low))) (λ r' offset.
      if ltb (wrapping_sub32 high low) offset
      then some (r', err ReadError.out_of_range)
      else some (r', ok ((low + offset) % 2 ^ 32)))

unfoldable pub align_reader : BitReader → Read (Unit {0})
align_reader r = and_read (read_bits r (padding r.bits_read)) (λ r' _. some (r', ok tt))

unfoldable pub peek_bytes : BitReader → ℕ → Option (List ℕ)
peek_bytes r len =
    if not (r.bits_read % 8 == 0)
    then none
    else slice? r.buffer (r.bits_read / 8) (r.bits_read / 8 + len)

unfoldable pub skip_bytes : BitReader → ℕ → BitReader × Result (Unit {0}) ReadError
skip_bytes r len = if ltb (bits_left r) (len * 8) then (r, err ReadError.eof) else (
  record r {
    bits_read = r.bits_read + len * 8;
    byte_index = (r.bits_read + len * 8) / 8;
    scratch = 0;
    scratch_bits = 0;
  },
  ok tt,
)
