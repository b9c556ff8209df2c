-- ===== src/Bits/Reading.antt =====
-- `BitReader::read_bits` of hex-net-core/src/bits.rs against the number that is still unread.
use hex_net.Common.{
  ℕ, zero, suc, ◌+◌, ◌-◌, ◌*◌, ◌/◌, ◌%◌, ◌^◌, ◌≤◌, ◌<◌, ◌≡◌, refl, ap, subst, sym, ◌∙◌, List, ◌∷◌,
  arith, length, take, drop, ok, err, some, bit_or, bit_and, ltb, leb, Bool-cases, inl, inr, true,
  false, get_elem?, length-drop,
}
use hex_net.Common.Slices.{drop_of_get, get_of_lt}
use hex_net.Common.Ranges.{range, length-range}
use hex_net.Common.Masks.{bit_or_fields, bit_and_mask}
use hex_net.Wire.Bytes.{from_le}
use hex_net.Wire.Header.{ReadError}
use hex_net.Bits.{BitReader, new_reader, bits_left, load, refill, read_bits}
use hex_net.Bits.Written.{
  weight, pow_add, pow_le, above_lt, mod_lt_pow, AreBytes, AreBytes-drop, AreBytes-take, drop-drop,
  from_le-lt, from_le-take-drop,
}
use native.Mathlib.Nat.{
  mod-eq_of_lt, add-mul-mod_self_right, add-mul-div_right, one-le-pow, div-lt_iff_lt-mul,
}

-- The bits that are still to be read, as a number.
unfoldable pub unread : BitReader → ℕ
unread r = r.scratch + from_le (drop r.byte_index r.buffer) * 2 ^ r.scratch_bits

-- A position of the reader and the bits that it holds.
pub record IsValid (r : BitReader) : Type 0 where
  pub bytes : AreBytes r.buffer
  pub small : r.scratch < 2 ^ r.scratch_bits
  pub within : r.byte_index ≤ length r.buffer
  pub position : r.bits_read + r.scratch_bits ≡ 8 * r.byte_index

pub new_reader-IsValid : (buffer : List ℕ) → AreBytes buffer → IsValid (new_reader buffer)
unfolding new_reader
new_reader-IsValid buffer b = record {
  bytes = b;
  small = omega arith;
  within = omega arith;
  position = omega arith;
}

pub new_reader-unread : (buffer : List ℕ) → unread (new_reader buffer) ≡ from_le buffer
unfolding unread new_reader
new_reader-unread buffer = omega arith

-- What a load leaves and what it brings.
Loaded : BitReader → BitReader → Type 0
Loaded r r' =
    IsValid r'
    × (unread r' ≡ unread r)
    × (r.scratch_bits + 8 ≤ r'.scratch_bits)
    × (r'.scratch_bits ≤ r.scratch_bits + 32)
    × (r'.bits_read ≡ r.bits_read)
    × (r'.buffer ≡ r.buffer)

-- `n` bytes of value `v` go above the pending bits.
load-shift :
    (scratch bits v n rest : ℕ)
    → scratch < 2 ^ bits
    → v < 2 ^ n
    → bits + n ≤ 64
    → (bit_or (v * 2 ^ bits % 2 ^ 64) scratch ≡ scratch + v * 2 ^ bits)
      × (scratch + v * 2 ^ bits < 2 ^ (bits + n))
      × (scratch + v * 2 ^ bits + rest * 2 ^ (bits + n) ≡ scratch + (v + 2 ^ n * rest) * 2 ^ bits)
load-shift scratch bits v n rest small fits room =
    let bound = above_lt bits n scratch v small fits in
    let wide = pow_le (bits + n) 64 room in
    let whole : v * 2 ^ bits % 2 ^ 64 ≡ v * 2 ^ bits = mod-eq_of_lt (omega arith) in
    (
      rw whole (bit_or_fields bits v scratch small ∙ omega arith),
      bound,
      omega (arith, ap (λ t. rest * t) (pow_add bits n)),
    )

cut_word :
    (buffer : List ℕ) (at : ℕ)
    → AreBytes buffer
    → at + 4 ≤ length buffer
    → (from_le (drop at buffer)
        ≡ from_le (range buffer at 4) + 2 ^ 32 * from_le (drop (at + 4) buffer))
      × (from_le (range buffer at 4) < 2 ^ 32)
unfolding weight
cut_word buffer at b room =
    let size = length-range buffer at 4 room in
    (
      from_le-take-drop 4 (drop at buffer) (omega (arith, length-drop at buffer))
          ∙ ap (λ l. from_le (take 4 (drop at buffer)) + 2 ^ 32 * from_le l)
              (drop-drop at 4 buffer),
      (let lt =
            from_le-lt (range buffer at 4)
              (AreBytes-take 4 (drop at buffer) (AreBytes-drop at buffer b)) in
          omega (arith, ap weight size)),
    )

cut_byte :
    (buffer : List ℕ) (at b : ℕ)
    → AreBytes buffer
    → get_elem? buffer at ≡ some b
    → (from_le (drop at buffer) ≡ b + 2 ^ 8 * from_le (drop (at + 1) buffer)) × (b < 2 ^ 8)
cut_byte buffer at b bytes got =
    let e : drop at buffer ≡ b ∷ drop (suc at) buffer = drop_of_get buffer at b got in
    let next : suc at ≡ at + 1 = omega arith in
    let (byte, rest) = subst (λ l. AreBytes l) e (AreBytes-drop at buffer bytes) in
    (ap from_le e ∙ ap (λ k. b + 256 * from_le (drop k buffer)) next, byte)

load-Loaded :
    (r : BitReader)
    → IsValid r
    → r.byte_index < length r.buffer
    → r.scratch_bits ≤ 31
    → (r' : BitReader) × (load r ≡ some r') × Loaded r r'
unfolding load Loaded unread
load-Loaded r valid more few = elim (Bool-cases (leb (r.byte_index + 4) (length r.buffer))) [
  | inl whole ↦
      let room : r.byte_index + 4 ≤ length r.buffer = ground arith in
      let (cut, word) = cut_word r.buffer r.byte_index valid.bytes room in
      let (joined, bound, number) =
        load-shift r.scratch r.scratch_bits (from_le (range r.buffer r.byte_index 4)) 32
          (from_le (drop (r.byte_index + 4) r.buffer)) valid.small word (omega arith) in
      (
        record r {
          scratch =
              bit_or (from_le (range r.buffer r.byte_index 4) * 2 ^ r.scratch_bits % 2 ^ 64)
                r.scratch;
          scratch_bits = r.scratch_bits + 32;
          byte_index = r.byte_index + 4;
        },
        rw whole refl,
        (
          record {
            bytes = valid.bytes;
            small = rw joined bound;
            within = room;
            position = omega (arith, valid.position);
          },
          rw (joined, cut) number,
          omega arith,
          omega arith,
          refl,
          refl,
        ),
      )
  | inr part ↦
      let (b, got) = get_of_lt r.buffer r.byte_index more in
      let (cut, byte) = cut_byte r.buffer r.byte_index b valid.bytes got in
      let (joined, bound, number) =
        load-shift r.scratch r.scratch_bits b 8 (from_le (drop (r.byte_index + 1) r.buffer))
          valid.small byte (omega arith) in
      (
        record r {
          scratch = bit_or (b * 2 ^ r.scratch_bits % 2 ^ 64) r.scratch;
          scratch_bits = r.scratch_bits + 8;
          byte_index = r.byte_index + 1;
        },
        rw (part, got) refl,
        (
          record {
            bytes = valid.bytes;
            small = rw joined bound;
            within = omega arith;
            position = omega (arith, valid.position);
          },
          rw (joined, cut) number,
          omega arith,
          omega arith,
          refl,
          refl,
        ),
      )
]

-- What the loop leaves: enough bits for the read, the same number unread.
Refilled : BitReader → BitReader → ℕ → Type 0
Refilled r r' bits =
    IsValid r'
    × (unread r' ≡ unread r)
    × (bits ≤ r'.scratch_bits)
    × (r'.bits_read ≡ r.bits_read)
    × (r'.buffer ≡ r.buffer)

refill-Refilled :
    (fuel : ℕ) (r : BitReader) (bits : ℕ)
    → IsValid r
    → bits ≤ 32
    → r.bits_read + bits ≤ length r.buffer * 8
    → bits ≤ fuel + r.scratch_bits
    → (r' : BitReader) × (refill fuel r bits ≡ some r') × Refilled r r' bits
unfolding refill Refilled Loaded
refill-Refilled zero r bits valid narrow room enough =
    let go : ltb r.scratch_bits bits ≡ false = ground arith in
    (r, rw go refl, (valid, refl, omega arith, refl, refl))
refill-Refilled (suc fuel) r bits valid narrow room enough =
    elim (Bool-cases (ltb r.scratch_bits bits)) [
      | inr full ↦ (r, rw full refl, (valid, refl, ground arith, refl, refl))
      | inl short ↦
          let few : r.scratch_bits < bits = ground arith in
          let (r', made, (valid', same, more, most, read, buf)) =
            load-Loaded r valid (omega (arith, valid.position)) (omega arith) in
          let len : length r'.buffer ≡ length r.buffer = ap (λ b. length b) buf in
          let (r'', made', (valid'', same', full, read', buf')) =
            refill-Refilled fuel r' bits valid' narrow (omega arith) (omega arith) in
          (r'', rw (short, made) made', (valid'', same' ∙ same, full, read' ∙ read, buf' ∙ buf))
    ]

take_bits :
    (s rest bits left : ℕ)
    → s < 2 ^ (bits + left)
    → ((s + rest * 2 ^ (bits + left)) % 2 ^ bits ≡ s % 2 ^ bits)
      × ((s + rest * 2 ^ (bits + left)) / 2 ^ bits ≡ s / 2 ^ bits + rest * 2 ^ left)
      × (s / 2 ^ bits < 2 ^ left)
take_bits s rest bits left h =
    let e : s + rest * 2 ^ (bits + left) ≡ s + rest * 2 ^ left * 2 ^ bits =
      omega (arith, ap (λ t. rest * t) (pow_add bits left)) in
    (
      ap (λ t. t % 2 ^ bits) e ∙ add-mul-mod_self_right s (rest * 2 ^ left) (2 ^ bits),
      ap (λ t. t / 2 ^ bits) e
          ∙ add-mul-div_right s (rest * 2 ^ left) {z = 2 ^ bits} (one-le-pow bits 2 (omega arith)),
      (div-lt_iff_lt-mul {k = 2 ^ bits} {x = s} {y = 2 ^ left} (one-le-pow bits 2 (omega arith))).1
          (omega (arith, pow_add bits left)),
    )

-- A step of the reader.
abbrev pub Taken : BitReader → BitReader → ℕ → Type 0
Taken r r' bits =
    IsValid r'
    × (unread r' ≡ unread r / 2 ^ bits)
    × (r'.bits_read ≡ r.bits_read + bits)
    × (r'.buffer ≡ r.buffer)

-- With so many bits left, a read gives the lowest `bits` of what is unread and takes them off it.
pub read_bits-Taken :
    (r : BitReader) (bits : ℕ)
    → IsValid r
    → bits ≤ 32
    → bits ≤ bits_left r
    → (r' : BitReader) × (read_bits r bits ≡ some (r', ok (unread r % 2 ^ bits))) × Taken r r' bits
unfolding read_bits bits_left unread Refilled
read_bits-Taken r bits valid narrow room =
    let go : ltb (length r.buffer * 8 - r.bits_read) bits ≡ false = ground arith in
    let (r', made, (valid', same, full, read, buf)) =
      refill-Refilled bits r bits valid narrow (omega arith) (omega arith) in
    let left = r'.scratch_bits - bits in
    let e : bits + left ≡ r'.scratch_bits = omega arith in
    let rest = from_le (drop r'.byte_index r'.buffer) in
    let (low, high, small) = take_bits r'.scratch rest bits left (rw e valid'.small) in
    let width = pow_le bits 32 narrow in
    let short : r'.scratch % 2 ^ bits % 2 ^ 32 ≡ r'.scratch % 2 ^ bits =
      mod-eq_of_lt (omega (arith, mod_lt_pow r'.scratch bits)) in
    let value : bit_and r'.scratch (2 ^ bits - 1) % 2 ^ 32 ≡ unread r % 2 ^ bits =
      rw (bit_and_mask bits r'.scratch) (
        short
        ∙ sym low
        ∙ ap (λ t. (r'.scratch + rest * 2 ^ t) % 2 ^ bits) e
        ∙ ap (λ t. t % 2 ^ bits) same) in
    (
      record r' {
        scratch = r'.scratch / 2 ^ bits;
        scratch_bits = r'.scratch_bits - bits;
        bits_read = r'.bits_read + bits;
      },
      rw (go, made, value) refl,
      (
        record {
          bytes = valid'.bytes;
          small = small;
          within = valid'.within;
          position = omega (arith, valid'.position);
        },
        sym high ∙ ap (λ t. (r'.scratch + rest * 2 ^ t) / 2 ^ bits) e ∙ ap (λ t. t / 2 ^ bits) same,
        omega arith,
        buf,
      ),
    )

-- Past the end, a read consumes nothing.
pub read_bits-eof :
    (r : BitReader) (bits : ℕ) → bits_left r < bits → read_bits r bits ≡ some (r, err ReadError.eof)
unfolding read_bits
read_bits-eof r bits h = let go : ltb (bits_left r) bits ≡ true = ground arith in rw go refl
