-- ===== src/Bits/Writing.antt =====
-- `BitWriter::write_bits` and `finish` of hex-net-core/src/bits.rs against the number that is written.
use hex_net.Common.{
  ℕ, zero, ◌+◌, ◌-◌, ◌*◌, ◌/◌, ◌%◌, ◌^◌, ◌≤◌, ◌<◌, ◌≡◌, refl, ap, subst, sym, ◌∙◌, List, arith,
  length, length-take, take, suc, ok, err, some, ltb, leb, Bool-cases, inl, inr, true, false,
}
use hex_net.Common.Slices.{splice, length-splice}
use hex_net.Common.Masks.{bit_or_fields, bit_and_mask}
use hex_net.Wire.Bytes.{to_le, from_le, from_le-to_le32}
use hex_net.Wire.Handshake.{WriteError}
use hex_net.Bits.{
  BitWriter, new_writer, bits_remaining, place, flush, write_bits, finish, flush_partial, div_ceil8,
}
use hex_net.Bits.Written.{
  weight, pow_add, pow_le, above_lt, mod_lt_pow, AreBytes, AreBytes-splice, AreBytes-take,
  AreBytes-to_le, from_le-written,
}
use native.Mathlib.Nat.{mod-eq_of_lt}

-- The bits written so far, as a number.
unfoldable pub written : BitWriter → ℕ
written w = from_le (take w.word_index w.buf) + w.scratch * weight w.word_index

-- A position of the writer and the bits that are pending there.
pub record IsValid (w : BitWriter) : Type 0 where
  pub small : w.scratch < 2 ^ w.scratch_bits
  pub pending : w.scratch_bits < 32
  pub aligned : w.word_index % 4 ≡ 0
  pub position : w.bits_written ≡ 8 * w.word_index + w.scratch_bits
  pub fits : w.bits_written ≤ length w.buf * 8

pub new_writer-IsValid : (buf : List ℕ) → IsValid (new_writer buf)
unfolding new_writer
new_writer-IsValid buf = omega arith

-- Placing bits adds them above the pending ones, and nothing of the 64 bits is lost.
pub place-scratch :
    (w : BitWriter) (value bits : ℕ)
    → w.scratch < 2 ^ w.scratch_bits
    → w.scratch_bits < 32
    → bits ≤ 32
    → ((place w value bits).scratch ≡ w.scratch + value % 2 ^ bits * 2 ^ w.scratch_bits)
      × (w.scratch + value % 2 ^ bits * 2 ^ w.scratch_bits < 2 ^ (w.scratch_bits + bits))
unfolding place
place-scratch w value bits small pending narrow =
    let x = value % 2 ^ bits in
    let sb = w.scratch_bits in
    let bound = above_lt sb bits w.scratch x small (mod_lt_pow value bits) in
    let wide = pow_le (sb + bits) 64 (omega arith) in
    let whole : x * 2 ^ sb % 2 ^ 64 ≡ x * 2 ^ sb = mod-eq_of_lt (omega arith) in
    (rw (bit_and_mask bits value, whole) (bit_or_fields sb x w.scratch small ∙ omega arith), bound)

-- A step of the writer: what it wrote, where it stands, and that the buffer keeps its length.
abbrev pub Appended : BitWriter → BitWriter → ℕ → ℕ → Type 0
Appended w w' value bits =
    IsValid w'
    × (written w' ≡ written w + value * 2 ^ w.bits_written)
    × (w'.bits_written ≡ w.bits_written + bits)
    × (length w'.buf ≡ length w.buf)
    × (AreBytes w.buf → AreBytes w'.buf)

-- The number with `x` placed at bit `8 * at + pending`.
split_position :
    (base scratch x at pending : ℕ)
    → base + (scratch + x * 2 ^ pending) * weight at
      ≡ base + scratch * weight at + x * 2 ^ (8 * at + pending)
unfolding weight
split_position base scratch x at pending = omega (arith, ap (λ t. x * t) (pow_add (8 * at) pending))

weight_four : (n : ℕ) → weight (n + 4) ≡ weight n * 2 ^ 32
unfolding weight
weight_four n = let e : 8 * (n + 4) ≡ 8 * n + 32 = omega arith in rw e (pow_add (8 * n) 32)

-- A flush keeps the number.
flush-written :
    (w : BitWriter)
    → w.scratch < 2 ^ 64
    → w.word_index + 4 ≤ length w.buf
    → (w' : BitWriter) × (flush w ≡ some w')
      × (written w' ≡ written w)
      × (w'.scratch ≡ w.scratch / 2 ^ 32)
      × (w'.scratch_bits ≡ w.scratch_bits - 32)
      × (w'.word_index ≡ w.word_index + 4)
      × (w'.bits_written ≡ w.bits_written)
      × (length w'.buf ≡ length w.buf)
      × (AreBytes w.buf → AreBytes w'.buf)
unfolding flush written
flush-written w wide room =
    let word = to_le 4 (w.scratch % 2 ^ 32) in
    let go : leb (w.word_index + 4) (length w.buf) ≡ true = ground arith in
    let halves : w.scratch ≡ w.scratch % 2 ^ 32 + w.scratch / 2 ^ 32 * 2 ^ 32 = omega arith in
    let low = from_le-to_le32 (w.scratch % 2 ^ 32) (omega arith) in
    let kept = from_le-written w.buf w.word_index word room in
    (
      record w {
        buf = splice w.buf w.word_index word;
        scratch = w.scratch / 2 ^ 32;
        scratch_bits = w.scratch_bits - 32;
        word_index = w.word_index + 4;
      },
      rw go refl,
      rw (kept, low, weight_four w.word_index)
          (omega (arith, ap (λ t. t * weight w.word_index) halves)),
      refl,
      refl,
      refl,
      refl,
      length-splice w.buf w.word_index word,
      λ b. AreBytes-splice w.buf w.word_index word b (AreBytes-to_le 4 (w.scratch % 2 ^ 32)),
    )

halve_lt : (s n : ℕ) → s < 2 ^ (32 + n) → s / 2 ^ 32 < 2 ^ n
halve_lt s n h = omega (arith, pow_add 32 n)

place-written :
    (w : BitWriter) (value bits : ℕ)
    → IsValid w
    → bits ≤ 32
    → written (place w value bits) ≡ written w + value % 2 ^ bits * 2 ^ w.bits_written
unfolding written place
place-written w value bits valid narrow =
    let (placed, bound) = place-scratch w value bits valid.small valid.pending narrow in
    let e : (place w value bits).scratch ≡ w.scratch + value % 2 ^ bits * 2 ^ w.scratch_bits =
      placed in
    ap (λ t. from_le (take w.word_index w.buf) + t * weight w.word_index) e
    ∙ split_position (from_le (take w.word_index w.buf)) w.scratch (value % 2 ^ bits) w.word_index
        w.scratch_bits
    ∙ ap (λ t. written w + value % 2 ^ bits * 2 ^ t) (sym valid.position)

-- What placing leaves as it was, and where it moves to.
place-position :
    (w : BitWriter) (value bits : ℕ)
    → ((place w value bits).buf ≡ w.buf)
      × ((place w value bits).word_index ≡ w.word_index)
      × ((place w value bits).scratch_bits ≡ w.scratch_bits + bits)
      × ((place w value bits).bits_written ≡ w.bits_written + bits)
unfolding place
place-position w value bits = (refl, refl, refl, refl)

-- With room for them, the low `bits` of a value are appended, and the writer stays valid.
pub write_bits-Appended :
    (w : BitWriter) (value bits : ℕ)
    → IsValid w
    → bits ≤ 32
    → bits ≤ bits_remaining w
    → (w' : BitWriter) × (write_bits w value bits ≡ some (w', ok tt))
      × Appended w w' (value % 2 ^ bits) bits
unfolding bits_remaining write_bits
write_bits-Appended w value bits valid narrow room =
    let go : ltb (bits_remaining w) bits ≡ false = ground arith in
    let (placed, bound) = place-scratch w value bits valid.small valid.pending narrow in
    let (buf, at, pending, total) = place-position w value bits in
    let len : length (place w value bits).buf ≡ length w.buf = ap (λ b. length b) buf in
    let number = place-written w value bits valid narrow in
    elim (Bool-cases (leb 32 (place w value bits).scratch_bits)) [
      | inl full ↦
          let wide = pow_le (w.scratch_bits + bits) 64 (omega arith) in
          let fits : 32 ≤ w.scratch_bits + bits = ground arith in
          let (w', made, same, scratch', pending', at', total', len', bytes) =
            flush-written (place w value bits) (omega arith) (omega arith) in
          let e : 32 + (w.scratch_bits + bits - 32) ≡ w.scratch_bits + bits = omega arith in
          let small =
            halve_lt (place w value bits).scratch (w.scratch_bits + bits - 32)
              (rw (e, placed) bound) in
          let small' : w'.scratch < 2 ^ w'.scratch_bits = rw (scratch', pending', pending) small in
          (
            w',
            rw (go, full, made) refl,
            (
              omega arith,
              same ∙ number,
              omega arith,
              omega arith,
              λ b. bytes (subst (λ l. AreBytes l) (sym buf) b),
            ),
          )
      | inr part ↦
          let short : w.scratch_bits + bits < 32 = ground arith in
          let small : (place w value bits).scratch < 2 ^ (place w value bits).scratch_bits =
            rw (placed, pending) bound in
          (
            place w value bits,
            rw (go, part) refl,
            (omega arith, number, total, len, λ b. subst (λ l. AreBytes l) (sym buf) b),
          )
    ]

-- Without the room, nothing is consumed.
pub write_bits-overflow :
    (w : BitWriter) (value bits : ℕ)
    → bits_remaining w < bits
    → write_bits w value bits ≡ some (w, err WriteError.overflow)
unfolding write_bits
write_bits-overflow w value bits h =
    let go : ltb (bits_remaining w) bits ≡ true = ground arith in rw go refl

take_le : (k s : ℕ) → s < 2 ^ (8 * k) → k ≤ 4 → from_le (take k (to_le 4 s)) ≡ s
take_le zero s h le = omega arith
take_le (suc zero) s h le = omega arith
take_le (suc (suc zero)) s h le = omega arith
take_le (suc (suc (suc zero))) s h le = omega arith
take_le (suc (suc (suc (suc zero)))) s h le = omega arith
take_le (suc (suc (suc (suc (suc k))))) s h le = absurd (omega arith)

-- With the pending bits in it, the buffer begins with the number that was written.
pub flush_partial-written :
    (w : BitWriter)
    → IsValid w
    → (buf : List ℕ) × (flush_partial w ≡ some (record w { buf = buf }))
      × (from_le (take (div_ceil8 w.bits_written) buf) ≡ written w)
      × (div_ceil8 w.bits_written ≤ length buf)
      × (AreBytes w.buf → AreBytes buf)
      × (length buf ≡ length w.buf)
unfolding flush_partial written
flush_partial-written w valid =
    let k = div_ceil8 w.scratch_bits in
    let tail = take k (to_le 4 (w.scratch % 2 ^ 32)) in
    let wide = pow_le w.scratch_bits 32 (omega arith) in
    let word : w.scratch % 2 ^ 32 ≡ w.scratch = mod-eq_of_lt (omega arith) in
    let size : length tail ≡ k = omega (arith, length-take k (to_le 4 (w.scratch % 2 ^ 32))) in
    let stop : w.word_index + length tail ≡ div_ceil8 w.bits_written = omega arith in
    let room : w.word_index + length tail ≤ length w.buf = omega arith in
    let go : leb (w.word_index + length tail) (length w.buf) ≡ true = ground arith in
    let value : from_le tail ≡ w.scratch = rw word (
      take_le k w.scratch (omega (arith, pow_le w.scratch_bits (8 * k) (omega arith)))
        (omega arith)) in
    let kept = from_le-written w.buf w.word_index tail room in
    (
      splice w.buf w.word_index tail,
      rw go refl,
      ap (λ n. from_le (take n (splice w.buf w.word_index tail))) (sym stop)
          ∙ kept
          ∙ (omega (arith, ap (λ t. t * weight w.word_index) value)),
      omega (arith, length-splice w.buf w.word_index tail),
      λ b.
          AreBytes-splice w.buf w.word_index tail b (
            AreBytes-take k (to_le 4 (w.scratch % 2 ^ 32)) (AreBytes-to_le 4 (w.scratch % 2 ^ 32))),
      length-splice w.buf w.word_index tail,
    )

-- The finished buffer begins with the number that was written.
pub finish-written :
    (w : BitWriter)
    → IsValid w
    → (buf : List ℕ) × (finish w ≡ some (buf, div_ceil8 w.bits_written))
      × (from_le (take (div_ceil8 w.bits_written) buf) ≡ written w)
      × (div_ceil8 w.bits_written ≤ length buf)
      × (AreBytes w.buf → AreBytes buf)
unfolding finish
finish-written w valid =
    let (buf, made, value, fits, bytes, len) = flush_partial-written w valid in
    (buf, rw made refl, value, fits, bytes)
