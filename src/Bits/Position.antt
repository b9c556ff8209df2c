-- ===== src/Bits/Position.antt =====
-- `rollback` and `write_bytes` of hex-net-core/src/bits.rs: the writer rebuilt from a position.
use hex_net.Common.{
  ℕ, suc, ◌+◌, ◌-◌, ◌*◌, ◌/◌, ◌%◌, ◌^◌, ◌≤◌, ◌<◌, ◌≡◌, refl, ap, sym, ◌∙◌, List, [], ◌∷◌, arith,
  length, take, drop, ok, some, length-take, ltb, leb, if◌then◌else◌, Bool-cases, inl, inr, true,
  false, ◌==◌, bit_and,
}
use hex_net.Common.Slices.{splice, length-splice}
use hex_net.Common.Masks.{bit_and_mask}
use hex_net.Wire.Bytes.{from_le}
use hex_net.Bits.{BitWriter, bits_remaining, write_bytes, reposition, reload, rollback, div_ceil8}
use hex_net.Bits.Written.{
  weight, pow_add, low_part, mod_high, above_lt, AreBytes, AreBytes-take, AreBytes-splice,
  mod_lt_pow, from_le-take-drop, from_le-lt, from_le-written,
}
use hex_net.Bits.Writing.{written, IsValid, Appended, flush_partial-written}
use native.Mathlib.Nat.{div-add-mod'}

-- The bits below `m` stay, and of those above `k` are kept.
mod_above : (m k a z : ℕ) → a < 2 ^ m → (a + z * 2 ^ m) % 2 ^ (m + k) ≡ a + z % 2 ^ k * 2 ^ m
mod_above m k a z h =
    let split : a + z * 2 ^ m ≡ a + z % 2 ^ k * 2 ^ m + z / 2 ^ k * 2 ^ (m + k) = omega (
      arith,
      ap (λ t. t * 2 ^ m) (div-add-mod' z (2 ^ k)),
      ap (λ t. z / 2 ^ k * t) (pow_add m k),
    ) in
    ap (λ t. t % 2 ^ (m + k)) split
    ∙ low_part (m + k) (a + z % 2 ^ k * 2 ^ m) (z / 2 ^ k)
        (above_lt m k a (z % 2 ^ k) h (mod_lt_pow z k))

-- The low bits of a buffer are those of its first word.
low_word : (xs : List ℕ) (k : ℕ) → k ≤ 32 → from_le xs % 2 ^ k ≡ from_le (take 4 xs) % 2 ^ k
low_word [] k h = refl
low_word (a ∷ []) k h = refl
low_word (a ∷ b ∷ []) k h = refl
low_word (a ∷ b ∷ c ∷ []) k h = refl
low_word (a ∷ b ∷ c ∷ d ∷ rest) k h =
    (let e : from_le (a ∷ b ∷ c ∷ d ∷ rest) ≡ from_le (a ∷ b ∷ c ∷ d ∷ []) + from_le rest * 2 ^ 32 =
        omega arith in
      ap (λ t. t % 2 ^ k) e)
    ∙ mod_high k 32 (from_le (a ∷ b ∷ c ∷ d ∷ [])) (from_le rest) h

-- The bits of the buffer before a position.
cut_at :
    (buf : List ℕ) (pos : ℕ)
    → AreBytes buf
    → pos ≤ length buf * 8
    → from_le (take (pos / 32 * 4) buf)
        + reload buf (pos / 32 * 4) % 2 ^ (pos % 32) * weight (pos / 32 * 4)
      ≡ from_le buf % 2 ^ pos
unfolding weight reload
cut_at buf pos bytes h =
    let at = pos / 32 * 4 in
    let k = pos % 32 in
    let small = from_le-lt (take at buf) (AreBytes-take at buf bytes) in
    let size : length (take at buf) ≡ at = omega (arith, length-take at buf) in
    let whole : from_le buf ≡ from_le (take at buf) + from_le (drop at buf) * 2 ^ (8 * at) =
      from_le-take-drop at buf (omega arith) ∙ omega arith in
    let e : pos ≡ 8 * at + k = omega arith in
    ap (λ t. from_le (take at buf) + t * 2 ^ (8 * at))
      (sym (low_word (drop at buf) k (omega arith)))
    ∙ sym (
        mod_above (8 * at) k (from_le (take at buf)) (from_le (drop at buf))
          (omega (arith, ap weight size)))
    ∙ ap (λ t. t % 2 ^ (8 * at + k)) (sym whole)
    ∙ ap (λ t. from_le buf % 2 ^ t) (sym e)

reposition-scratch :
    (buf : List ℕ) (pos : ℕ)
    → (reposition buf pos).scratch ≡ reload buf (pos / 32 * 4) % 2 ^ (pos % 32)
unfolding reposition
reposition-scratch buf pos = elim (Bool-cases (pos % 32 == 0)) [
  | inl zero_bits ↦ let e : pos % 32 ≡ 0 = ground arith in rw zero_bits (rw e (omega arith))
  | inr some_bits ↦ rw some_bits (bit_and_mask (pos % 32) (reload buf (pos / 32 * 4)))
]

-- Rebuilt from a position, the writer has written what the buffer holds before it.
pub reposition-written :
    (buf : List ℕ) (pos : ℕ)
    → AreBytes buf
    → pos ≤ length buf * 8
    → IsValid (reposition buf pos) × (written (reposition buf pos) ≡ from_le buf % 2 ^ pos)
unfolding written reposition
reposition-written buf pos bytes h =
    let e = reposition-scratch buf pos in
    (
      record {
        small = rw e (mod_lt_pow (reload buf (pos / 32 * 4)) (pos % 32));
        pending = omega arith;
        aligned = omega arith;
        position = omega arith;
        fits = h;
      },
      ap (λ t. from_le (take (pos / 32 * 4) buf) + t * weight (pos / 32 * 4)) e
          ∙ cut_at buf pos bytes h,
    )

-- The bits that are pending at an earlier position.
abbrev rolled : BitWriter → ℕ → ℕ
rolled w at = if ltb at w.word_index then reload w.buf at else w.scratch

rolled-cut :
    (w : BitWriter) (pos : ℕ)
    → IsValid w
    → AreBytes w.buf
    → pos ≤ w.bits_written
    → from_le (take (pos / 32 * 4) w.buf)
        + rolled w (pos / 32 * 4) % 2 ^ (pos % 32) * weight (pos / 32 * 4)
      ≡ written w % 2 ^ pos
unfolding written weight
rolled-cut w pos valid bytes le =
    let at = pos / 32 * 4 in
    let prefix = from_le (take w.word_index w.buf) in
    elim (Bool-cases (ltb at w.word_index)) [
      | inl earlier ↦
          let lt : at < w.word_index = ground arith in
          let far : pos ≤ 8 * w.word_index = omega (arith, valid.aligned, valid.position) in
          let whole : from_le w.buf
              ≡ prefix + from_le (drop w.word_index w.buf) * 2 ^ (8 * w.word_index) =
            from_le-take-drop w.word_index w.buf (omega arith) ∙ omega arith in
          rw earlier (
            cut_at w.buf pos bytes (omega arith)
            ∙ ap (λ t. t % 2 ^ pos) whole
            ∙ mod_high pos (8 * w.word_index) prefix (from_le (drop w.word_index w.buf)) far
            ∙ sym (mod_high pos (8 * w.word_index) prefix w.scratch far))
      | inr here ↦
          let same : at ≡ w.word_index = ground (arith, valid.aligned, valid.position) in
          let e : pos ≡ 8 * w.word_index + pos % 32 = omega arith in
          let small =
            from_le-lt (take w.word_index w.buf) (AreBytes-take w.word_index w.buf bytes) in
          let size : length (take w.word_index w.buf) ≡ w.word_index =
            omega (arith, length-take w.word_index w.buf) in
          rw here (
            ap (λ n. from_le (take n w.buf) + w.scratch % 2 ^ (pos % 32) * weight n) same
            ∙ sym (
                mod_above (8 * w.word_index) (pos % 32) prefix w.scratch
                  (omega (arith, ap weight size)))
            ∙ ap (λ n. (prefix + w.scratch * 2 ^ (8 * w.word_index)) % 2 ^ n) (sym e))
    ]

-- Rolled back to a position that was passed, the writer is valid there, and of the number that was
-- written the bits before the position are left.
pub rollback-written :
    (w : BitWriter) (pos : ℕ)
    → IsValid w
    → AreBytes w.buf
    → pos ≤ w.bits_written
    → (w' : BitWriter) × (rollback w pos ≡ some w')
      × IsValid w'
      × (written w' ≡ written w % 2 ^ pos)
      × (w'.bits_written ≡ pos)
      × (w'.buf ≡ w.buf)
unfolding rollback written
rollback-written w pos valid bytes le =
    let go : ltb w.bits_written pos ≡ false = ground arith in
    let at = pos / 32 * 4 in
    let s = rolled w at in
    let e : bit_and s (2 ^ (pos % 32) - 1) ≡ s % 2 ^ (pos % 32) = bit_and_mask (pos % 32) s in
    (
      record w {
        scratch = bit_and s (2 ^ (pos % 32) - 1);
        scratch_bits = pos % 32;
        word_index = at;
        bits_written = pos;
      },
      rw go refl,
      record {
        small = rw e (mod_lt_pow s (pos % 32));
        pending = omega arith;
        aligned = omega arith;
        position = omega arith;
        fits = omega arith;
      },
      ap (λ t. from_le (take at w.buf) + t * weight at) e ∙ rolled-cut w pos valid bytes le,
      refl,
      refl,
    )

-- What a buffer holds before the end of a slice that is written into it.
appended :
    (buf bytes : List ℕ) (at pos : ℕ)
    → AreBytes buf
    → AreBytes bytes
    → at + length bytes ≤ length buf
    → pos ≡ 8 * (at + length bytes)
    → from_le (splice buf at bytes) % 2 ^ pos ≡ from_le (take at buf) + from_le bytes * 2 ^ (8 * at)
unfolding weight
appended buf bytes at pos clean given inside e =
    let out = splice buf at bytes in
    let stop = at + length bytes in
    let len = length-splice buf at bytes in
    let small =
      from_le-lt (take stop out)
        (AreBytes-take stop out (AreBytes-splice buf at bytes clean given)) in
    let size : length (take stop out) ≡ stop = omega (arith, length-take stop out) in
    let whole : from_le out ≡ from_le (take stop out) + from_le (drop stop out) * 2 ^ (8 * stop) =
      from_le-take-drop stop out (omega arith) ∙ omega arith in
    ap (λ n. from_le out % 2 ^ n) e
    ∙ ap (λ t. t % 2 ^ (8 * stop)) whole
    ∙ low_part (8 * stop) (from_le (take stop out)) (from_le (drop stop out))
        (omega (arith, ap weight size))
    ∙ from_le-written buf at bytes inside
    ∙ omega arith

-- At a byte boundary, with room for them, whole bytes are appended, and the writer stays valid.
pub write_bytes-Appended :
    (w : BitWriter) (bytes : List ℕ)
    → IsValid w
    → AreBytes w.buf
    → AreBytes bytes
    → w.bits_written % 8 ≡ 0
    → length bytes * 8 ≤ bits_remaining w
    → (w' : BitWriter) × (write_bytes w bytes ≡ some (w', ok tt))
      × Appended w w' (from_le bytes) (length bytes * 8)
unfolding write_bytes bits_remaining reposition
write_bytes-Appended w [] valid clean given even room =
    let go : ltb (length w.buf * 8 - w.bits_written) 0 ≡ false = ground arith in
    (w, rw go refl, (valid, omega arith, omega arith, refl, λ b. b))
write_bytes-Appended w (x ∷ xs) valid clean given even room =
    let bytes : List ℕ = x ∷ xs in
    let (flushed, made, value, fits, keep, len) = flush_partial-written w valid in
    let at = w.bits_written / 8 in
    let e : div_ceil8 w.bits_written ≡ at = omega arith in
    let go : ltb (length w.buf * 8 - w.bits_written) (length bytes * 8) ≡ false = ground arith in
    let some_bytes : (suc (length xs) == 0) ≡ false = ground arith in
    let inside : at + length bytes ≤ length flushed = omega arith in
    let copied : leb (at + length bytes) (length flushed) ≡ true = ground arith in
    let out = splice flushed at bytes in
    let same_len : length out ≡ length w.buf = length-splice flushed at bytes ∙ len in
    let clean' = AreBytes-splice flushed at bytes (keep clean) given in
    let pos = w.bits_written + length bytes * 8 in
    let (valid', number) = reposition-written out pos clean' (omega arith) in
    (
      reposition out pos,
      rw (go, some_bytes, made, copied) refl,
      (
        valid',
        number
            ∙ appended flushed bytes at pos (keep clean) given inside (omega arith)
            ∙ ap (λ n. from_le (take n flushed) + from_le bytes * 2 ^ (8 * at)) (sym e)
            ∙ ap (λ v. v + from_le bytes * 2 ^ (8 * at)) value
            ∙ ap (λ n. written w + from_le bytes * 2 ^ n) (omega arith),
        refl,
        same_len,
        λ b. clean',
      ),
    )
