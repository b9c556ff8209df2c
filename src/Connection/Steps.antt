-- ===== src/Connection/Steps.antt =====
-- What the writing of control frames in hex-net-core/src/connection.rs does to the packet so far, whether
-- what is written fits or not.
use hex_net.Common.{
  ℕ, ◌*◌, ◌/◌, ◌%◌, ◌^◌, ◌≤◌, ◌<◌, ◌≡◌, refl, ap, sym, ◌∙◌, some, arith, ltb, Result, ok, err,
  Bool-cases, inl, inr, length, length-take, take,
}
use hex_net.Wire.Bytes.{from_le}
use hex_net.Wire.Handshake.{WriteError}
use hex_net.Bits.{BitWriter, Written, write_bits, write_u64, and_then, bits_remaining}
use hex_net.Bits.Written.{AreBytes, AreBytes-take, weight, above_lt, from_le-lt, mod_high, low_part}
use hex_net.Bits.Writing.{IsValid, written, Appended, write_bits-Appended, write_bits-overflow}
use native.Mathlib.Nat.{mod-eq_of_lt, div-add-mod'}

-- What a step of the writer does, whether it fits or not: what was written before stays.
pub record Extends (w w' : BitWriter) : Type 0 where
  pub valid : IsValid w'
  pub bytes : AreBytes w'.buf
  pub forward : w.bits_written ≤ w'.bits_written
  pub kept : written w' % 2 ^ w.bits_written ≡ written w

abbrev pub Steps : BitWriter → Written → Type 0
Steps w m =
    (w' : BitWriter) × (r : Result (Unit {0}) WriteError) × (m ≡ some (w', r)) × Extends w w'

-- Steps so from every valid writer.
abbrev pub IsTame : (BitWriter → Written) → Type 0
IsTame body = (w : BitWriter) → IsValid w → AreBytes w.buf → Steps w (body w)

pub written-lt : (w : BitWriter) → IsValid w → AreBytes w.buf → written w < 2 ^ w.bits_written
unfolding written weight
written-lt w valid bytes =
    let small = from_le-lt (take w.word_index w.buf) (AreBytes-take w.word_index w.buf bytes) in
    let size : length (take w.word_index w.buf) ≡ w.word_index =
      omega (arith, valid.position, valid.fits, length-take w.word_index w.buf) in
    let bound =
      above_lt (8 * w.word_index) w.scratch_bits (from_le (take w.word_index w.buf)) w.scratch
        (omega (arith, ap weight size)) valid.small in
    omega (arith, bound, ap (λ n. 2 ^ n) valid.position)

pub Extends-refl : (w : BitWriter) → IsValid w → AreBytes w.buf → Extends w w
Extends-refl w valid bytes = record {
  valid = valid;
  bytes = bytes;
  forward = omega arith;
  kept = mod-eq_of_lt (written-lt w valid bytes);
}

-- Cut to fewer bits, the number is cut to them at once.
mod_mod_pow : (n p q : ℕ) → p ≤ q → n % 2 ^ q % 2 ^ p ≡ n % 2 ^ p
mod_mod_pow n p q le =
    sym (mod_high p q (n % 2 ^ q) (n / 2 ^ q) le)
    ∙ ap (λ t. t % 2 ^ p) (omega (arith, div-add-mod' n (2 ^ q)))

pub Extends-trans : (a b c : BitWriter) → Extends a b → Extends b c → Extends a c
Extends-trans a b c ab bc = record {
  valid = bc.valid;
  bytes = bc.bytes;
  forward = omega (arith, ab.forward, bc.forward);
  kept =
      sym (mod_mod_pow (written c) a.bits_written b.bits_written ab.forward)
      ∙ ap (λ t. t % 2 ^ a.bits_written) bc.kept
      ∙ ab.kept;
}

-- Appending bits extends.
pub Appended-Extends :
    (w w' : BitWriter) (value bits : ℕ)
    → IsValid w
    → AreBytes w.buf
    → Appended w w' value bits
    → Extends w w'
Appended-Extends w w' value bits valid bytes (valid', number, total, len, keep) = record {
  valid = valid';
  bytes = keep bytes;
  forward = omega (arith, total);
  kept =
      ap (λ t. t % 2 ^ w.bits_written) number
      ∙ low_part w.bits_written (written w) value (written-lt w valid bytes);
}

pub write_bits-IsTame : (value bits : ℕ) → bits ≤ 32 → IsTame (λ w. write_bits w value bits)
write_bits-IsTame value bits narrow w valid bytes =
    elim (Bool-cases (ltb (bits_remaining w) bits)) [
      | inl full ↦
          let h : bits_remaining w < bits = ground arith in
          (
            w,
            err WriteError.overflow,
            write_bits-overflow w value bits h,
            Extends-refl w valid bytes,
          )
      | inr room ↦
          let h : bits ≤ bits_remaining w = ground arith in
          let (w', made, appended) = write_bits-Appended w value bits valid narrow h in
          (w', ok tt, made, Appended-Extends w w' (value % 2 ^ bits) bits valid bytes appended)
    ]

pub and_then-Steps :
    (w : BitWriter) (m : Written) (f : BitWriter → Written)
    → Steps w m
    → IsTame f
    → Steps w (and_then m f)
and_then-Steps w m f (w', err e, made, ext) tame = (w', err e, rw made refl, ext)
and_then-Steps w m f (w', ok u, made, ext) tame =
    let (w'', r, made', ext') = tame w' ext.valid ext.bytes in
    (w'', r, rw made made', Extends-trans w w' w'' ext ext')

pub write_u64-IsTame : (value : ℕ) → IsTame (λ w. write_u64 w value)
unfolding write_u64
write_u64-IsTame value w valid bytes =
    and_then-Steps w (write_bits w (value % 2 ^ 32) 32)
      (λ w'. write_bits w' (value / 2 ^ 32 % 2 ^ 32) 32)
      (write_bits-IsTame (value % 2 ^ 32) 32 (omega arith) w valid bytes)
      (write_bits-IsTame (value / 2 ^ 32 % 2 ^ 32) 32 (omega arith))
