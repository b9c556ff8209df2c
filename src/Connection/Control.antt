-- ===== src/Connection/Control.antt =====
-- Control frames of hex-net-core/src/connection.rs: the queue of those owed, and the writing of one, which
-- leaves the packet as it was when any part of the frame does not fit.
use hex_net.Common.{
  ℕ, ◌+◌, ◌*◌, ◌%◌, ◌^◌, ◌<◌, ◌≡◌, refl, ap, sym, ◌∙◌, subst, Bool, true, false, Option, none, some,
  arith, ltb, ◌>>=◌, ok, err, Bool-cases, inl, inr, ◌⊎◌,
}
use hex_net.Wire.Handshake.{WriteError}
use hex_net.Wire.Kinds.{ControlKind, FrameKind, control_code, frame_code, kind_bits}
use hex_net.Bits.{BitWriter, Written, write_bits, and_then, rollback, bits_remaining}
use hex_net.Bits.Written.{pow_add, AreBytes}
use hex_net.Bits.Writing.{IsValid, written, Appended, write_bits-Appended, write_bits-overflow}
use native.Mathlib.Nat.{mod-eq_of_lt}
use hex_net.Bits.Position.{rollback-written}
use hex_net.Connection.Steps.{
  Extends, Extends-refl, Extends-trans, Appended-Extends, Steps, IsTame, written-lt,
}

-- `FrameKind::write` and `ControlKind::write`.
unfoldable pub write_frame_kind : FrameKind → BitWriter → Written
write_frame_kind kind w = write_bits w (frame_code kind) kind_bits

unfoldable pub write_control_kind : ControlKind → BitWriter → Written
write_control_kind kind w = write_bits w (control_code kind) kind_bits

-- The end of `write_frame`: a failure is rolled back.
unfoldable pub settled : ℕ → Written → Option (BitWriter × Bool)
settled at none = none
settled at (some (w, ok _)) = some (w, true)
settled at (some (w, err _)) = do w' ← rollback w at; some (w', false)

unfoldable pub write_frame :
    BitWriter → ControlKind → (BitWriter → Written) → Option (BitWriter × Bool)
write_frame w kind body = settled w.bits_written (
    and_then (write_frame_kind FrameKind.control w)
      (λ w'. and_then (write_control_kind kind w') body))

-- Two pieces behind each other are one piece.
Appended-trans :
    (w w0 w1 : BitWriter) (low high m n : ℕ)
    → Appended w w0 low m
    → Appended w0 w1 high n
    → Appended w w1 (low + high * 2 ^ m) (m + n)
Appended-trans w w0 w1 low high m n (valid, number, total, len, keep)
      (valid', number', total', len', keep') =
    let weight : 2 ^ w0.bits_written ≡ 2 ^ w.bits_written * 2 ^ m =
      ap (λ k. 2 ^ k) total ∙ pow_add w.bits_written m in
    (
      valid',
      omega (arith, number, number', ap (λ t. high * t) weight),
      omega (arith, total, total'),
      len' ∙ len,
      λ bytes. keep' (keep bytes),
    )

-- Both kinds of a control frame stand behind what was written before.
abbrev pub Headed : BitWriter → ControlKind → BitWriter → Type 0
Headed w kind w1 =
    Appended w w1 (frame_code FrameKind.control + control_code kind * 2 ^ kind_bits)
      (kind_bits + kind_bits)

-- The frame is there whole: both kinds, and behind them what the body writes.
abbrev pub IsWhole : BitWriter → ControlKind → (BitWriter → Written) → BitWriter → Type 0
IsWhole w kind body w' = (w1 : BitWriter) × Headed w kind w1 × (body w1 ≡ some (w', ok tt))

-- The frame does not fit: not its kinds, or not its body behind them.
abbrev pub IsTooLong : BitWriter → ControlKind → (BitWriter → Written) → Type 0
IsTooLong w kind body =
    (bits_remaining w < kind_bits + kind_bits)
    ⊎ ((w1 : BitWriter) × (w2 : BitWriter) × (e : WriteError) × Headed w kind w1
        × (body w1 ≡ some (w2, err e)))

abbrev frame : BitWriter → ControlKind → (BitWriter → Written) → Written
frame w kind body =
    and_then (write_frame_kind FrameKind.control w)
      (λ w'. and_then (write_control_kind kind w') body)

-- The kinds do not fit, or the body is written behind them.
frame_cases :
    (w : BitWriter) (kind : ControlKind) (body : BitWriter → Written)
    → IsValid w
    → AreBytes w.buf
    → ((bits_remaining w < kind_bits + kind_bits)
        × (w0 : BitWriter) × (frame w kind body ≡ some (w0, err WriteError.overflow))
        × Extends w w0)
      ⊎ ((w1 : BitWriter) × Headed w kind w1 × (frame w kind body ≡ body w1))
unfolding write_frame_kind write_control_kind bits_remaining
frame_cases w kind body valid bytes = elim (Bool-cases (ltb (bits_remaining w) kind_bits)) [
  | inl full ↦ inl (
    ground arith,
    w,
    rw (write_bits-overflow w (frame_code FrameKind.control) kind_bits (ground arith)) refl,
    Extends-refl w valid bytes,
  )
  | inr room ↦
      let first = frame_code FrameKind.control in
      let second = control_code kind in
      let (w0, made, appended) =
        write_bits-Appended w first kind_bits valid (omega arith) (ground arith) in
      let ext = Appended-Extends w w0 first kind_bits valid bytes appended in
      let (valid0, number0, total0, len0, keep0) = appended in
      elim (Bool-cases (ltb (bits_remaining w0) kind_bits)) [
        | inl full ↦ inl (
          ground arith,
          w0,
          rw (made, write_bits-overflow w0 second kind_bits (ground arith)) refl,
          ext,
        )
        | inr room0 ↦
            let (w1, made1, appended1) =
              write_bits-Appended w0 second kind_bits valid0 (omega arith) (ground arith) in
            let cut : second % 2 ^ kind_bits ≡ second = ground arith in
            let appended1' = subst (λ v. Appended w0 w1 v kind_bits) cut appended1 in
            inr (
              w1,
              Appended-trans w w0 w1 first second kind_bits kind_bits appended appended1',
              rw (made, made1) refl,
            )
      ]
]

-- A frame that failed leaves the writer where it stood, with what it had.
abbrev Undone : BitWriter → ControlKind → (BitWriter → Written) → Type 0
Undone w kind body =
    (w' : BitWriter) × Extends w w'
    × (write_frame w kind body ≡ some (w', false))
    × (w'.bits_written ≡ w.bits_written)
    × (written w' ≡ written w)

failed_frame :
    (w w0 : BitWriter) (kind : ControlKind) (body : BitWriter → Written) (e : WriteError)
    → IsValid w
    → AreBytes w.buf
    → frame w kind body ≡ some (w0, err e)
    → Extends w w0
    → Undone w kind body
unfolding write_frame settled
failed_frame w w0 kind body e valid bytes made ext =
    let (w', back, valid', number, total, buf) =
      rollback-written w0 w.bits_written ext.valid ext.bytes ext.forward in
    let same : written w' ≡ written w = number ∙ ext.kept in
    (
      w',
      record {
        valid = valid';
        bytes = subst (λ b. AreBytes b) (sym buf) ext.bytes;
        forward = omega (arith, total);
        kept = ap (λ t. t % 2 ^ w.bits_written) same ∙ mod-eq_of_lt (written-lt w valid bytes);
      },
      rw (made, back) refl,
      total,
      same,
    )

-- The two ways in which a call ends.
abbrev pub Settles : BitWriter → ControlKind → (BitWriter → Written) → BitWriter → Type 0
Settles w kind body w' =
    ((write_frame w kind body ≡ some (w', true)) × IsWhole w kind body w')
    ⊎ ((write_frame w kind body ≡ some (w', false))
        × IsTooLong w kind body
        × (w'.bits_written ≡ w.bits_written)
        × (written w' ≡ written w))

-- A control frame is written whole or not at all. From a valid writer, and with a body that never
-- disturbs what was written, the call does not panic. Either the frame's two kinds are appended to the
-- packet and the body is written behind them without an error, in front of which the packet so far is
-- kept, and the call reports so. Or the kinds do not fit, or the body fails behind them; then the call
-- reports that nothing was written, and the writer stands where it stood and has written what it had.
pub write_frame_lem :
    (w : BitWriter) (kind : ControlKind) (body : BitWriter → Written)
    → IsValid w
    → AreBytes w.buf
    → IsTame body
    → (w' : BitWriter) × Extends w w' × Settles w kind body w'
unfolding write_frame settled
write_frame_lem w kind body valid bytes tame = elim (frame_cases w kind body valid bytes) [
  | inl (full, w0, made, ext) ↦ undone WriteError.overflow w0 made ext (inl full)
  | inr (w1, headed, made) ↦
      let ext =
        Appended-Extends w w1 (frame_code FrameKind.control + control_code kind * 2 ^ kind_bits)
          (kind_bits + kind_bits) valid bytes headed in
      bodied w1 headed made ext (tame w1 ext.valid ext.bytes)
]
  where
    undone :
        (e : WriteError) (w0 : BitWriter)
        → frame w kind body ≡ some (w0, err e)
        → Extends w w0
        → IsTooLong w kind body
        → (w' : BitWriter) × Extends w w' × Settles w kind body w'
    undone e w0 made ext long =
        let (w', ext', back, total, same) = failed_frame w w0 kind body e valid bytes made ext in
        (w', ext', inr (back, long, total, same))

    bodied :
        (w1 : BitWriter)
        → Headed w kind w1
        → frame w kind body ≡ body w1
        → Extends w w1
        → Steps w1 (body w1)
        → (w' : BitWriter) × Extends w w' × Settles w kind body w'
    bodied w1 headed made ext (w', ok u, wrote, ext') =
        (w', Extends-trans w w1 w' ext ext', inl (rw (made, wrote) refl, (w1, headed, wrote)))
    bodied w1 headed made ext (w', err e, wrote, ext') =
        undone e w' (made ∙ wrote) (Extends-trans w w1 w' ext ext') (inr (w1, w', e, headed, wrote))
