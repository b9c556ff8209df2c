-- ===== src/Connection/Queue.antt =====
-- `ControlQueue` of hex-net-core/src/connection.rs: which control frames wait for a packet.
use hex_net.Common.{
  ℕ, ◌-◌, ◌*◌, ◌%◌, ◌^◌, ◌≤◌, ◌<◌, ◌≡◌, refl, Bool, true, false, Option, some, List, [], arith,
  bit_and, bit_or, ◌==◌, ltb, if◌then◌else◌, ◌>>=◌, ok, err, Bool-cases, inl, inr, length,
}
use hex_net.Wire.Bytes.{from_le}
use hex_net.Wire.Handshake.{WriteError}
use hex_net.Wire.Kinds.{ControlKind, path_challenge, path_response, resume_ticket, accepted}
use hex_net.Config.{bits_required, bits_required_lem}
use hex_net.Bits.{
  BitWriter, Written, write_u64, write_range, align, write_bytes, and_then, bits_remaining,
  wrapping_sub32, padding,
}
use hex_net.Bits.Written.{AreBytes}
use hex_net.Bits.Writing.{IsValid, write_bits-Appended, write_bits-overflow}
use hex_net.Bits.Position.{write_bytes-Appended}
use hex_net.Connection.Control.{write_frame, write_frame_lem}
use hex_net.Connection.Steps.{
  Extends, Extends-refl, Extends-trans, Appended-Extends, IsTame, write_bits-IsTame, and_then-Steps,
  write_u64-IsTame,
}

-- A byte of flags.
abbrev pub Owed : Type 0
Owed = ℕ

abbrev pub owed_accepted : Owed
owed_accepted = 1

abbrev pub owed_path_challenge : Owed
owed_path_challenge = 2

abbrev pub owed_path_response : Owed
owed_path_response = 4

abbrev pub owed_resume_ticket : Owed
owed_resume_ticket = 8

unfoldable pub contains : Owed → Owed → Bool
contains owed flag = bit_and owed flag == flag

unfoldable pub raise : Owed → Owed → Owed
raise owed flag = bit_or owed flag

unfoldable pub lower : Owed → Owed → Owed
lower owed flag = bit_and owed (2 ^ 8 - 1 - flag)

abbrev pub max_blob : ℕ
max_blob = 512

pub record ControlQueue : Type 0 where
  pub owed : Owed
  pub challenge : ℕ
  pub response : ℕ
  pub ticket : List ℕ

unfoldable pub new_queue : Owed → ControlQueue
new_queue owed = record { owed = owed; challenge = 0; response = 0; ticket = [] }

unfoldable pub queue_accept : ControlQueue → ControlQueue
queue_accept q = record q { owed = raise q.owed owed_accepted }

unfoldable pub queue_path_challenge : ControlQueue → ℕ → ControlQueue
queue_path_challenge q token = record q {
  challenge = token;
  owed = raise q.owed owed_path_challenge;
}

unfoldable pub queue_path_response : ControlQueue → ℕ → ControlQueue
queue_path_response q token = record q { response = token; owed = raise q.owed owed_path_response }

unfoldable pub queue_ticket : ControlQueue → List ℕ → ControlQueue
queue_ticket q ticket = record q { ticket = ticket; owed = raise q.owed owed_resume_ticket }

-- One kind of frame: if it is owed, it is written, and is not owed any more once it was. The Boolean is
-- whether anything was written so far.
unfoldable pub write_owed :
    Owed
    → ControlKind
    → (BitWriter → Written)
    → ControlQueue × BitWriter × Bool
    → Option (ControlQueue × BitWriter × Bool)
write_owed flag kind body (q, w, wrote) =
    if contains q.owed flag
    then (do
      (w', done) ← write_frame w kind body
      some (if done then (record q { owed = lower q.owed flag }, w', true) else (q, w', wrote)))
    else some (q, w, wrote)

unfoldable pub ticket_body : List ℕ → BitWriter → Written
ticket_body ticket w =
    and_then (write_range w (length ticket) 0 max_blob)
      (λ w'. and_then (align w') (λ w''. write_bytes w'' ticket))

unfoldable pub write : ControlQueue → BitWriter → Option (ControlQueue × BitWriter × Bool)
write q w = do
  a ← write_owed owed_accepted accepted (λ w'. some (w', ok tt)) (q, w, false)
  b ← write_owed owed_path_challenge path_challenge (λ w'. write_u64 w' q.challenge) a
  c ← write_owed owed_path_response path_response (λ w'. write_u64 w' q.response) b
  write_owed owed_resume_ticket resume_ticket (ticket_body q.ticket) c

-- A step of the queue that does not panic and keeps the packet so far.
Going : BitWriter → Option (ControlQueue × BitWriter × Bool) → Type 0
Going w o =
    (q' : ControlQueue) × (w' : BitWriter) × (wrote : Bool) × (o ≡ some (q', w', wrote))
    × Extends w w'

write_owed-Going :
    (flag : Owed) (kind : ControlKind) (body : BitWriter → Written) (q : ControlQueue)
    (w : BitWriter) (wrote : Bool)
    → IsTame body
    → IsValid w
    → AreBytes w.buf
    → Going w (write_owed flag kind body (q, w, wrote))
unfolding Going write_owed
write_owed-Going flag kind body q w wrote tame valid bytes =
    elim (Bool-cases (contains q.owed flag)) [
      | inr not_owed ↦ (q, w, wrote, rw not_owed refl, Extends-refl w valid bytes)
      | inl owed ↦
          let (w', ext, what) = write_frame_lem w kind body valid bytes tame in
          elim what [
            | inl (done, whole) ↦
                (record q { owed = lower q.owed flag }, w', true, rw (owed, done) refl, ext)
            | inr (undone, long, at, same) ↦ (q, w', wrote, rw (owed, undone) refl, ext)
          ]
    ]

align_then-IsTame :
    (ticket : List ℕ)
    → AreBytes ticket
    → IsTame (λ w. and_then (align w) (λ w'. write_bytes w' ticket))
unfolding align write_bytes
align_then-IsTame ticket clean w valid bytes =
    elim (Bool-cases (ltb (bits_remaining w) (padding w.bits_written))) [
      | inl full ↦
          let h : bits_remaining w < padding w.bits_written = ground arith in
          (
            w,
            err WriteError.overflow,
            rw (write_bits-overflow w 0 (padding w.bits_written) h) refl,
            Extends-refl w valid bytes,
          )
      | inr room ↦
          let h : padding w.bits_written ≤ bits_remaining w = ground arith in
          let (w1, made, appended) =
            write_bits-Appended w 0 (padding w.bits_written) valid (omega arith) h in
          let ext =
            Appended-Extends w w1 (0 % 2 ^ padding w.bits_written) (padding w.bits_written) valid
              bytes appended in
          elim (Bool-cases (ltb (bits_remaining w1) (length ticket * 8))) [
            | inl over ↦ (w1, err WriteError.overflow, rw (made, over) refl, ext)
            | inr fits ↦
                let (w2, made', appended') =
                  write_bytes-Appended w1 ticket ext.valid ext.bytes clean
                    (omega (arith, appended.2)) (ground arith) in
                let ext' =
                  Appended-Extends w1 w2 (from_le ticket) (length ticket * 8) ext.valid ext.bytes
                    appended' in
                (w2, ok tt, rw (made, made') refl, Extends-trans w w1 w2 ext ext')
          ]
    ]

bits_required-le : (range : ℕ) → 0 < range → range < 2 ^ 32 → bits_required range ≤ 32
bits_required-le range positive word = (bits_required_lem range word (omega arith)).1

write_range-IsTame :
    (value low high : ℕ) → low < high → high < 2 ^ 32 → IsTame (λ w. write_range w value low high)
unfolding write_range
write_range-IsTame value low high proper word w valid bytes =
    elim (Bool-cases (ltb (high - low) (wrapping_sub32 value low))) [
      | inl out ↦ (w, err WriteError.out_of_range, rw out refl, Extends-refl w valid bytes)
      | inr inside ↦
          let (w', r, made, ext) =
            write_bits-IsTame (wrapping_sub32 value low) (bits_required (high - low))
              (bits_required-le (high - low) (omega arith) (omega arith)) w valid bytes in
          (w', r, rw inside made, ext)
    ]

ticket_body-IsTame : (ticket : List ℕ) → AreBytes ticket → IsTame (ticket_body ticket)
unfolding ticket_body
ticket_body-IsTame ticket clean w valid bytes =
    and_then-Steps w (write_range w (length ticket) 0 max_blob)
      (λ w'. and_then (align w') (λ w''. write_bytes w'' ticket))
      (write_range-IsTame (length ticket) 0 max_blob (omega arith) (omega arith) w valid bytes)
      (align_then-IsTame ticket clean)

-- Whatever is owed, and wherever the space runs out, the queue writes without a panic into a valid
-- writer, whose packet so far is kept in front of what it writes.
write-Extends :
    (q : ControlQueue) (w : BitWriter)
    → IsValid w
    → AreBytes w.buf
    → AreBytes q.ticket
    → (q' : ControlQueue) × (w' : BitWriter) × (wrote : Bool) × (write q w ≡ some (q', w', wrote))
      × Extends w w'
unfolding write Going
write-Extends q w valid bytes clean =
    let (q1, w1, o1, made1, e1) =
      write_owed-Going owed_accepted accepted (λ w'. some (w', ok tt)) q w false
        (λ w' valid' bytes'. (w', ok tt, refl, Extends-refl w' valid' bytes')) valid bytes in
    let (q2, w2, o2, made2, e2) =
      write_owed-Going owed_path_challenge path_challenge (λ w'. write_u64 w' q.challenge) q1 w1 o1
        (write_u64-IsTame q.challenge) e1.valid e1.bytes in
    let (q3, w3, o3, made3, e3) =
      write_owed-Going owed_path_response path_response (λ w'. write_u64 w' q.response) q2 w2 o2
        (write_u64-IsTame q.response) e2.valid e2.bytes in
    let (q4, w4, o4, made4, e4) =
      write_owed-Going owed_resume_ticket resume_ticket (ticket_body q.ticket) q3 w3 o3
        (ticket_body-IsTame q.ticket clean) e3.valid e3.bytes in
    (
      q4,
      w4,
      o4,
      rw (made1, made2, made3) made4,
      Extends-trans w w1 w4 e1 (Extends-trans w1 w2 w4 e2 (Extends-trans w2 w3 w4 e3 e4)),
    )
