-- ===== src/Seq.antt =====
-- hex-net-core/src/seq.rs: packet sequences, the receive window and the sequence buffer.
-- A sequence is the number that its newtype wraps; it is never 0.
pub mod Resolve
pub mod Window
pub mod Replay
pub mod Buffer
use hex_net.Common.{
  ℕ, ◌+◌, ◌-◌, ◌*◌, ◌/◌, ◌%◌, ◌^◌, bit_and, bit_or, Bool, true, false, not, Option, none, some,
  List, Result, ok, err, ltb, leb, ◌==◌, if◌then◌else◌, ◌>>=◌, u64_max, checked, checked_sub,
  get_or, set, replicate,
}
use hex_net.Common.Int.{signed, checked_add_signed}

abbrev pub Sequence : Type 0
Sequence = ℕ

abbrev pub WireSequence : Type 0
WireSequence = ℕ

abbrev pub first : Sequence
first = 1

-- `Sequence::new`.
unfoldable pub new : ℕ → Option Sequence
new value = if value == 0 then none else some value

-- `none` is the panic on overflow.
unfoldable pub next : Sequence → Option Sequence
next s = checked u64_max (s + 1)

unfoldable pub to_wire : Sequence → WireSequence
to_wire s = s % 2 ^ 16

-- `Sequence::checked_sub`.
unfoldable pub back : Sequence → ℕ → Option Sequence
unfolding new
back s n = do v ← checked_sub s n; new v

-- The nearest counter value whose low sixteen bits are `wire`.
unfoldable pub reconstruct : ℕ → WireSequence → Option ℕ
reconstruct reference wire =
    checked_add_signed reference (signed 16 ((wire + 2 ^ 16 - reference % 2 ^ 16) % 2 ^ 16))

abbrev pub or_zero : Option Sequence → ℕ
or_zero none = 0
or_zero (some s) = s

unfoldable pub resolve : Option Sequence → WireSequence → Option Sequence
unfolding new
resolve reference wire = do v ← reconstruct (or_zero reference) wire; new v

pub data WindowError : Type 0 where
  duplicate too_old : WindowError

-- Bit i of the mask: (newest - i) was received.
pub record ReceiveWindow : Type 0 where
  pub newest : Option Sequence
  pub mask : ℕ

abbrev pub empty : ReceiveWindow
empty = record { newest = none; mask = 0 }

abbrev pub Check : Type 0
Check = Result (Unit {0}) WindowError

check_at : Option Sequence → ℕ → Sequence → Check
check_at none mask seq = ok tt
check_at (some newest) mask seq =
    let offset = newest - seq in
    if ltb newest seq
    then ok tt
    else (if leb 64 offset
        then err too_old
        else (if not (bit_and mask (2 ^ offset) == 0) then err duplicate else ok tt))

unfoldable pub check : ReceiveWindow → Sequence → Check
unfolding check_at
check w seq = check_at w.newest w.mask seq

-- `mask << shift` on a `u64`.
abbrev pub shl64 : ℕ → ℕ → ℕ
shl64 mask shift = mask * 2 ^ shift % 2 ^ 64

insert_at : Option Sequence → ℕ → Sequence → ReceiveWindow
insert_at none mask seq = record { newest = some seq; mask = 1 }
insert_at (some newest) mask seq =
    if leb seq newest
    then (let offset = newest - seq in
        record {
          newest = some newest;
          mask = if ltb offset 64 then bit_or mask (2 ^ offset) else mask;
        })
    else (let shift = seq - newest in
        record {
          newest = some seq;
          mask = bit_or (if leb 64 shift then 0 else shl64 mask shift) 1;
        })

unfoldable pub insert : ReceiveWindow → Sequence → ReceiveWindow
unfolding insert_at
insert w seq = insert_at w.newest w.mask seq

-- Bit i: (newest - 1 - i) was received. The cast keeps 32 bits.
unfoldable pub ack_bits : ReceiveWindow → ℕ
ack_bits w = w.mask / 2 % 2 ^ 32
