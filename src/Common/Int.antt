-- ===== src/Common/Int.antt =====
-- Signed integers over the native numbers, for the casts to `i16`, `i32` and `i64`.
use Prim.Native.Nat.{ℕ, suc, ◌+◌, ◌-◌, ◌^◌}
use mathlib.Core.Option.{Option}
use hex_net.Common.Tests.{ltb, if◌then◌else◌}
use hex_net.Common.Word.{checked, checked_sub, u64_max}

-- `negsuc n` is -(n + 1).
pub data ℤ : Type 0 where
  pos : ℕ → ℤ
  negsuc : ℕ → ℤ

-- The two's complement reading of a pattern of `w` bits.
abbrev pub signed : ℕ → ℕ → ℤ
signed w n = if ltb n (2 ^ (w - 1)) then pos n else negsuc (2 ^ w - n - 1)

-- `u64::checked_add_signed`.
abbrev pub checked_add_signed : ℕ → ℤ → Option ℕ
checked_add_signed a (pos n) = checked u64_max (a + n)
checked_add_signed a (negsuc n) = checked_sub a (suc n)
