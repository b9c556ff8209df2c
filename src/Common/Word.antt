-- ===== src/Common/Word.antt =====
-- Machine words as native numbers: the widths, and the checked and saturating operations of Rust.
use Prim.Native.Nat.{ℕ, ◌+◌, ◌-◌, ◌*◌, ◌^◌, min}
use mathlib.Core.Option.{Option, none, some}
use hex_net.Common.Tests.{leb, if◌then◌else◌}

abbrev pub u8_max : ℕ
u8_max = 2 ^ 8 - 1

abbrev pub u16_max : ℕ
u16_max = 2 ^ 16 - 1

abbrev pub u32_max : ℕ
u32_max = 2 ^ 32 - 1

abbrev pub u64_max : ℕ
u64_max = 2 ^ 64 - 1

-- `u64::saturating_add` and `u64::saturating_mul`; `saturating_sub` is the `-` of ℕ.
abbrev pub sat_add64 : ℕ → ℕ → ℕ
sat_add64 a b = min (a + b) u64_max

abbrev pub sat_mul64 : ℕ → ℕ → ℕ
sat_mul64 a b = min (a * b) u64_max

abbrev pub sat_add32 : ℕ → ℕ → ℕ
sat_add32 a b = min (a + b) u32_max

-- `checked_add`, `checked_mul` and `try_from` at a width whose largest value is `top`.
abbrev pub checked : ℕ → ℕ → Option ℕ
checked top n = if leb n top then some n else none

-- `checked_sub`.
abbrev pub checked_sub : ℕ → ℕ → Option ℕ
checked_sub a b = if leb b a then some (a - b) else none
