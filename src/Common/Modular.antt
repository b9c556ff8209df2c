-- ===== src/Common/Modular.antt =====
-- Positions round a ring: remainders by a variable, and masks of a power of two.
use Prim.Native.Nat.{ℕ, ◌+◌, ◌-◌, ◌%◌, ◌^◌, ◌<◌, bit_and}
use mathlib.Core.Path.{◌≡◌}
use mathlib.Core.Logic.{◌≢◌}
use native.Mathlib.Nat.{div-add-mod', mod-lt, one-le-pow}
use native.Mathlib.Omega.{arith}
use hex_net.Common.Masks.{bit_and_mask}

-- Numbers fewer than `n` apart have distinct remainders.
pub mod_distinct : (n a b : ℕ) → a < b → b < a + n → a % n ≢ b % n
mod_distinct n a b lt near same = grind (arith, div-add-mod' a n, div-add-mod' b n)

pub mask-mod : (n k a : ℕ) → n ≡ 2 ^ k → bit_and a (n - 1) ≡ a % n
mask-mod n k a e = rw e (bit_and_mask k a)

pub pow_pos : (n k : ℕ) → n ≡ 2 ^ k → 0 < n
pow_pos n k e = omega (arith, one-le-pow k 2)

pub mask-lt : (n k a : ℕ) → n ≡ 2 ^ k → bit_and a (n - 1) < n
mask-lt n k a e = omega (arith, mask-mod n k a e, pow_pos n k e, mod-lt a {m = n} (pow_pos n k e))
