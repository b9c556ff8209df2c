-- ===== src/Common/Masks.antt =====
-- Masks and packed fields as arithmetic, at every width.
use Prim.Native.Nat.{ℕ, zero, suc, ◌+◌, ◌-◌, ◌*◌, ◌/◌, ◌%◌, ◌^◌, ◌<◌, bit_and, bit_or}
use mathlib.Core.Path.{◌≡◌, ap}
use mathlib.Core.Logic.{◌≢◌}
use native.Mathlib.Nat.{pow-suc, one-le-pow}
use native.Mathlib.Decide.{ℕ_discrete}
use native.Mathlib.Omega.{arith}
use hex_net.Common.Tests.{◌==◌}
use hex_net.Common.Bits.{
  bit, bit-zero, bit-bit_and, bit-pow_self, bit-pow_ne, zero_of_bits, bit_or_halves, bit_and_halves,
  shl_suc, trunc_suc, bit_ext, bit-bit_or,
}

bit_or-zero : (a : ℕ) → bit_or a 0 ≡ a
bit_or-zero a = bit_ext _ a (λ i. omega (arith, bit-bit_or i a 0, bit-zero i))

bit_and-zero : (a : ℕ) → bit_and a 0 ≡ 0
bit_and-zero a = zero_of_bits _ (λ i. omega (arith, bit-bit_and i a 0, bit-zero i))

-- `(q << k) | r` is a sum when `r` fits `k` bits.
pub bit_or_fields : (k q r : ℕ) → r < 2 ^ k → bit_or (q * 2 ^ k) r ≡ q * 2 ^ k + r
bit_or_fields zero q r fits = ground (arith, bit_or-zero q)
bit_or_fields (suc k) q r fits =
    ground
      (arith, bit_or_halves (q * 2 ^ suc k) r, shl_suc q k, pow-suc 2 k, bit_or_fields k q (r / 2))

-- A mask of `k` low bits is the remainder by `2 ^ k`.
pub bit_and_mask : (k a : ℕ) → bit_and a (2 ^ k - 1) ≡ a % 2 ^ k
bit_and_mask zero a = omega (arith, bit_and-zero a)
bit_and_mask (suc k) a =
    let half : (2 ^ suc k - 1) / 2 ≡ 2 ^ k - 1 = omega (arith, pow-suc 2 k, one-le-pow k 2) in
    let ih = bit_and_mask k (a / 2) in
    ground (
      arith,
      bit_and_halves a (2 ^ suc k - 1),
      half,
      pow-suc 2 k,
      one-le-pow k 2,
      trunc_suc a k,
      ih,
    )

-- Joining masks of `w` bits leaves `w` bits.
pub bit_or-lt : (w a b : ℕ) → a < 2 ^ w → b < 2 ^ w → bit_or a b < 2 ^ w
bit_or-lt zero a b ha hb = let e : b ≡ 0 = omega arith in rw e (omega (arith, bit_or-zero a))
bit_or-lt (suc w) a b ha hb = omega (
  arith,
  bit_or_halves a b,
  pow-suc 2 w,
  bit_or-lt w (a / 2) (b / 2) (omega (arith, pow-suc 2 w)) (omega (arith, pow-suc 2 w)),
)

-- The test `m & (1 << k) == 0` reads bit `k`.
pub bit_and-pow_test : (m k : ℕ) → (bit_and m (2 ^ k) == 0) ≡ (bit k m == 0)
bit_and-pow_test m k = elim (ℕ_discrete (bit k m) 0) [
  | yes e ↦ ground (arith, clear e)
  | no n ↦ ground (arith, set_bit n)
]
  where
    clear : bit k m ≡ 0 → bit_and m (2 ^ k) ≡ 0
    clear e = zero_of_bits _ λ i. elim (ℕ_discrete i k) [
      | yes j ↦ rw j (omega (arith, bit-bit_and k m (2 ^ k)))
      | no j ↦ omega (arith, bit-bit_and i m (2 ^ k), bit-pow_ne i k j)
    ]

    set_bit : bit k m ≢ 0 → bit_and m (2 ^ k) ≢ 0
    set_bit n e =
        n (omega (arith, bit-bit_and k m (2 ^ k), bit-pow_self k, ap (bit k) e, bit-zero k))
