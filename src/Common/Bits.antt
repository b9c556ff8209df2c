-- ===== src/Common/Bits.antt =====
-- Bit masks: the native operations read bit by bit, at every width.
use Prim.Native.Nat.{min, max, digits, bitwise, bit_and-bitwise, bit_or-bitwise}
use Prim.Native.Nat.{ℕ, zero, suc, ◌+◌, ◌*◌, ◌/◌, ◌%◌, ◌^◌, ◌≤◌, ◌<◌, bit_and, bit_or}
use mathlib.Core.Path.{◌≡◌, refl, sym, ap, ◌∙◌}
use mathlib.Core.Logic.{◌≢◌}
use native.Mathlib.Nat.{
  pow-suc, one-le-pow, zero-add, div-div-eq-div-mul, div-add-mod', mod-eq_of_lt,
  mul-add-mod_self_right,
}
use native.Mathlib.Omega.{arith}
use native.Mathlib.Decide.{ℕ_discrete}
use mathlib.Core.WellFounded
use hex_net.Common.Order.{lt_wf}

-- The library's digit-by-digit operations take fuel; the left operand is enough of it.
module _ (base : ℕ → ℕ) (op : ℕ → ℕ → ℕ) where
  one_more : (fuel x y : ℕ) → x ≤ fuel → digits base op (suc fuel) x y ≡ digits base op fuel x y
  one_more zero zero y h = refl
  one_more zero (suc x) y h = absurd (omega arith)
  one_more (suc fuel) zero y h = refl
  one_more (suc fuel) (suc x) y h = rw (one_more fuel (suc x / 2) (y / 2) (omega arith)) refl

  least_fuel : (fuel x y : ℕ) → x ≤ fuel → digits base op fuel x y ≡ digits base op x x y
  least_fuel zero x y h = let none_left : x ≡ 0 = omega arith in rw none_left refl
  least_fuel (suc fuel) x y h = elim (ℕ_discrete x (suc fuel)) [
    | yes e ↦ rw e refl
    | no n ↦ one_more fuel x y (omega arith) ∙ least_fuel fuel x y (omega arith)
  ]

  last_digit :
      (x y : ℕ)
      → bitwise base op (suc x) y ≡ 2 * bitwise base op (suc x / 2) (y / 2) + op (suc x % 2) (y % 2)
  last_digit x y =
      let shorter = least_fuel x (suc x / 2) (y / 2) (omega arith) in omega (arith, shorter)

-- Both operations by their lowest digit.
pub bit_or_halves : (x y : ℕ) → bit_or x y ≡ 2 * bit_or (x / 2) (y / 2) + max (x % 2) (y % 2)
bit_or_halves zero y = simp bit_or-bitwise (omega arith)
bit_or_halves (suc x) y = let e = last_digit (λ t. t) max x y in simp bit_or-bitwise e

pub bit_and_halves : (x y : ℕ) → bit_and x y ≡ 2 * bit_and (x / 2) (y / 2) + min (x % 2) (y % 2)
bit_and_halves zero y = simp bit_and-bitwise (omega arith)
bit_and_halves (suc x) y = let e = last_digit (λ t. 0) min x y in simp bit_and-bitwise e

pub shl_suc : (n k : ℕ) → n * 2 ^ suc k ≡ 2 * (n * 2 ^ k)
shl_suc n k = omega (arith, ap (λ (t : ℕ). n * t) (pow-suc 2 k))

shr_suc : (n k : ℕ) → n / 2 ^ suc k ≡ n / 2 / 2 ^ k
shr_suc n k = rw (div-div-eq-div-mul n 2 (2 ^ k)) (ap (λ t. n / t) (omega (arith, pow-suc 2 k)))

-- The remainder by `2 ^ suc w`, by its lowest digit.
pub trunc_suc : (n w : ℕ) → n % 2 ^ suc w ≡ n / 2 % 2 ^ w * 2 + n % 2
trunc_suc n w =
    ap (λ t. t % 2 ^ suc w) split
    ∙ mul-add-mod_self_right (n / 2 / 2 ^ w) (2 ^ suc w) rest
    ∙ mod-eq_of_lt (omega (arith, pow-suc 2 w, one-le-pow w 2))
  where
    rest : ℕ
    rest = n / 2 % 2 ^ w * 2 + n % 2

    split : n ≡ n / 2 / 2 ^ w * 2 ^ suc w + rest
    split = omega (arith, div-add-mod' (n / 2) (2 ^ w), shl_suc (n / 2 / 2 ^ w) w)

-- Bit `i` of `n`, as 0 or 1.
pub bit : ℕ → ℕ → ℕ
bit zero n = n % 2
bit (suc i) n = bit i (n / 2)

pub bit-zero : (i : ℕ) → bit i 0 ≡ 0
unfolding bit
bit-zero zero = refl
bit-zero (suc i) = bit-zero i

pub bit-lt : (i n : ℕ) → bit i n < 2
unfolding bit
bit-lt zero n = omega arith
bit-lt (suc i) n = bit-lt i (n / 2)

pub bit-bit_or : (i a b : ℕ) → bit i (bit_or a b) ≡ max (bit i a) (bit i b)
unfolding bit
bit-bit_or zero a b = omega (arith, bit_or_halves a b)
bit-bit_or (suc i) a b =
    rw (let e : bit_or a b / 2 ≡ bit_or (a / 2) (b / 2) = omega (arith, bit_or_halves a b) in e)
      (bit-bit_or i (a / 2) (b / 2))

pub bit-bit_and : (i a b : ℕ) → bit i (bit_and a b) ≡ min (bit i a) (bit i b)
unfolding bit
bit-bit_and zero a b = omega (arith, bit_and_halves a b)
bit-bit_and (suc i) a b =
    rw (let e : bit_and a b / 2 ≡ bit_and (a / 2) (b / 2) = omega (arith, bit_and_halves a b) in e)
      (bit-bit_and i (a / 2) (b / 2))

-- Shifting left by `k` puts zeros below bit `k`.
pub bit-shl_below : (i k n : ℕ) → i < k → bit i (n * 2 ^ k) ≡ 0
unfolding bit
bit-shl_below i zero n h = absurd (omega arith)
bit-shl_below zero (suc k) n h = omega (arith, shl_suc n k)
bit-shl_below (suc i) (suc k) n h =
    rw (let e : n * 2 ^ suc k / 2 ≡ n * 2 ^ k = omega (arith, shl_suc n k) in e)
      (bit-shl_below i k n (omega arith))

pub bit-shl : (i k n : ℕ) → bit (k + i) (n * 2 ^ k) ≡ bit i n
unfolding bit
bit-shl i zero n = let e : n * 2 ^ zero ≡ n = omega arith in rw (e, zero-add)
bit-shl i (suc k) n =
    rw (let e : suc k + i ≡ suc (k + i) = omega arith in e)
      (ap (bit (k + i)) (omega (arith, shl_suc n k)) ∙ bit-shl i k n)

-- Cutting to `w` bits keeps the bits below `w`, and clears the others.
pub bit-trunc : (i w n : ℕ) → i < w → bit i (n % 2 ^ w) ≡ bit i n
unfolding bit
bit-trunc i zero n h = absurd (omega arith)
bit-trunc zero (suc w) n h = omega (arith, trunc_suc n w)
bit-trunc (suc i) (suc w) n h =
    rw (let e : n % 2 ^ suc w / 2 ≡ n / 2 % 2 ^ w = omega (arith, trunc_suc n w) in e)
      (bit-trunc i w (n / 2) (omega arith))

pub bit-above : (i w n : ℕ) → n < 2 ^ w → w ≤ i → bit i n ≡ 0
unfolding bit
bit-above i zero n h le = let e : n ≡ 0 = omega arith in rw e (bit-zero i)
bit-above zero (suc w) n h le = absurd (omega arith)
bit-above (suc i) (suc w) n h le = bit-above i w (n / 2) (omega (arith, pow-suc 2 w)) (omega arith)

-- Bit `i` of `n >> k` is bit `k + i` of `n`.
pub bit-shr : (i k n : ℕ) → bit i (n / 2 ^ k) ≡ bit (k + i) n
unfolding bit
bit-shr i zero n = let e : n / 2 ^ zero ≡ n = omega arith in rw (e, zero-add)
bit-shr i (suc k) n =
    rw (let e : suc k + i ≡ suc (k + i) = omega arith in e)
      (ap (bit i) (shr_suc n k) ∙ bit-shr i k (n / 2))

-- The mask of one bit.
pub bit-pow_self : (k : ℕ) → bit k (2 ^ k) ≡ 1
unfolding bit
bit-pow_self zero = refl
bit-pow_self (suc k) =
    rw (let e : 2 ^ suc k / 2 ≡ 2 ^ k = omega (arith, pow-suc 2 k) in e) (bit-pow_self k)

pub bit-pow_ne : (i k : ℕ) → i ≢ k → bit i (2 ^ k) ≡ 0
unfolding bit
bit-pow_ne zero zero h = absurd (h refl)
bit-pow_ne zero (suc k) h = omega (arith, pow-suc 2 k)
bit-pow_ne (suc i) zero h = bit-zero i
bit-pow_ne (suc i) (suc k) h =
    rw (let e : 2 ^ suc k / 2 ≡ 2 ^ k = omega (arith, pow-suc 2 k) in e)
      (bit-pow_ne i k (λ e. h (ap suc e)))

-- A number all of whose bits are clear is zero.
pub zero_of_bits : (n : ℕ) → ((i : ℕ) → bit i n ≡ 0) → n ≡ 0
unfolding bit
zero_of_bits n = WellFounded.induction lt_wf {C = λ n. ((i : ℕ) → bit i n ≡ 0) → n ≡ 0} n step
  where
    step :
        (n : ℕ)
        → ((m : ℕ) → m < n → ((i : ℕ) → bit i m ≡ 0) → m ≡ 0)
        → ((i : ℕ) → bit i n ≡ 0)
        → n ≡ 0
    step zero ih h = refl
    step (suc n) ih h = omega (arith, ih (suc n / 2) (omega arith) (λ i. h (suc i)), h 0)

-- A number is known by its bits.
pub bit_ext : (a b : ℕ) → ((i : ℕ) → bit i a ≡ bit i b) → a ≡ b
unfolding bit
bit_ext a =
    WellFounded.induction lt_wf {C = λ n. (b : ℕ) → ((i : ℕ) → bit i n ≡ bit i b) → n ≡ b} a step
  where
    step :
        (n : ℕ)
        → ((m : ℕ) → m < n → (b : ℕ) → ((i : ℕ) → bit i m ≡ bit i b) → m ≡ b)
        → (b : ℕ) → ((i : ℕ) → bit i n ≡ bit i b)
        → n ≡ b
    step zero ih b h = sym (zero_of_bits b (λ i. sym (h i) ∙ bit-zero i))
    step (suc n) ih b h = omega (arith, ih (suc n / 2) (omega arith) (b / 2) (λ i. h (suc i)), h 0)
