-- ===== src/Stats/Buckets.antt =====
-- The buckets of `Histogram` of hex-net-core/src/stats.rs.
use hex_net.Common.{
  ℕ, zero, suc, ◌+◌, ◌-◌, ◌*◌, ◌/◌, ◌%◌, ◌^◌, ◌≤◌, ◌<◌, ◌≡◌, ◌↔◌, refl, ap, ◌∙◌, arith, ltb,
  Bool-cases, inl, inr, true, false, bit_and,
}
use hex_net.Common.Masks.{bit_and_mask}
use hex_net.Stats.{highest_bit, bucket_of, bucket_start, buckets_len, subbuckets}
use native.Mathlib.Nat.{pow-suc, div-add-mod', mod-lt, mul-le-mul_right}
use hex_net.Bits.Written.{pow_le, pow_add}

highest_bit_lem :
    (fuel value : ℕ)
    → 0 < value
    → value < 2 ^ suc fuel
    → (2 ^ highest_bit fuel value ≤ value)
      × (value < 2 * 2 ^ highest_bit fuel value)
      × (highest_bit fuel value ≤ fuel)
unfolding highest_bit
highest_bit_lem zero value pos lt = (omega arith, omega arith, omega arith)
highest_bit_lem (suc fuel) value pos lt = elim (Bool-cases (ltb value 2)) [
  | inl small ↦ rw small (omega arith, ground arith, omega arith)
  | inr big ↦
      let two : 2 ≤ value = ground arith in
      let (low, high, le) =
        highest_bit_lem fuel (value / 2) (omega arith) (omega (arith, pow-suc 2 (suc fuel))) in
      let p = pow-suc 2 (highest_bit fuel (value / 2)) in
      rw big (omega arith, omega arith, omega arith)
]

-- The leading five bits, and the power of two that they count.
quotient_lem :
    (value power : ℕ)
    → 16 * power ≤ value
    → value < 32 * power
    → (16 ≤ value / power)
      × (value / power < 32)
      × (value / power * power ≤ value)
      × (value < value / power * power + power)
quotient_lem value power low high =
    let parts = div-add-mod' value power in
    let rest : value % power < power = mod-lt value (omega arith) in
    let q = value / power in
    (
      elim (Bool-cases (ltb q 16)) [
        | inl less ↦
            let le : q ≤ 15 = ground arith in absurd (omega (arith, mul-le-mul_right power le))
        | inr more ↦ ground arith
      ],
      elim (Bool-cases (ltb q 32)) [
        | inl less ↦ ground arith
        | inr more ↦
            let le : 32 ≤ q = ground arith in absurd (omega (arith, mul-le-mul_right power le))
      ],
      omega arith,
      omega arith,
    )

start_small : (value : ℕ) → ltb value subbuckets ≡ true → bucket_start value ≡ value
unfolding bucket_start
start_small value small = rw small refl

start_lem : (s q : ℕ) → 16 ≤ q → q < 32 → bucket_start (16 * s + q) ≡ q * 2 ^ s
unfolding bucket_start
start_lem s q low high =
    let big : ltb (16 * s + q) 16 ≡ false = ground arith in
    let sub : 16 + (16 * s + q) % 16 ≡ q = omega arith in
    let major : (16 * s + q) / 16 - 1 ≡ s = omega arith in rw (big, sub, major) refl

-- A 64-bit value's bucket is one of the histogram's exactly when the value is below 2^63. The lowest
-- value of the bucket is at most the value, and is below it by at most a sixteenth of that lowest value.
pub bucket_of_lem :
    (value : ℕ)
    → value < 2 ^ 64
    → ((bucket_of value < buckets_len) ↔ (value < 2 ^ 63))
      × (bucket_start (bucket_of value) ≤ value)
      × (16 * (value - bucket_start (bucket_of value)) ≤ bucket_start (bucket_of value))
unfolding bucket_of
bucket_of_lem value lt = elim (Bool-cases (ltb value subbuckets)) [
  | inl small ↦
      let exact : bucket_start value ≡ value = start_small value small in
      rw small ((λ h. ground arith, λ h. ground arith), omega (arith, exact), omega (arith, exact))
  | inr big ↦
      let some_bits : 16 ≤ value = ground arith in
      let (low, high, le) = highest_bit_lem 63 value (omega arith) lt in
      let m = highest_bit 63 value in
      let four : 4 ≤ m = elim (Bool-cases (ltb m 4)) [
        | inl less ↦ absurd (omega (arith, pow_le m 3 (ground arith)))
        | inr more ↦ ground arith
      ] in
      let s = m - 4 in
      let split : 2 ^ m ≡ 16 * 2 ^ s =
        ap (λ e. 2 ^ e) (let e : m ≡ 4 + s = omega arith in e) ∙ pow_add 4 s in
      let (q_low, q_high, below, above) = quotient_lem value (2 ^ s) (omega arith) (omega arith) in
      let q = value / 2 ^ s in
      let mask : bit_and q 15 ≡ q % 16 = bit_and_mask 4 q in
      let index : (s + 1) * 16 + bit_and q 15 ≡ 16 * s + q = omega arith in
      let start = start_lem s q q_low q_high in
      let sixteen = mul-le-mul_right (2 ^ s) q_low in
      rw (big, index)
        (
          (
            λ inside. omega (arith, pow_le m 62 (let e : m ≤ 62 = omega arith in e)),
            λ less. elim (Bool-cases (ltb m 63)) [
              | inl fits ↦ let e : m ≤ 62 = ground arith in omega arith
              | inr over ↦ absurd (omega (arith, pow_le 63 m (ground arith)))
            ],
          ),
          omega (arith, start),
          omega (arith, start),
        )
]
