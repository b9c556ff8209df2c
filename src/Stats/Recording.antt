-- ===== src/Stats/Recording.antt =====
-- `Histogram::record` and `merge` of hex-net-core/src/stats.rs.
use hex_net.Common.{
  ℕ, zero, suc, ◌^◌, ◌≤◌, ◌<◌, ◌≡◌, ◌↔◌, refl, ap, ap₂, sym, ◌∙◌, List, [], ◌∷◌, none, some, length,
  arith, get_elem?, set, sat_add32, Bool-cases, ltb, inl, inr, Option-cases,
}
use mathlib.Core.Option
use hex_net.Common.Slices.{get_of_lt}
use hex_net.Slab.Valid.{get_lt}
use hex_net.Stats.{
  Histogram, bucket_of, buckets_len, record_value, recorded, merge_histogram, merge_buckets,
}
use hex_net.Stats.Buckets.{bucket_of_lem}

-- For a histogram with all of its buckets and a 64-bit value, the recording indexes past the buckets,
-- which is a panic, exactly when the value is 2^63 or more.
pub record_value_iff :
    (h : Histogram) (value : ℕ)
    → length h.buckets ≡ buckets_len
    → value < 2 ^ 64
    → (record_value h value ≡ none) ↔ (2 ^ 63 ≤ value)
unfolding record_value
record_value_iff h value len lt =
    let ((inside, back), low, near) = bucket_of_lem value lt in
    (
      λ panics. elim (Bool-cases (ltb value (2 ^ 63))) [
        | inl less ↦
            let (n, found) =
              get_of_lt h.buckets (bucket_of value) (omega (arith, back (ground arith))) in
            let clash = rw found at panics in absurd cc
        | inr more ↦ ground arith
      ],
      λ large. elim (Option-cases (get_elem? h.buckets (bucket_of value))) [
        | inl past ↦ rw past refl
        | inr (n, found) ↦
            absurd (omega (arith, inside (omega (arith, get_lt h.buckets (bucket_of value) found))))
      ],
    )

Histogram_ext :
    {a b : Histogram}
    → a.buckets ≡ b.buckets
    → a.count ≡ b.count
    → a.sum ≡ b.sum
    → a.min ≡ b.min
    → a.max ≡ b.max
    → a ≡ b
Histogram_ext {a} {b} buckets count sum least greatest =
    ap₂ (λ x y. record { buckets = x; count = y; sum = a.sum; min = a.min; max = a.max }) buckets
      count
    ∙ ap₂ (λ x y. record { buckets = b.buckets; count = b.count; sum = x; min = y; max = a.max })
        sum least
    ∙ ap (λ x. record { buckets = b.buckets; count = b.count; sum = b.sum; min = b.min; max = x })
        greatest

merged_bucket :
    (xs ys : List ℕ) (i n : ℕ)
    → length xs ≡ length ys
    → get_elem? xs i ≡ some n
    → (m : ℕ) × (get_elem? (merge_buckets xs ys) i ≡ some m)
      × (merge_buckets (set xs i (sat_add32 n 1)) ys ≡ set (merge_buckets xs ys) i (sat_add32 m 1))
merged_bucket [] ys i n len at = absurd cc
merged_bucket (x ∷ xs) [] i n len at = absurd (omega arith)
merged_bucket (x ∷ xs) (y ∷ ys) zero n len at =
    let e : x ≡ n = ground arith in
    (sat_add32 x y, refl, ap (λ v. v ∷ merge_buckets xs ys) (omega arith))
merged_bucket (x ∷ xs) (y ∷ ys) (suc i) n len at =
    let (m, found, same) = merged_bucket xs ys i n (omega arith) at in
    (m, found, ap (λ l. sat_add32 x y ∷ l) same)

-- For histograms with as many buckets as each other, a value recorded before they are merged leaves
-- the histogram that it leaves recorded afterwards: counts, sum, least, greatest and every bucket.
pub merge-record_value :
    (h h' g : Histogram) (value : ℕ)
    → length h.buckets ≡ length g.buckets
    → record_value h value ≡ some h'
    → record_value (merge_histogram h g) value ≡ some (merge_histogram h' g)
unfolding record_value merge_histogram
merge-record_value h h' g value len made =
    elim (Option-cases (get_elem? h.buckets (bucket_of value))) [
      | inl past ↦ let clash = rw past at made in absurd cc
      | inr (n, found) ↦
          let (m, found', same) = merged_bucket h.buckets g.buckets (bucket_of value) n len found in
          let made' : some (recorded h value n) ≡ some h' = rw found at made in
          let same' : recorded (merge_histogram h g) value m
              ≡ merge_histogram (recorded h value n) g =
            Histogram_ext (sym same) (omega arith) (omega arith) (omega arith) (omega arith) in
          rw found' refl ∙ ap some same' ∙ ap (Option.map (λ x. merge_histogram x g)) made'
    ]
