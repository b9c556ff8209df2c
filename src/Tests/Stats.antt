-- ===== src/Tests/Stats.antt =====
-- Examples for hex-net-core/src/stats.rs.
use hex_net.Common.{
  ℕ, ◌^◌, ◌≤◌, ◌≡◌, ◌↔◌, refl, some, none, arith, length, [], ◌∷◌, length-replicate,
}
use hex_net.Stats.{
  Histogram, new_histogram, record_value, merge_histogram, bucket_of, bucket_start, highest_bit,
  recorded, buckets_len, new_counters, get, add, inc, packets_lost,
}
use hex_net.Stats.Recording.{record_value_iff, merge-record_value}

-- One thousand is in the bucket of 992 to 1023.
bucket_run : bucket_of 1000 ≡ 111
unfolding bucket_of highest_bit
bucket_run = refl

bucket_start_run : bucket_start 111 ≡ 992
unfolding bucket_start
bucket_start_run = refl

counter_run : get (inc (add new_counters packets_lost 4) packets_lost) packets_lost ≡ 5
unfolding get add new_counters
counter_run = refl

new_histogram_len : length new_histogram.buckets ≡ buckets_len
unfolding new_histogram
new_histogram_len = length-replicate {A = ℕ} 960 0

-- The largest value is beyond the buckets.
record_value_iff_example :
    (record_value new_histogram 0xFFFF_FFFF_FFFF_FFFF ≡ none) ↔ (2 ^ 63 ≤ 0xFFFF_FFFF_FFFF_FFFF)
record_value_iff_example =
    record_value_iff new_histogram 0xFFFF_FFFF_FFFF_FFFF new_histogram_len (omega arith)

abbrev small : Histogram
small = record { buckets = 0 ∷ 3 ∷ 0 ∷ []; count = 3; sum = 3; min = 1; max = 1 }

abbrev other : Histogram
other = record { buckets = 1 ∷ 0 ∷ 0 ∷ []; count = 1; sum = 0; min = 0; max = 0 }

small_made : record_value small 2 ≡ some (recorded small 2 0)
unfolding record_value bucket_of
small_made = refl

merge-record_value_example :
    record_value (merge_histogram small other) 2 ≡ some (merge_histogram (recorded small 2 0) other)
merge-record_value_example = merge-record_value small (recorded small 2 0) other 2 refl small_made
