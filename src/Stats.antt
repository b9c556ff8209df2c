-- ===== src/Stats.antt =====
-- Counters and histograms of hex-net-core/src/stats.rs, and the context of ctx.rs that carries the
-- counters. `mean`, `quantile` and the summary compute in floating point and are left out.
pub mod Counting
pub mod Buckets
pub mod Recording
use hex_net.Common.{
  Option, some, ◌>>=◌, get_elem?, ℕ, zero, suc, ◌+◌, ◌-◌, ◌*◌, ◌/◌, ◌%◌, ◌^◌, min, max, List, [],
  ◌∷◌, ltb, ◌==◌, if◌then◌else◌, get_or, set, replicate, sat_add64, sat_add32, u64_max, bit_and,
}

pub data Counter : Type 0 where
  datagrams_received datagrams_sent bytes_received bytes_sent send_failures : Counter
  packets_too_short packets_malformed packets_duplicate packets_too_old : Counter
  packets_unknown_connection packets_misrouted decrypt_failures : Counter
  packets_acked packets_lost packets_spuriously_lost packets_tracked : Counter
  connections_rejected_full handshakes_rate_limited : Counter
  messages_sent messages_received messages_dropped ticks_run ticks_over_budget : Counter

-- `counter as usize`.
abbrev pub counter_index : Counter → ℕ
counter_index datagrams_received = 0
counter_index datagrams_sent = 1
counter_index bytes_received = 2
counter_index bytes_sent = 3
counter_index send_failures = 4
counter_index packets_too_short = 5
counter_index packets_malformed = 6
counter_index packets_duplicate = 7
counter_index packets_too_old = 8
counter_index packets_unknown_connection = 9
counter_index packets_misrouted = 10
counter_index decrypt_failures = 11
counter_index packets_acked = 12
counter_index packets_lost = 13
counter_index packets_spuriously_lost = 14
counter_index packets_tracked = 15
counter_index connections_rejected_full = 16
counter_index handshakes_rate_limited = 17
counter_index messages_sent = 18
counter_index messages_received = 19
counter_index messages_dropped = 20
counter_index ticks_run = 21
counter_index ticks_over_budget = 22

abbrev pub counter_count : ℕ
counter_count = 23

pub record Counters : Type 0 where
  pub values : List ℕ

unfoldable pub new_counters : Counters
new_counters = record { values = replicate counter_count 0 }

unfoldable pub get : Counters → Counter → ℕ
get c counter = get_or c.values (counter_index counter) 0

unfoldable pub add : Counters → Counter → ℕ → Counters
add c counter n = record {
  values =
      set c.values (counter_index counter)
        ((get_or c.values (counter_index counter) 0 + n) % 2 ^ 64);
}

abbrev pub inc : Counters → Counter → Counters
inc c counter = add c counter 1

abbrev pub merge_values : List ℕ → List ℕ → List ℕ
merge_values [] others = []
merge_values (v ∷ values) [] = v ∷ values
merge_values (v ∷ values) (o ∷ others) = (v + o) % 2 ^ 64 ∷ merge_values values others

unfoldable pub merge : Counters → Counters → Counters
merge c other = record { values = merge_values c.values other.values }

-- `wrapping_sub`, value by value.
abbrev pub delta_values : List ℕ → List ℕ → List ℕ
delta_values [] previous = []
delta_values (v ∷ values) [] = v ∷ values
delta_values (v ∷ values) (p ∷ previous) =
    (v + (2 ^ 64 - p)) % 2 ^ 64 ∷ delta_values values previous

unfoldable pub delta_since : Counters → Counters → Counters
delta_since c previous = record { values = delta_values c.values previous.values }

pub record Ctx : Type 0 where
  pub now : ℕ
  pub counters : Counters

abbrev pub counted : Ctx → Counter → Ctx
counted ctx counter = record ctx { counters = inc ctx.counters counter }

abbrev pub subbucket_bits : ℕ
subbucket_bits = 4

abbrev pub subbuckets : ℕ
subbuckets = 16

abbrev pub buckets_len : ℕ
buckets_len = 960

pub record Histogram : Type 0 where
  pub buckets : List ℕ
  pub count : ℕ
  pub sum : ℕ
  pub min : ℕ
  pub max : ℕ

unfoldable pub new_histogram : Histogram
new_histogram = record {
  buckets = replicate buckets_len 0;
  count = 0;
  sum = 0;
  min = u64_max;
  max = 0;
}

-- `63 - value.leading_zeros()`: the position of the highest bit of a value that is not zero.
unfoldable pub highest_bit : ℕ → ℕ → ℕ
highest_bit zero value = 0
highest_bit (suc fuel) value =
    let more = suc (highest_bit fuel (value / 2)) in if ltb value 2 then 0 else more

unfoldable pub bucket_of : ℕ → ℕ
bucket_of value =
    if ltb value subbuckets
    then value
    else (let magnitude = highest_bit 63 value in
        let shift = magnitude - subbucket_bits in
        (shift + 1) * subbuckets + bit_and (value / 2 ^ shift) (subbuckets - 1))

unfoldable pub bucket_start : ℕ → ℕ
bucket_start index =
    if ltb index subbuckets
    then index
    else (subbuckets + index % subbuckets) * 2 ^ (index / subbuckets - 1)

-- With the value's bucket at `n`. The count is a number that would have to pass 2^64 samples to wrap.
abbrev pub recorded : Histogram → ℕ → ℕ → Histogram
recorded h value n = record {
  buckets = set h.buckets (bucket_of value) (sat_add32 n 1);
  count = h.count + 1;
  sum = sat_add64 h.sum value;
  min = Prim.Native.Nat.min h.min value;
  max = Prim.Native.Nat.max h.max value;
}

-- `none` is a panic: a bucket past the array.
unfoldable pub record_value : Histogram → ℕ → Option Histogram
record_value h value = do n ← get_elem? h.buckets (bucket_of value); some (recorded h value n)

abbrev pub lowest : Histogram → ℕ
lowest h = if h.count == 0 then 0 else h.min

abbrev pub merge_buckets : List ℕ → List ℕ → List ℕ
merge_buckets [] others = []
merge_buckets (v ∷ values) [] = v ∷ values
merge_buckets (v ∷ values) (o ∷ others) = sat_add32 v o ∷ merge_buckets values others

unfoldable pub merge_histogram : Histogram → Histogram → Histogram
merge_histogram h other = record {
  buckets = merge_buckets h.buckets other.buckets;
  count = h.count + other.count;
  sum = sat_add64 h.sum other.sum;
  min = Prim.Native.Nat.min h.min other.min;
  max = Prim.Native.Nat.max h.max other.max;
}
