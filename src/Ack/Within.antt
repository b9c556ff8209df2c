-- ===== src/Ack/Within.antt =====
-- The estimates of hex-net-core/src/ack.rs stay within the samples.
use hex_net.Common.{
  ℕ, ◌+◌, ◌*◌, ◌/◌, ◌%◌, ◌^◌, ◌≤◌, ◌<◌, ◌≡◌, refl, Option, none, some, List, [], ◌∷◌, arith,
}
use hex_net.Time.Span.{Span, min as span_min, abs_diff, scaled, saturating_sub}
use hex_net.Time.Timestamp.{Timestamp}
use hex_net.Ack.WindowedMin.{WindowedMin, new, get, update as update_min}
use hex_net.Ack.Rtt.{
  Rtt, Estimate, update, first_estimate, next_estimate, adjusted_by, min, recent_min, latest,
  smoothed, variation,
}
use hex_net.Ack.Samples.{Sample, rtt_after, Between}

-- Both halves of a windowed minimum are within the bounds.
record MinWithin (lo hi : Span) (w : WindowedMin) : Type 0 where
  current_low : lo ≤ w.current
  current_high : w.current ≤ hi
  previous_low : lo ≤ w.previous
  previous_high : w.previous ≤ hi

record EstimateWithin (lo hi : Span) (e : Estimate) : Type 0 where
  latest_low : lo ≤ e.latest
  latest_high : e.latest ≤ hi
  smoothed_low : lo ≤ e.smoothed
  smoothed_high : e.smoothed ≤ hi
  variation_high : e.variation ≤ hi
  min : MinWithin lo hi e.min
  recent : MinWithin lo hi e.recent

MinWithin-update :
    (lo hi nanos : ℕ) (w : WindowedMin) (now : Timestamp) (sample : Span)
    → lo ≤ sample
    → sample ≤ hi
    → MinWithin lo hi w
    → MinWithin lo hi (update_min nanos w now sample)
unfolding update_min span_min
MinWithin-update lo hi nanos w now sample low high m = ground arith

get-low : (lo hi : ℕ) (w : WindowedMin) → MinWithin lo hi w → (lo ≤ get w) × (get w ≤ hi)
unfolding get span_min
get-low lo hi w m = ground arith

-- The correction never goes below the best round trip, nor above the sample.
adjusted_by-within :
    (lo hi best sample ack_delay : Span)
    → lo ≤ best
    → lo ≤ sample
    → sample ≤ hi
    → (lo ≤ adjusted_by best sample ack_delay) × (adjusted_by best sample ack_delay ≤ hi)
unfolding adjusted_by saturating_sub
adjusted_by-within lo hi best sample ack_delay b low high = ground arith

-- One weighted step stays within the bounds, and within a word.
average_within :
    (lo hi smoothed adjusted : ℕ)
    → hi < 2 ^ 61
    → (lo ≤ smoothed) × (smoothed ≤ hi)
    → (lo ≤ adjusted) × (adjusted ≤ hi)
    → (lo ≤ (smoothed * 7 % 2 ^ 64 + adjusted) % 2 ^ 64 / 8)
      × ((smoothed * 7 % 2 ^ 64 + adjusted) % 2 ^ 64 / 8 ≤ hi)
average_within lo hi smoothed adjusted word s a = (omega arith, omega arith)

deviation_within :
    (hi variation smoothed adjusted : ℕ)
    → hi < 2 ^ 61
    → variation ≤ hi
    → smoothed ≤ hi
    → adjusted ≤ hi
    → (variation * 3 % 2 ^ 64 + abs_diff adjusted smoothed) % 2 ^ 64 / 4 ≤ hi
unfolding abs_diff
deviation_within hi variation smoothed adjusted word v s a = ground arith

first-within :
    (lo hi : ℕ) (now : Timestamp) (sample : Span)
    → lo ≤ sample
    → sample ≤ hi
    → EstimateWithin lo hi (first_estimate now sample)
unfolding first_estimate new scaled
first-within lo hi now sample low high = ground arith

next-within :
    (lo hi : ℕ) (e : Estimate) (now : Timestamp) (sample ack_delay : Span)
    → hi < 2 ^ 61
    → lo ≤ sample
    → sample ≤ hi
    → EstimateWithin lo hi e
    → EstimateWithin lo hi (next_estimate e now sample ack_delay)
unfolding next_estimate
next-within lo hi e now sample ack_delay word low high w =
    let long = MinWithin-update lo hi 10_000_000_000 e.min now sample low high w.min in
    let short = MinWithin-update lo hi 500_000_000 e.recent now sample low high w.recent in
    let best = get (update_min 10_000_000_000 e.min now sample) in
    let a =
      adjusted_by-within lo hi best sample ack_delay
        (get-low lo hi (update_min 10_000_000_000 e.min now sample) long).0 low high in
    let s =
      average_within lo hi e.smoothed (adjusted_by best sample ack_delay) word
        (w.smoothed_low, w.smoothed_high) a in
    record {
      latest_low = low;
      latest_high = high;
      smoothed_low = s.0;
      smoothed_high = s.1;
      variation_high =
          deviation_within hi e.variation e.smoothed (adjusted_by best sample ack_delay) word
            w.variation_high w.smoothed_high a.1;
      min = long;
      recent = short;
    }

-- What holds of an estimator whose samples are within the bounds.
Bounds : Span → Span → Option Estimate → List Sample → Type 0
Bounds lo hi none h = h ≡ []
Bounds lo hi (some e) h = EstimateWithin lo hi e

Bounds-update :
    (lo hi : ℕ) (estimate : Option Estimate) (s : Sample) (h : List Sample)
    → hi < 2 ^ 61
    → lo ≤ s.rtt
    → s.rtt ≤ hi
    → Bounds lo hi estimate h
    → Bounds lo hi (update (record { estimate = estimate }) s.at s.rtt s.ack_delay).estimate (s ∷ h)
unfolding Bounds update
Bounds-update lo hi none s h word low high b = first-within lo hi s.at s.rtt low high
Bounds-update lo hi (some e) s h word low high b =
    next-within lo hi e s.at s.rtt s.ack_delay word low high b

rtt_after-Bounds :
    (lo hi : ℕ) (h : List Sample)
    → hi < 2 ^ 61
    → Between lo hi h
    → Bounds lo hi (rtt_after h).estimate h
unfolding rtt_after Bounds
rtt_after-Bounds lo hi [] word b = refl
rtt_after-Bounds lo hi (s ∷ h) word (low, high, b) =
    Bounds-update lo hi (rtt_after h).estimate s h word low high (rtt_after-Bounds lo hi h word b)

estimates_within :
    (lo hi : ℕ) (estimate : Option Estimate) (s : Sample) (h : List Sample)
    → Bounds lo hi estimate (s ∷ h)
    → let r : Rtt = record { estimate = estimate } in
      (m n : Span) × (min r ≡ some m)
      × (recent_min r ≡ some n)
      × (lo ≤ m)
      × (m ≤ hi)
      × (lo ≤ n)
      × (n ≤ hi)
      × (lo ≤ smoothed r)
      × (smoothed r ≤ hi)
      × (lo ≤ latest r)
      × (latest r ≤ hi)
      × (variation r ≤ hi)
unfolding Bounds min recent_min smoothed latest variation
estimates_within lo hi none s h b = absurd (cc)
estimates_within lo hi (some e) s h b =
    let (p, p') = get-low lo hi e.min b.min in
    let (q, q') = get-low lo hi e.recent b.recent in
    (
      get e.min,
      get e.recent,
      refl,
      refl,
      p,
      p',
      q,
      q',
      b.smoothed_low,
      b.smoothed_high,
      b.latest_low,
      b.latest_high,
      b.variation_high,
    )

-- When every sample so far, of at least one, is between `lo` and `hi`, and `hi` is below 2^61
-- nanoseconds, then both minima, the smoothed and the latest round trip are between `lo` and `hi`
-- and the deviation is at most `hi`, whatever holding times the peer reported.
rtt_after-within :
    (lo hi : ℕ) (s : Sample) (h : List Sample)
    → hi < 2 ^ 61
    → Between lo hi (s ∷ h)
    → let r = rtt_after (s ∷ h) in
      (m n : Span) × (min r ≡ some m)
      × (recent_min r ≡ some n)
      × (lo ≤ m)
      × (m ≤ hi)
      × (lo ≤ n)
      × (n ≤ hi)
      × (lo ≤ smoothed r)
      × (smoothed r ≤ hi)
      × (lo ≤ latest r)
      × (latest r ≤ hi)
      × (variation r ≤ hi)
rtt_after-within lo hi s h word b =
    estimates_within lo hi (rtt_after (s ∷ h)).estimate s h (rtt_after-Bounds lo hi (s ∷ h) word b)
