-- ===== src/Ack/Rtt.antt =====
-- `Estimate` and `Rtt` of hex-net-core/src/ack.rs. The sums of `update` are those of
-- `u64`, so they wrap.
use hex_net.Common.{◌+◌, ◌*◌, ◌/◌, ◌%◌, ◌^◌, Option, none, some, leb, if◌then◌else◌}
use hex_net.Time.Span.{Span, abs_diff, scaled, saturating_sub}
use hex_net.Time.Timestamp.{Timestamp}
use hex_net.Ack.WindowedMin.{WindowedMin, new, get, update as update_min}

abbrev pub initial_rtt : Span
initial_rtt = 100_000_000

abbrev pub min_rtt_window : Span
min_rtt_window = 10_000_000_000

abbrev pub recent_rtt_window : Span
recent_rtt_window = 500_000_000

pub record Estimate : Type 0 where
  pub latest : Span
  pub smoothed : Span
  pub variation : Span
  pub min : WindowedMin
  pub recent : WindowedMin

pub record Rtt : Type 0 where
  pub estimate : Option Estimate

abbrev pub default : Rtt
default = record { estimate = none }

unfoldable pub smoothed : Rtt → Span
smoothed r = elim r.estimate [ none ↦ initial_rtt | some e ↦ e.smoothed ]

unfoldable pub latest : Rtt → Span
latest r = elim r.estimate [ none ↦ initial_rtt | some e ↦ e.latest ]

unfoldable pub variation : Rtt → Span
variation r = elim r.estimate [ none ↦ scaled 1 2 initial_rtt | some e ↦ e.variation ]

unfoldable pub min : Rtt → Option Span
min r = elim r.estimate [ none ↦ none | some e ↦ some (get e.min) ]

unfoldable pub recent_min : Rtt → Option Span
recent_min r = elim r.estimate [ none ↦ none | some e ↦ some (get e.recent) ]

unfoldable pub reset : Rtt → Rtt
reset r = record { estimate = none }

-- The sample less the peer's holding time, unless that is below the best round trip seen.
unfoldable pub adjusted_by : Span → Span → Span → Span
adjusted_by min sample ack_delay =
    let corrected = saturating_sub sample ack_delay in
    if leb min corrected then corrected else sample

unfoldable pub next_estimate : Estimate → Timestamp → Span → Span → Estimate
next_estimate e now sample ack_delay =
    let min = update_min min_rtt_window e.min now sample in
    let recent = update_min recent_rtt_window e.recent now sample in
    let adjusted = adjusted_by (get min) sample ack_delay in
    let deviation = abs_diff adjusted e.smoothed in
    record {
      latest = sample;
      smoothed = (e.smoothed * 7 % 2 ^ 64 + adjusted) % 2 ^ 64 / 8;
      variation = (e.variation * 3 % 2 ^ 64 + deviation) % 2 ^ 64 / 4;
      min = min;
      recent = recent;
    }

unfoldable pub first_estimate : Timestamp → Span → Estimate
first_estimate now sample = record {
  latest = sample;
  smoothed = sample;
  variation = scaled 1 2 sample;
  min = new now sample;
  recent = new now sample;
}

unfoldable pub update : Rtt → Timestamp → Span → Span → Rtt
update r now sample ack_delay = elim r.estimate [
  | none ↦ record { estimate = some (first_estimate now sample) }
  | some e ↦ record { estimate = some (next_estimate e now sample ack_delay) }
]
