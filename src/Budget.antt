-- ===== src/Budget.antt =====
-- hex-net-core/src/budget.rs: the token bucket that bounds what a connection sends, and the
-- controller of its rate. Levels are bytes with 32 fractional bits.
pub mod Invariant
pub mod Ready
pub mod Spend
use hex_net.Common.{
  ℕ, ◌+◌, ◌-◌, ◌*◌, ◌/◌, ◌%◌, ◌^◌, Bool, true, false, ◌||◌, Option, none, some, min, max, ltb, leb,
  ◌==◌, if◌then◌else◌, sat_add64, sat_mul64, sat_add32, u8_max, u32_max,
}
use hex_net.Time.Span.{Span, max as span_max, is_zero, nanos_per_second}
use hex_net.Time.Timestamp.{Timestamp, since, saturating_add}
use hex_net.Wire.Header.{max_len}
use hex_net.Ack.Rtt.{Rtt, smoothed, min as rtt_min, recent_min}
use hex_net.Config.{BudgetConfig, min_rate, tag_len, message_frame_overhead}

abbrev pub min_queue_delay : Span
min_queue_delay = 10_000_000

abbrev pub min_assess_interval : Span
min_assess_interval = 100_000_000

abbrev pub min_loss_samples : ℕ
min_loss_samples = 20

abbrev pub queue_persistence : ℕ
queue_persistence = 2

-- `Refill`: bytes per nanosecond. `Refill::of`:
unfoldable pub refill_of : ℕ → ℕ
refill_of rate = rate * 2 ^ 32 % 2 ^ 64 / nanos_per_second

-- `Refill::earned`.
unfoldable pub earned : ℕ → Span → ℕ
earned refill elapsed = sat_mul64 elapsed refill

-- `Refill::time_for`, by `u64::div_ceil`; no caller has a refill of zero.
unfoldable pub time_for : ℕ → ℕ → Span
time_for refill deficit = if deficit % refill == 0 then deficit / refill else deficit / refill + 1

unfoldable pub tokens : ℕ → ℕ
tokens bytes = bytes * 2 ^ 32 % 2 ^ 64

unfoldable pub whole_bytes : ℕ → ℕ
whole_bytes level = level / 2 ^ 32 % 2 ^ 32

pub record Budget : Type 0 where
  pub config : BudgetConfig
  pub rate : ℕ
  pub refill : ℕ
  pub tokens : ℕ
  pub capacity : ℕ
  pub last_refill : Timestamp
  pub last_assessed : Timestamp
  pub window_sent : ℕ
  pub window_lost : ℕ
  pub queue_signals : ℕ

-- The configuration's packet size is below 2^32, so `as u32` keeps it.
unfoldable pub capacity_for : ℕ → BudgetConfig → ℕ
capacity_for rate config = tokens (max (rate / 4) (config.max_packet % 2 ^ 32))

unfoldable pub new : Timestamp → BudgetConfig → Budget
new now config = record {
  config = config;
  rate = config.rate;
  refill = refill_of config.rate;
  tokens = capacity_for config.rate config;
  capacity = capacity_for config.rate config;
  last_refill = now;
  last_assessed = now;
  window_sent = 0;
  window_lost = 0;
  queue_signals = 0;
}

unfoldable pub is_constrained : Budget → Bool
is_constrained b = ltb b.rate b.config.rate

unfoldable pub advance : Budget → Timestamp → Budget
advance b now =
    let elapsed = since now b.last_refill in
    if is_zero elapsed then b else record b {
      tokens = min (sat_add64 b.tokens (earned b.refill elapsed)) b.capacity;
      last_refill = now;
    }

unfoldable pub available : Budget → Timestamp → Budget × ℕ
available b now =
    let b' = advance b now in (b', min (whole_bytes b'.tokens) (b'.config.max_packet % 2 ^ 32))

-- The bytes of a datagram with one message of the length, at most the largest packet.
unfoldable pub needed_for : Budget → ℕ → ℕ
needed_for b payload_len =
    let datagram = (max_len + tag_len + message_frame_overhead + payload_len) % 2 ^ 64 in
    min (if leb datagram u32_max then datagram else u32_max) (b.config.max_packet % 2 ^ 32)

unfoldable pub ready_for : Budget → ℕ → Timestamp
ready_for b payload_len =
    let deficit = tokens (needed_for b payload_len) - b.tokens in
    if deficit == 0 then b.last_refill else saturating_add b.last_refill (time_for b.refill deficit)

unfoldable pub on_sent : Budget → ℕ → Bool → Budget
on_sent b len eliciting = record b {
  tokens = b.tokens - tokens len;
  window_sent = if eliciting then sat_add32 b.window_sent 1 else b.window_sent;
}

unfoldable pub on_lost : Budget → Budget
on_lost b = record b { window_lost = sat_add32 b.window_lost 1 }

unfoldable pub on_spurious : Budget → Budget
on_spurious b = record b { window_lost = b.window_lost - 1 }

unfoldable pub set_rate : Budget → ℕ → Budget
set_rate b rate = record b {
  rate = rate;
  refill = refill_of rate;
  capacity = capacity_for rate b.config;
  tokens = min b.tokens (capacity_for rate b.config);
}

unfoldable pub on_path_change : Budget → Timestamp → Budget
on_path_change b now = record (set_rate b b.config.rate) {
  last_assessed = now;
  window_sent = 0;
  window_lost = 0;
  queue_signals = 0;
}

unfoldable pub decrease : Budget → Budget
decrease b = set_rate b (max (b.rate / 4 * 3 % 2 ^ 32) min_rate)

unfoldable pub increase : Budget → Budget
increase b = set_rate b (min (sat_add32 b.rate (max (b.config.rate / 16) 1)) b.config.rate)

unfoldable pub assess_interval : Rtt → Span
assess_interval rtt = span_max (smoothed rtt) min_assess_interval

unfoldable pub rises_above : Option Span → Option Span → Bool
rises_above (some baseline) (some recent) =
    ltb (sat_add64 baseline (span_max (baseline / 4) min_queue_delay)) recent
rises_above (some baseline) none = false
rises_above none recent = false

unfoldable pub is_queueing : Rtt → Bool
is_queueing rtt = rises_above (rtt_min rtt) (recent_min rtt)

unfoldable pub is_lossy : Budget → Bool
is_lossy b = ltb (b.window_sent * 1) (b.window_lost * 50)

-- What `assess` does with a window that has enough packets in it.
unfoldable pub judge : Budget → Bool → Budget
judge b queueing =
    let signals = if queueing then min (b.queue_signals + 1) u8_max else 0 in
    let cleared = record b { window_sent = 0; window_lost = 0; queue_signals = signals } in
    if is_lossy b || leb queue_persistence signals
    then decrease (record cleared { queue_signals = 0 })
    else increase cleared

unfoldable pub assess : Budget → Timestamp → Rtt → Budget
assess b now rtt =
    if ltb (since now b.last_assessed) (assess_interval rtt)
    then b
    else let read = record b { last_assessed = now } in
      if ltb b.window_sent min_loss_samples then read else judge read (is_queueing rtt)
