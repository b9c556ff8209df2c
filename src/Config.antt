-- ===== src/Config.antt =====
-- hex-net-core/src/config.rs: the tunable values and the bounds that their constructors check, with
-- the widths from bits.rs and channel.rs that one of the bounds is computed from.
use native.Mathlib.Nat.{pow-suc}
use hex_net.Common.{
  ℕ, zero, suc, ◌+◌, ◌-◌, ◌*◌, ◌/◌, ◌^◌, ◌≤◌, ◌<◌, ◌≡◌, ◌≢◌, ◌↔◌, max, refl, Bool-cases, inl, inr,
  ◌*◌, Option, none, some, arith, ◌||◌, ltb, ◌==◌, if◌then◌else◌, sat_mul64, u8_max,
}
use hex_net.Time.Span.{Span, is_zero}
use hex_net.Wire.Header.{max_len, max_datagram}

-- How many binary digits a number has, at most `fuel`.
pub digits_of : ℕ → ℕ → ℕ
digits_of zero n = 0
digits_of (suc fuel) n = let more = suc (digits_of fuel (n / 2)) in if n == 0 then 0 else more

-- `32 - range.leading_zeros()` of bits.rs.
unfoldable pub bits_required : ℕ → ℕ
bits_required range = digits_of 32 range

digits_of-zero : (fuel : ℕ) → digits_of fuel 0 ≡ 0
unfolding digits_of
digits_of-zero zero = refl
digits_of-zero (suc fuel) = refl

digits_of_lem :
    (fuel n : ℕ)
    → n < 2 ^ fuel
    → (n < 2 ^ digits_of fuel n)
      × (digits_of fuel n ≤ fuel)
      × (2 ^ digits_of fuel n ≤ max 1 (2 * n))
unfolding digits_of
digits_of_lem zero n h = (h, omega arith, omega arith)
digits_of_lem (suc fuel) n h =
    let ih = digits_of_lem fuel (n / 2) (omega (arith, pow-suc 2 fuel)) in
    elim (Bool-cases (n == 0)) [
      | inl nothing ↦ let z : n ≡ 0 = ground arith in rw z (omega arith, omega arith, omega arith)
      | inr more ↦
          let ne : n ≢ 0 = ground arith in
          let p = pow-suc 2 (digits_of fuel (n / 2)) in
          rw more (omega arith, omega arith, omega arith)
    ]

-- The width of a 32-bit range other than zero holds every value of the range, is at most 32, and
-- one bit less would not hold the largest.
pub bits_required_lem :
    (range : ℕ)
    → range < 2 ^ 32
    → range ≢ 0
    → (range < 2 ^ bits_required range)
      × (bits_required range ≤ 32)
      × (2 ^ bits_required range ≤ 2 * range)
unfolding bits_required
bits_required_lem range h ne =
    let (fits, width, low) = digits_of_lem 32 range h in (fits, width, omega arith)

abbrev pub tag_len : ℕ
tag_len = 16

abbrev pub max_message : ℕ
max_message = 1024

abbrev pub max_channels : ℕ
max_channels = 8

abbrev pub message_id_bits : ℕ
message_id_bits = 16

-- Kind, channel, id and length of a message frame.
pub message_frame_bits : ℕ
message_frame_bits =
    3 + bits_required (max_channels - 1) + message_id_bits + bits_required max_message

-- `(MESSAGE_FRAME_BITS + 7).div_ceil(8)`.
pub message_frame_overhead : ℕ
message_frame_overhead = (message_frame_bits + 7 + 7) / 8

pub min_packet : ℕ
min_packet = max_len + tag_len + message_frame_overhead + max_message

abbrev pub ack_delay_unit : Span
ack_delay_unit = 250_000

abbrev pub min_rate : ℕ
min_rate = 2000

pub record BudgetConfig : Type 0 where
  pub rate : ℕ
  pub max_packet : ℕ

-- `BudgetConfig::new`.
unfoldable pub new_budget_config : ℕ → ℕ → Option BudgetConfig
new_budget_config rate max_packet =
    if ltb rate min_rate || (ltb max_packet min_packet || ltb max_datagram max_packet)
    then none
    else some (record { rate = rate; max_packet = max_packet })

abbrev pub ack_delay_limit : Span
ack_delay_limit = ack_delay_unit * (u8_max - 1)

-- `MaxAckDelay::new`.
unfoldable pub new_max_ack_delay : Span → Option Span
new_max_ack_delay delay = if ltb ack_delay_limit delay then none else some delay

pub record Liveness : Type 0 where
  pub idle_timeout : Span
  pub keepalive : Span

-- `Liveness::new`.
unfoldable pub new_liveness : Span → Span → Option Liveness
new_liveness idle_timeout keepalive =
    if is_zero keepalive
    then none
    else (if ltb idle_timeout (sat_mul64 keepalive 2)
        then none
        else some (record { idle_timeout = idle_timeout; keepalive = keepalive }))

-- What every configuration of the budget satisfies.
pub record IsAdmitted (c : BudgetConfig) : Type 0 where
  pub rate_low : min_rate ≤ c.rate
  pub packet_low : min_packet ≤ c.max_packet
  pub packet_high : c.max_packet ≤ max_datagram

pub min_packet_lem : min_packet ≡ 1059
unfolding min_packet message_frame_overhead message_frame_bits bits_required digits_of
min_packet_lem = refl

-- The constructor returns a configuration exactly when its two fields are the arguments and it is
-- within the bounds.
new_budget_config_iff :
    (rate max_packet : ℕ) (c : BudgetConfig)
    → (new_budget_config rate max_packet ≡ some c)
      ↔ ((c.rate ≡ rate) × (c.max_packet ≡ max_packet) × IsAdmitted c)
unfolding new_budget_config
new_budget_config_iff rate max_packet c = ground arith

-- Timings with a keepalive below 2^63 nanoseconds are admitted exactly when the keepalive is not
-- zero and two of it fit in the idle timeout.
new_liveness_iff :
    (idle keepalive : Span) (l : Liveness)
    → keepalive < 2 ^ 63
    → (new_liveness idle keepalive ≡ some l) ↔ (
        (l.idle_timeout ≡ idle)
        × (l.keepalive ≡ keepalive)
        × (0 < keepalive)
        × (keepalive + keepalive ≤ idle))
unfolding new_liveness
new_liveness_iff idle keepalive l h = ground arith
