-- ===== src/Time/Clock.antt =====
-- `TickPeriod` and `TickClock` of hex-net-core/src/time.rs: instants to ticks and back.
use native.Mathlib.Nat.{div-mul-le_self, lt-div-mul-add, mul-div_cancel, le-div_iff_mul-le}
use hex_net.Common.{
  ap, ◌∙◌, ℕ, ◌+◌, ◌-◌, ◌*◌, ◌/◌, ◌^◌, ◌≤◌, ◌<◌, ◌≡◌, Option, none, some, arith, leb, ◌==◌,
  if◌then◌else◌, ◌>>=◌, checked, checked_sub, sat_add32, u32_max, u64_max,
}
use hex_net.Time.Span.{Span, nanos_per_second, is_zero}
use hex_net.Time.Timestamp.{Timestamp, since}
use hex_net.Time.Tick.{Tick}

abbrev pub TickPeriod : Type 0
TickPeriod = Span

-- `TickPeriod::new`.
unfoldable pub new_period : Span → Option TickPeriod
new_period period = if is_zero period then none else some period

unfoldable pub from_hz : ℕ → Option TickPeriod
unfolding new_period
from_hz hz = if hz == 0 then none else new_period (nanos_per_second / hz)

pub record TickClock : Type 0 where
  pub base_time : Timestamp
  pub base_tick : Tick
  pub period : TickPeriod

-- `TickClock::new`.
unfoldable pub new_clock : Timestamp → TickPeriod → TickClock
new_clock start period = record { base_time = start; base_tick = 0; period = period }

-- `u32::try_from(…).unwrap_or(u32::MAX)`, then a saturating sum.
unfoldable pub tick_at : TickClock → Timestamp → Tick
unfolding since
tick_at c now =
    let ticks = since now c.base_time / c.period in
    sat_add32 c.base_tick (if leb ticks u32_max then ticks else u32_max)

unfoldable pub start_of : TickClock → Tick → Option Timestamp
start_of c tick = do
  n ← checked_sub tick c.base_tick
  offset ← checked u64_max (n * c.period)
  checked u64_max (c.base_time + offset)

rebase : TickClock → Tick → TickPeriod → Option Timestamp → TickClock
rebase c tick period none = record c { period = period }
rebase c tick period (some start) = record { base_time = start; base_tick = tick; period = period }

unfoldable pub set_period : TickClock → Timestamp → TickPeriod → TickClock
unfolding rebase
set_period c now period = let tick = tick_at c now in rebase c tick period (start_of c tick)

-- What the constructors give, and `set_period` keeps.
pub record IsValid (c : TickClock) : Type 0 where
  pub period_pos : 0 < c.period
  pub time_fits : c.base_time < 2 ^ 64
  pub tick_fits : c.base_tick < 2 ^ 32

-- A rate of ticks per second yields a period that is not zero, or none.
pub from_hz_pos :
    (hz : ℕ) (p : TickPeriod) → from_hz hz ≡ some p → (0 < p) × (p * hz ≤ nanos_per_second)
unfolding from_hz
from_hz_pos hz p e = ground (arith, div-mul-le_self nanos_per_second hz)

-- The start of a tick in closed form, and back.
pub start_of_eq :
    (c : TickClock) (n : ℕ)
    → c.base_time + n * c.period ≤ u64_max
    → start_of c (c.base_tick + n) ≡ some (c.base_time + n * c.period)
unfolding start_of
start_of_eq c n h = let d : c.base_tick + n - c.base_tick ≡ n = omega arith in rw d (ground arith)

pub start_of_inv :
    (c : TickClock) (k : Tick) (t : Timestamp)
    → start_of c k ≡ some t
    → (c.base_tick ≤ k) × (t ≡ c.base_time + (k - c.base_tick) * c.period)
unfolding start_of
start_of_inv c k t e = ground arith

-- The tick count, where it does not saturate.
pub tick_at_eq :
    (c : TickClock) (now : Timestamp)
    → c.base_tick + (now - c.base_time) / c.period < 2 ^ 32
    → tick_at c now ≡ c.base_tick + (now - c.base_time) / c.period
unfolding tick_at
tick_at_eq c now small = ground arith

-- On a valid clock, from its base on and where the tick count does not saturate, the tick at an
-- instant starts at or before it, and ends after it.
tick_at_brackets :
    (c : TickClock) (now : Timestamp)
    → IsValid c
    → c.base_time ≤ now
    → now < 2 ^ 64
    → c.base_tick + (now - c.base_time) / c.period < 2 ^ 32
    → (t : Timestamp) × (start_of c (tick_at c now) ≡ some t) × (t ≤ now) × (now < t + c.period)
tick_at_brackets c now v h fits small =
    let q = (now - c.base_time) / c.period in
    let low = div-mul-le_self (now - c.base_time) c.period in
    let high = lt-div-mul-add {a = now - c.base_time} v.period_pos in
    (
      c.base_time + q * c.period,
      rw (tick_at_eq c now small) (start_of_eq c q (omega arith)),
      omega arith,
      omega arith,
    )

-- On a valid clock, the tick at the instant where a 32-bit tick starts is that tick.
tick_at-start_of :
    (c : TickClock) (k : Tick) (t : Timestamp)
    → IsValid c
    → k < 2 ^ 32
    → start_of c k ≡ some t
    → tick_at c t ≡ k
tick_at-start_of c k t v small e =
    let inv = start_of_inv c k t e in
    let count : (t - c.base_time) / c.period ≡ k - c.base_tick =
      ap (λ x. x / c.period) (omega arith) ∙ mul-div_cancel (k - c.base_tick) v.period_pos in
    omega (arith, tick_at_eq c t (omega arith))

-- On a valid clock ticks never run back as time goes on.
tick_at_mono :
    (c : TickClock) (now later : Timestamp)
    → IsValid c
    → now ≤ later
    → tick_at c now ≤ tick_at c later
unfolding tick_at
tick_at_mono c now later v h =
    let q = (now - c.base_time) / c.period in
    let low = div-mul-le_self (now - c.base_time) c.period in
    let le = (le-div_iff_mul-le {x = q} {y = later - c.base_time} v.period_pos).1 (omega arith) in
    ground arith
