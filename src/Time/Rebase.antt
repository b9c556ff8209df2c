-- ===== src/Time/Rebase.antt =====
-- `TickClock::set_period` of hex-net-core/src/time.rs: what a change of rate does to the tick.
use native.Mathlib.Nat.{div-mul-le_self, lt-div-mul-add, div-eq_of_lt, le-div_iff_mul-le}
use hex_net.Common.{◌+◌, ◌-◌, ◌*◌, ◌/◌, ◌^◌, ◌≤◌, ◌<◌, ◌≡◌, sym, ◌∙◌, some, arith, u32_max}
use hex_net.Time.Timestamp.{Timestamp}
use hex_net.Time.Clock.{
  TickPeriod, TickClock, IsValid, tick_at, start_of, set_period, tick_at_eq, start_of_eq,
}

-- An instant at which the clock runs, and the tick in progress there does not saturate.
pub record Runs (c : TickClock) (now : Timestamp) : Type 0 where
  pub valid : IsValid c
  pub begun : c.base_time ≤ now
  pub fits : now < 2 ^ 64
  pub counted : c.base_tick + (now - c.base_time) / c.period < 2 ^ 32

-- The start of the tick in progress.
abbrev pub start : TickClock → Timestamp → Timestamp
start c now = c.base_time + (now - c.base_time) / c.period * c.period

module _ {c : TickClock} {now : Timestamp} (r : Runs c now) where
  pub start_bounds : (start c now ≤ now) × (now < start c now + c.period)
  start_bounds =
      let v = r.valid in
      let b = r.begun in
      let low = div-mul-le_self (now - c.base_time) c.period in
      let high = lt-div-mul-add {a = now - c.base_time} v.period_pos in omega arith

  tick_lem : tick_at c now ≡ c.base_tick + (now - c.base_time) / c.period
  tick_lem = let small = r.counted in tick_at_eq c now small

  pub start_of-tick_at : start_of c (tick_at c now) ≡ some (start c now)
  start_of-tick_at =
      let fits = r.fits in
      let bounds = start_bounds in
      rw tick_lem (start_of_eq c ((now - c.base_time) / c.period) (omega arith))

  pub set_period_eq :
      (p : TickPeriod)
      → set_period c now p
        ≡ record { base_time = start c now; base_tick = tick_at c now; period = p }
  unfolding set_period
  set_period_eq p = let found = start_of-tick_at in ground arith

-- At an instant where a valid clock runs unsaturated, a new period that is not zero leaves a
-- valid clock, on which the tick in progress starts where it did.
set_period-IsValid :
    (c : TickClock) (now : Timestamp) (p : TickPeriod)
    → Runs c now
    → 0 < p
    → IsValid (set_period c now p)
      × (start_of (set_period c now p) (tick_at c now) ≡ start_of c (tick_at c now))
set_period-IsValid c now p r h =
    let next : TickClock = record {
      base_time = start c now;
      base_tick = tick_at c now;
      period = p;
    } in
    let bounds = start_bounds r in
    let valid : IsValid next = record {
      period_pos = h;
      time_fits = omega arith;
      tick_fits = omega (arith, tick_lem r);
    } in
    let restart : start_of next (tick_at c now) ≡ some (start c now) =
      unfold start_of in ground arith in
    rw (set_period_eq r p) (valid, restart ∙ sym (start_of-tick_at r))

-- At an instant where a valid clock runs unsaturated, no tick is repeated or skipped by a period
-- at least as long as the old one.
set_period_keeps :
    (c : TickClock) (now : Timestamp) (p : TickPeriod)
    → Runs c now
    → c.period ≤ p
    → tick_at (set_period c now p) now ≡ tick_at c now
unfolding tick_at
set_period_keeps c now p r h =
    let bounds = start_bounds r in
    let none_more = div-eq_of_lt {n = now - start c now} {m = p} (omega arith) in
    rw (set_period_eq r p) (ground (arith, tick_lem r))

-- At an instant where a valid clock runs unsaturated, a new period that is not zero and no
-- longer than what has passed of the tick in progress skips at least one tick at once, unless
-- the count is at its end.
pub set_period_skips :
    (c : TickClock) (now : Timestamp) (p : TickPeriod)
    → Runs c now
    → 0 < p
    → p ≤ now - start c now
    → tick_at c now < u32_max
    → tick_at c now < tick_at (set_period c now p) now
unfolding tick_at
set_period_skips c now p r h short room =
    let more = (le-div_iff_mul-le {k = p} {x = 1} {y = now - start c now} h).1 (omega arith) in
    rw (set_period_eq r p) (ground arith)
