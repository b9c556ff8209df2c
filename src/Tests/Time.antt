-- ===== src/Tests/Time.antt =====
-- Examples for hex-net-core/src/time.rs.
use hex_net.Common.{◌<◌, arith}
use hex_net.Time.Clock.{TickClock, IsValid, tick_at, set_period}
use hex_net.Time.Rebase.{Runs, set_period_skips}

abbrev clock : TickClock
clock = record { base_time = 100; base_tick = 3; period = 10 }

clock-IsValid : IsValid clock
clock-IsValid = record {
  period_pos = omega arith;
  time_fits = omega arith;
  tick_fits = omega arith;
}

clock-Runs : Runs clock 128
clock-Runs = record {
  valid = clock-IsValid;
  begun = omega arith;
  fits = omega arith;
  counted = omega arith;
}

set_period_skips_example : tick_at clock 128 < tick_at (set_period clock 128 4) 128
unfolding tick_at
set_period_skips_example =
    set_period_skips clock 128 4 clock-Runs (omega arith) (omega arith) (omega arith)
