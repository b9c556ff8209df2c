-- ===== src/Time/Timestamp.antt =====
-- `Timestamp` of hex-net-core/src/time.rs: an instant, in nanoseconds since the clock's origin.
use hex_net.Common.{
  ℕ, ◌+◌, ◌-◌, ◌≤◌, ◌<◌, ◌≡◌, ◌↔◌, Option, some, arith, sat_add64, u64_max, checked,
  checked_sub as sub_checked,
}
use hex_net.Time.Span.{Span}

abbrev pub Timestamp : Type 0
Timestamp = ℕ

abbrev pub origin : Timestamp
origin = 0

abbrev pub latest : Timestamp
latest = u64_max

-- How long ago `earlier` was, or zero.
unfoldable pub since : Timestamp → Timestamp → Span
since now earlier = now - earlier

unfoldable pub checked_add : Timestamp → Span → Option Timestamp
checked_add t span = checked u64_max (t + span)

unfoldable pub checked_sub : Timestamp → Span → Option Timestamp
checked_sub t span = sub_checked t span

unfoldable pub saturating_add : Timestamp → Span → Timestamp
saturating_add t span = sat_add64 t span

unfoldable pub saturating_sub : Timestamp → Span → Timestamp
saturating_sub t span = t - span

-- For `now` at or after `start` and before the last instant, the deadline `span` after `start`
-- has come exactly when `start` is at least `span` ago.
pub due_iff_since :
    (start now : Timestamp) (span : Span)
    → start ≤ now
    → now < latest
    → (saturating_add start span ≤ now) ↔ (span ≤ since now start)
unfolding saturating_add since
due_iff_since start now span h lt = omega arith

-- A checked sum is undone by a checked difference, and agrees with the saturating sum; one that
-- does not fit is where the saturating sum is the last instant.
pub checked_add_lem :
    (t u : Timestamp) (span : Span)
    → checked_add t span ≡ some u
    → (checked_sub u span ≡ some t) × (since u t ≡ span) × (saturating_add t span ≡ u)
unfolding checked_add checked_sub since saturating_add
checked_add_lem t u span e = ground arith
