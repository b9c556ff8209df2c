-- ===== src/Time/Span.antt =====
-- `Span` of hex-net-core/src/time.rs: a length of time, the `u64` of nanoseconds that it wraps.
use hex_net.Common.{ℕ, ◌-◌, ◌/◌, Bool, leb, ◌==◌, if◌then◌else◌, sat_add64, sat_mul64, u64_max}

abbrev pub Span : Type 0
Span = ℕ

abbrev pub zero_span : Span
zero_span = 0

abbrev pub max_span : Span
max_span = u64_max

abbrev pub nanos_per_micro : ℕ
nanos_per_micro = 1_000

abbrev pub nanos_per_milli : ℕ
nanos_per_milli = 1_000_000

abbrev pub nanos_per_second : ℕ
nanos_per_second = 1_000_000_000

abbrev pub from_micros : ℕ → Span
from_micros micros = sat_mul64 micros nanos_per_micro

abbrev pub from_millis : ℕ → Span
from_millis millis = sat_mul64 millis nanos_per_milli

abbrev pub from_secs : ℕ → Span
from_secs secs = sat_mul64 secs nanos_per_second

-- `Duration::as_nanos` is a `u128`: the argument here.
unfoldable pub from_duration : ℕ → Span
from_duration nanos = if leb nanos u64_max then nanos else max_span

abbrev pub is_zero : Span → Bool
is_zero s = s == 0

unfoldable pub saturating_add : Span → Span → Span
saturating_add a b = sat_add64 a b

unfoldable pub saturating_sub : Span → Span → Span
saturating_sub a b = a - b

unfoldable pub saturating_mul : Span → ℕ → Span
saturating_mul a factor = sat_mul64 a factor

-- `scaled::<NUM, DEN>`.
unfoldable pub scaled : ℕ → ℕ → Span → Span
scaled num den s = sat_mul64 s num / den

unfoldable pub abs_diff : Span → Span → Span
abs_diff a b = if leb a b then b - a else a - b

unfoldable pub min : Span → Span → Span
min a b = if leb a b then a else b

unfoldable pub max : Span → Span → Span
max a b = if leb b a then a else b
