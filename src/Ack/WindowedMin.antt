-- ===== src/Ack/WindowedMin.antt =====
-- `WindowedMin` of hex-net-core/src/ack.rs: a minimum over a sliding window, in two halves.
use hex_net.Common.{ℕ, ◌/◌, leb, if◌then◌else◌}
use hex_net.Time.Span.{Span, min as span_min}
use hex_net.Time.Timestamp.{Timestamp, since}

pub record WindowedMin : Type 0 where
  pub current : Span
  pub previous : Span
  pub epoch : Timestamp

unfoldable pub new : Timestamp → Span → WindowedMin
new now sample = record { current = sample; previous = sample; epoch = now }

-- The first argument is `NANOS`.
unfoldable pub update : ℕ → WindowedMin → Timestamp → Span → WindowedMin
update nanos w now sample =
    if leb (nanos / 2) (since now w.epoch)
    then record { current = sample; previous = w.current; epoch = now }
    else record w { current = span_min w.current sample }

unfoldable pub get : WindowedMin → Span
get w = span_min w.current w.previous
