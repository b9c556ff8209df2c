-- ===== src/Ack/Delay.antt =====
-- `encode_ack_delay` and `decode_ack_delay` of hex-net-core/src/ack.rs: a header's byte for the time
-- an acknowledgement was held.
use hex_net.Common.{
  ℕ, ◌+◌, ◌*◌, ◌/◌, ◌≤◌, ◌<◌, ◌≡◌, Option, none, some, arith, leb, ◌==◌, if◌then◌else◌, u8_max,
}
use hex_net.Config.{ack_delay_unit, new_max_ack_delay}
use hex_net.Time.Span.{Span, saturating_mul}

unfoldable pub encode_ack_delay : Span → ℕ
encode_ack_delay delay =
    let units = delay / ack_delay_unit in if leb units u8_max then units else u8_max

unfoldable pub decode_ack_delay : ℕ → Option Span
decode_ack_delay encoded =
    if encoded == u8_max then none else some (saturating_mul ack_delay_unit encoded)

-- A held time comes back rounded down to the unit, if it is below 255 units; one that is not comes
-- back as unknown.
pub decode-encode_ack_delay :
    (delay : Span)
    → decode_ack_delay (encode_ack_delay delay) ≡ (
        if leb (255 * ack_delay_unit) delay
        then none
        else some (delay / ack_delay_unit * ack_delay_unit))
unfolding decode_ack_delay encode_ack_delay saturating_mul
decode-encode_ack_delay delay = ground arith

-- A hold that the configuration admits is reported, and by less than a unit too short.
admitted_delay_reported :
    (delay limit : Span)
    → new_max_ack_delay delay ≡ some limit
    → (reported : Span) × (decode_ack_delay (encode_ack_delay limit) ≡ some reported)
      × (reported ≤ limit)
      × (limit < reported + ack_delay_unit)
unfolding new_max_ack_delay
admitted_delay_reported delay limit e = (
  limit / ack_delay_unit * ack_delay_unit,
  ground (arith, decode-encode_ack_delay limit),
  omega arith,
  omega arith,
)
