-- ===== src/Tests/Channel.antt =====
-- Examples for hex-net-core/src/channel.rs.
use hex_net.Common.{ℕ, ◌≡◌, refl, true, false, some, List, [], ◌∷◌, arith}
use hex_net.Seq.{check, insert, empty}
use hex_net.Seq.Replay.{admit}
use hex_net.Channel.{
  Channels, MessageId, new_channels, new_set, reliable_ordered, receive, next_held, new_receiver,
}
use hex_net.Channel.Unordered.{accepted, StaysNear, accepted-admit}
use hex_net.Channel.Flush.{IsReady, consecutive, advanced}
use hex_net.Channel.Ordered.{receive_all, receive_all-consecutive, receive_expected}
use hex_net.Channel.Sending.{Pending, MessageKey}

-- Copies, a gap and counters on both sides of 2^32.
abbrev counters : List ℕ
counters = 4_294_967_290 ∷ 4_294_967_300 ∷ 4_294_967_290 ∷ 4_294_967_299 ∷ 4_294_967_300 ∷ []

counters_near : StaysNear empty counters
unfolding check insert
counters_near = omega arith

accepted-admit_example : accepted new_receiver counters ≡ admit empty counters
accepted-admit_example = accepted-admit counters counters_near

abbrev channels : Channels
channels = new_channels (new_set (reliable_ordered ∷ []))

channels-IsReady : IsReady channels 0 0
unfolding IsReady new_channels next_held new_receiver
channels-IsReady = ((new_receiver, refl, refl), omega arith, refl)

receive_all-consecutive_example :
    (c' : Channels) × (n : ℕ) × (receive_all channels 0
        ((1, true) ∷ (2, true) ∷ (1, true) ∷ (0, true) ∷ (4, false) ∷ [])
      ≡ some (c', consecutive 0 n))
    × IsReady c' 0 (advanced 0 n)
receive_all-consecutive_example =
    receive_all-consecutive channels 0 0
      ((1, true) ∷ (2, true) ∷ (1, true) ∷ (0, true) ∷ (4, false) ∷ []) channels-IsReady
      (omega arith)

receive_expected_example :
    (c' : Channels) × (rest : List MessageId) × (receive channels 0 reliable_ordered 0 false
      ≡ some (c', 0 ∷ rest))
receive_expected_example = receive_expected channels 0 0 false channels-IsReady

abbrev queue : List Pending
queue =
    record { channel = 0; id = 4; len = 10; in_flight = true }
    ∷ record { channel = 1; id = 4; len = 20; in_flight = false }
    ∷ record { channel = 0; id = 5; len = 30; in_flight = true }
    ∷ []

abbrev key : ℕ → ℕ → MessageKey
key channel id = record { channel = channel; id = id }
