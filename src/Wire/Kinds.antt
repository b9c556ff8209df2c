-- ===== src/Wire/Kinds.antt =====
-- The numbered kinds of hex-net-core/src/wire.rs, and the close reasons of connection.rs.
use hex_net.Common.{ℕ, ◌^◌, ◌<◌, ◌≡◌, ◌↔◌, bit_and, Option, none, some, arith, ◌==◌, if◌then◌else◌}

pub data PacketKind : Type 0 where
  payload request challenge response : PacketKind

pub data FrameKind : Type 0 where
  padding control time_sync message fragment replication : FrameKind

pub data ControlKind : Type 0 where
  ping close path_challenge path_response resume_ticket accepted : ControlKind

pub data CloseReason : Type 0 where
  requested timed_out protocol_violation server_shutdown replaced : CloseReason

-- `kind as u8`.
abbrev pub packet_code : PacketKind → ℕ
packet_code payload = 0
packet_code request = 1
packet_code challenge = 2
packet_code response = 3

abbrev pub packet_from_bits : ℕ → Option PacketKind
packet_from_bits bits =
    if bits == 0
    then some payload
    else (if bits == 1
        then some request
        else (if bits == 2 then some challenge else (if bits == 3 then some response else none)))

abbrev pub kind_mask : ℕ
kind_mask = 0b11

abbrev pub ack_flag : ℕ
ack_flag = 0b100

abbrev pub ack_bits_flag : ℕ
ack_bits_flag = 0b1000

abbrev pub reserved_flags : ℕ
reserved_flags = 0b1111_0000

-- `PacketKind::from_byte`.
abbrev pub packet_from_byte : ℕ → Option PacketKind
packet_from_byte byte = packet_from_bits (bit_and byte kind_mask)

abbrev pub frame_code : FrameKind → ℕ
frame_code padding = 0
frame_code control = 1
frame_code time_sync = 2
frame_code message = 3
frame_code fragment = 4
frame_code replication = 5

abbrev pub frame_from_bits : ℕ → Option FrameKind
frame_from_bits bits =
    if bits == 0
    then some padding
    else (if bits == 1
        then some control
        else (if bits == 2
            then some time_sync
            else (if bits == 3
                then some message
                else (if bits == 4
                    then some fragment
                    else (if bits == 5 then some replication else none)))))

abbrev pub control_code : ControlKind → ℕ
control_code ping = 0
control_code close = 1
control_code path_challenge = 2
control_code path_response = 3
control_code resume_ticket = 4
control_code accepted = 5

abbrev pub control_from_bits : ℕ → Option ControlKind
control_from_bits bits =
    if bits == 0
    then some ping
    else (if bits == 1
        then some close
        else (if bits == 2
            then some path_challenge
            else (if bits == 3
                then some path_response
                else (if bits == 4
                    then some resume_ticket
                    else (if bits == 5 then some accepted else none)))))

abbrev pub close_code : CloseReason → ℕ
close_code requested = 0
close_code timed_out = 1
close_code protocol_violation = 2
close_code server_shutdown = 3
close_code replaced = 4

abbrev pub close_from_bits : ℕ → Option CloseReason
close_from_bits bits =
    if bits == 0
    then some requested
    else (if bits == 1
        then some timed_out
        else (if bits == 2
            then some protocol_violation
            else (if bits == 3
                then some server_shutdown
                else (if bits == 4 then some replaced else none))))

-- The number of bits that carry a frame kind, a control kind or a close reason.
abbrev pub kind_bits : ℕ
kind_bits = 3

-- Each kind is read back from its number and from no other, and its number fits its field.
pub kinds_iff :
    (bits : ℕ) (p : PacketKind) (f : FrameKind) (c : ControlKind) (r : CloseReason)
    → ((packet_from_bits bits ≡ some p) ↔ (bits ≡ packet_code p))
      × ((frame_from_bits bits ≡ some f) ↔ (bits ≡ frame_code f))
      × ((control_from_bits bits ≡ some c) ↔ (bits ≡ control_code c))
      × ((close_from_bits bits ≡ some r) ↔ (bits ≡ close_code r))
kinds_iff bits p f c r = (ground arith, ground arith, ground arith, ground arith)

pub codes_fit :
    (p : PacketKind) (f : FrameKind) (c : ControlKind) (r : CloseReason)
    → (packet_code p < 2 ^ 2)
      × (frame_code f < 2 ^ kind_bits)
      × (control_code c < 2 ^ kind_bits)
      × (close_code r < 2 ^ kind_bits)
codes_fit p f c r = (ground arith, ground arith, ground arith, ground arith)
