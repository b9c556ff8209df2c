-- ===== src/Ack.antt =====
-- Round-trip estimation and the acknowledgement delay of hex-net-core/src/ack.rs.
pub mod WindowedMin
pub mod Rtt
pub mod Samples
pub mod Delivery
pub mod Loss
pub mod Count
pub mod Within
pub mod Delay
