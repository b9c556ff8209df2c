-- ===== src/Time.antt =====
-- hex-net-core/src/time.rs: lengths of time, instants, and ticks at a fixed rate.
pub mod Span
pub mod Timestamp
pub mod Tick
pub mod Clock
pub mod Rebase
