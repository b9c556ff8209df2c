-- ===== src/Fixed.antt =====
-- hex-net-core/src/fixed.rs: fixed-capacity containers.
pub mod Vec
pub mod Ring
