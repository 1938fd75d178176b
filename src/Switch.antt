-- ===== src/Switch.antt =====
-- The switch of crates/xstack/src/switch.
pub mod Addresses
pub mod State
pub mod Identity
pub mod Handshake
pub mod Streams
pub mod Builder
