-- ===== src/Rotator.antt =====
-- crates/resocks5-net/src/session/rotator: the upstreams with their ratings and the sticky cache.
pub mod Order
pub mod Slots
pub mod Sticky
pub mod Upstreams
