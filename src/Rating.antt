-- ===== src/Rating.antt =====
-- crates/resocks5-net/src/session/rating: the rating of the upstreams.
pub mod Float
pub mod Policy
pub mod Quarantine
pub mod Ratings
pub mod Rng
pub mod Sand
pub mod Select
