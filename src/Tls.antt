-- ===== src/Tls.antt =====
-- crates/resocks5-net/src/connect/tls: the TLS record layer, as far as the relay reads it.
pub mod Records
