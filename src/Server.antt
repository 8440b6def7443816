-- ===== src/Server.antt =====
-- crates/resocks5-net/src/server: the inbound handshakes.
pub mod Socks
pub mod Wire
pub mod Http
pub mod Prefixed
pub mod Reply
pub mod StrictHttp
