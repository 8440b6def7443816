-- ===== src/Auth.antt =====
-- crates/resocks5/src/auth: who is let in, and the first login that chooses a password.
pub mod State
pub mod Persist
pub mod Login
pub mod System
