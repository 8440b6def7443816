-- ===== src/Rust.antt =====
-- The parts of Rust's standard library that the modelled code calls. A byte string is a list of
-- numbers below 256; a `str` is its UTF-8 bytes.
pub mod Text
pub mod Number
pub mod Net
pub mod Space
pub mod Utf8
pub mod Ip
pub mod Collections
