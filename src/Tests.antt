-- ===== src/Tests.antt =====
-- Concrete runs of the code's definitions, and the theorems applied to concrete inputs.
pub mod Rating
pub mod Rotator
pub mod Auth
pub mod Proxy
pub mod Tls
