-- ===== src/Sm3.antt =====
-- src/sm3: the SM3 hash and HMAC-SM3.
pub mod Compress
pub mod Hash
pub mod Hmac
pub mod Hkdf
pub mod Reference
pub mod Refines
pub mod Updates
pub mod Finalize
pub mod Streaming
