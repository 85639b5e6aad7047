-- ===== src/Sm2.antt =====
-- src/sm2: DER encodings of signatures and keys.
pub mod Der
pub mod Field
pub mod Ec
pub mod Public
pub mod Private
pub mod Sign
pub mod Encrypt
pub mod KeyExchange
