-- ===== src/Sm4.antt =====
-- src/sm4: the block cipher, padding, and the modes of operation.
pub mod Cipher
pub mod Padding
pub mod Modes
