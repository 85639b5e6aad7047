-- ===== src/Sm4/Modes.antt =====
-- src/sm4/modes.rs: the modes of operation, one module for each group.
pub mod Shape
pub mod Basic
pub mod Gcm
pub mod KeyWrap
pub mod Eax
pub mod Xts
pub mod Siv
pub mod Ccm
pub mod Ocb
