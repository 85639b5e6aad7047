-- ===== src/Sm9.antt =====
-- src/sm9: the field tower over the base field of SM9.
pub mod Fields
pub mod Groups
