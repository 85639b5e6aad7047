-- ===== src/Sm9/Groups.antt =====
-- src/sm9/groups: the groups of SM9.
pub mod G1
