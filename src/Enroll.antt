-- ===== src/Enroll.antt =====
-- crates/zyris-core/src/enroll: how a node is enrolled.
pub mod Poll
