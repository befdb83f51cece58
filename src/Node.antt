-- ===== src/Node.antt =====
-- crates/zyris-core/src/node.rs: a node, and the link that keeps it connected.
pub mod Refusal
pub mod Link
