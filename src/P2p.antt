-- ===== src/P2p.antt =====
-- crates/zyris-p2p: nodes that connect to each other with no server between them.
pub mod Frame
pub mod Tofu
