-- ===== src/Input.antt =====
-- crates/zyris-capkit/src/input: keys and pointers.
pub mod Chord
