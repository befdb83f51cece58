-- ===== src/Terminal.antt =====
-- crates/zyris-capkit/src/terminal: the output of a terminal session.
pub mod Buffer
pub mod Exec
pub mod Poll
pub mod Sanitize
