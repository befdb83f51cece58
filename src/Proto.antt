-- ===== src/Proto.antt =====
-- crates/zyris-proto: the wire types, with no I/O.
pub mod Value
pub mod Error
pub mod Capability
pub mod Envelope
pub mod Frame
pub mod Attach
