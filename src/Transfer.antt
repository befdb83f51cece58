-- ===== src/Transfer.antt =====
-- crates/zyris-capkit/src/transfer: files that peers send each other.
pub mod Name
pub mod Part
pub mod Disk
pub mod Undo
pub mod Inbox
pub mod Offer
pub mod Receive
pub mod Pull
