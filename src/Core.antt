-- ===== src/Core.antt =====
-- crates/zyris-core/src/connection.rs: one live connection.
pub mod Credit
pub mod State
pub mod Start
pub mod Sending
pub mod Serving
pub mod Requests
pub mod Receiving
pub mod Ending
pub mod Client
pub mod Answers
pub mod Order
pub mod CloseReason
pub mod Handshake
pub mod Blobs
pub mod Capabilities
