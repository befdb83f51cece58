-- ===== src/Tests.antt =====
-- Runs of the models on concrete inputs, and the theorems at inputs that meet their hypotheses.
mod Frames
mod Sessions
mod Blobs
mod Links
mod Handshakes
mod Peers
mod Reconnects
mod Offers
mod Names
mod Transfers
mod Inboxes
mod Polls
