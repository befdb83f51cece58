-- ===== src/Lib.antt =====
-- zyris-protocol: nodes that serve capabilities to each other over one websocket. A message is a
-- control envelope or a chunk of a stream (crates/zyris-proto). A connection (crates/zyris-core)
-- reads messages in one task and writes them in another, runs a task for each request, and moves a
-- large blob of an answer onto a stream of its own. A node keeps a link to its server, which dials
-- again when a connection is lost, and may change what it offers while it is connected. The
-- capabilities stand behind it (crates/zyris-capkit): the one for terminals keeps the output of its
-- sessions in a ring, the one for transfers receives files from peers. Peers reach each other
-- without a server over a byte stream, and know each other by keys that they pinned
-- (crates/zyris-p2p).
--
-- Prelude: shared names, lemmas on lists and options, and maps as association lists with one entry
--   for a key (Maps from numbers, Named from texts).
-- Proto: crates/zyris-proto/src.
--   Value: the dynamic value of a payload (payload.rs). Error: error.rs. Envelope: envelope.rs, with
--   NodeAddress::path and parse. Capability: capability.rs, with method_name and split_method.
--   Frame: frame.rs. Attach: attach.rs, where a walk over a `&mut` value returns the new value.
-- Core: crates/zyris-core/src/connection.rs.
--   State: `Shared`. The fields that a handshake settles, and the libraries that the code calls, are
--   a `Setting`; a cell that tasks share by `Arc` is a place in a list (`gates`, `calls`); what went
--   out on a channel is a log (`events`, `results`, `out`). Start: the state that `establish` makes.
--   Credit: `CreditGate`. Sending: send_envelope, reply_res, reply_err. Serving: the task that
--   handle_request spawns, as a step for each thing it awaits. Requests: handle_request,
--   handle_announce, revoke_inflight. Receiving: handle_frame, handle_control, register_attachments.
--   Ending: shutdown, run_reader, run_writer, the watchdog. Client: request, call_streaming_raw,
--   notify, close, and an incoming stream. Blobs: send_attachment, collect_attachment and hydrate.
--   Capabilities: capabilities.rs, which acts on a list of connections. Handshake: what `establish`
--   sends and settles. CloseReason: truncate_close_reason. Answers also has the events of a
--   connection's life and `run`, which takes them in any order; it, Order and the children of Blobs,
--   Capabilities, Credit, Ending and Requests hold proofs.
-- Node: crates/zyris-core/src/node.rs. Refusal: `Ending`, and `ConnectError` of error.rs. Link: the
--   task of `maintain` as a machine that waits at three places, with what the caller and the network
--   do as its events.
-- Enroll: crates/zyris-core/src/enroll. Poll: the polling state machine of protocol.rs.
-- P2p: crates/zyris-p2p/src. Frame: frame.rs, and read_one of transport.rs. Tofu: tofu.rs, the writers
--   of the pin file as machines that share it, with a step for each wait between lock and rename.
-- Transfer: crates/zyris-capkit/src/transfer. Name: name.rs. Inbox: inbox.rs, over what the file
--   system answers. Disk: the names and files that the rest works on. Undo: undo.rs. Of peer.rs: Part
--   is part_path, Offer the data of push_offer, Receive a call of it as a machine with a stage for
--   each wait, Receive/Calls any number of calls that share a disk and the transfers in flight, and
--   Pull the sending side. claim_slot tries 64 times, as the source does; the loop of pull takes the
--   length of the bytes as its fuel, as every round moves on in them.
-- Input: crates/zyris-capkit/src/input. Chord: chord.rs, with the names of a build for Linux.
-- Terminal: crates/zyris-capkit/src/terminal.
--   Buffer: buffer.rs. Sanitize: sanitize.rs; its loop takes fuel, one more than the length of
--   the text, as every round moves on in the text. Of mod.rs: Exec is what exec checks and what is
--   kept of an output, Poll is poll, over what its attempts give and how long they take; its loop
--   takes one more than the milliseconds of its window as its fuel, as every round but the last
--   takes time.
-- Tests: runs on concrete inputs.
--
-- Integers: numbers are natural numbers, and an addition that wraps in a release build has its
-- `% 2 ^ w`. Handlers are steps that do not interleave with each other; a task may step after it was
-- aborted, as an abort takes effect at the next wait. A step of a task that waits for credit is not
-- enabled until there is credit. The steps that a task makes before handle_request has entered it in
-- `inflight` are an argument of that handler.
--
-- Parameters: serde's codecs, the text of numbers and of codec errors, SHA-256 (in `Codec` and
-- `Setting`), what is UTF-8 and what is white space. Not modelled: sockets, TLS, timers, processes,
-- the HTTP of an enrollment, the sessions of pseudo terminals, the sender of a transfer, the
-- rest of the capabilities' own work, and macros; of the jitter of a link, the rounding of floating
-- point; of the pin file, the person who is asked in `authorize`, and a file that is not a ledger.
pub mod Prelude
pub mod Proto
pub mod Core
pub mod Enroll
pub mod Input
pub mod Node
pub mod P2p
pub mod Transfer
pub mod Terminal
pub mod Tests
