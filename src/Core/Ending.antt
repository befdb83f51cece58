-- ===== src/Core/Ending.antt =====
-- How a connection ends (`shutdown`, with `run_reader` and `run_writer`, which call it), and what
-- the reader does with a message.
pub mod Gates
pub mod Aborted
pub mod Outcome
use zyris_protocol.Prelude.{ℕ, false, Option, none, some, List, [], ◌∷◌, ◌++◌, Text, codes}
use zyris_protocol.Proto.Value.{Payload}
use zyris_protocol.Proto.Error.{connection_lost}
use zyris_protocol.Proto.Frame.{WireMessage}
use zyris_protocol.Core.Credit
use zyris_protocol.Core.State.{
  WireResult, failure, CloseReason, graceful, close, StreamEvent, failed, IncomingStreamEntry,
  InflightCall, Setting, Shared,
}
use zyris_protocol.Core.Sending.{put_out}
use zyris_protocol.Proto.Frame
use zyris_protocol.Proto.Frame.{decode_message}
use zyris_protocol.Core.State.{transport, protocol, heartbeat}
use zyris_protocol.Core.Serving.{Progress, abort_call}
use zyris_protocol.Core.Requests.{close_normal}
use zyris_protocol.Core.Receiving.{handle_frame, change_gate}

-- `Display` of a reason.
unfoldable pub reason_text : CloseReason → Text
reason_text (graceful r) = codes "graceful close: " ++ r
reason_text (transport r) = codes "transport closed: " ++ r
reason_text (protocol r) = codes "protocol error: " ++ r
reason_text (heartbeat r) = codes "heartbeat lapsed: " ++ r

unfoldable pub fail_pending : List (ℕ × ℕ) → List (ℕ × WireResult Payload)
fail_pending [] = []
fail_pending ((id, tx) ∷ rest) = (tx, failure connection_lost) ∷ fail_pending rest

unfoldable pub fail_incoming : List (ℕ × IncomingStreamEntry) → List (ℕ × StreamEvent)
fail_incoming [] = []
fail_incoming ((stream, entry) ∷ rest) = (entry.tx, failed connection_lost) ∷ fail_incoming rest

unfoldable pub cancel_gates : Shared → List (ℕ × ℕ) → Shared
unfolding change_gate
cancel_gates s [] = s
cancel_gates s ((stream, gate) ∷ rest) = cancel_gates (change_gate s gate Credit.cancel) rest

unfoldable pub abort_all : Shared → List (ℕ × InflightCall) → Shared
unfolding abort_call
abort_all s [] = s
abort_all s ((id, entry) ∷ rest) = abort_all (abort_call s entry.task) rest

-- A peer that said that it closes gives the reason.
abbrev pub said : Option Text → CloseReason → CloseReason
said none reason = reason
said (some msg) reason = graceful msg

-- The first reason stays.
abbrev pub first_reason : Option CloseReason → CloseReason → CloseReason
first_reason none reason = reason
first_reason (some old) reason = old

unfoldable pub shutdown : Shared → CloseReason → Shared
unfolding fail_pending fail_incoming cancel_gates abort_all put_out reason_text
shutdown s reason =
    let final = said s.graceful reason in
    let told = record s {
      graceful = none;
      results = s.results ++ fail_pending s.pending;
      pending = [];
      events = s.events ++ fail_incoming s.incoming;
      incoming = [];
    } in
    let gated = cancel_gates told s.credits in
    let cleared = record gated { credits = []; attachments = [] } in
    let stopped = abort_all cleared s.inflight in
    put_out (record stopped { inflight = []; closed = some (first_reason s.closed final) })
      (close close_normal (reason_text final))

-- The sink refuses a message of the writer, and says why; the writer ends.
unfoldable pub write_failed : Shared → Text → Shared
unfolding shutdown
write_failed s message = record (shutdown s (transport (codes "write failed: " ++ message))) {
  writer_alive = false;
}

-- One message in `run_reader`: a frame is handled, anything else ends the connection.
unfoldable pub read_message : Setting → Shared → WireMessage → List Progress → Shared
unfolding decode_message handle_frame shutdown
read_message c s msg early = elim (decode_message c.codec msg) [
  | Frame.err e ↦ shutdown s (protocol (c.describe e))
  | Frame.ok frame ↦ handle_frame c s frame early
]

-- The other ends of the reader's loop, and the watchdog's.
unfoldable pub read_closed : Shared → Shared
unfolding shutdown
read_closed s = shutdown s (transport (codes "connection closed"))

unfoldable pub read_failed : Shared → Text → Shared
unfolding shutdown
read_failed s message = shutdown s (transport message)

unfoldable pub lapsed : Shared → Shared
unfolding shutdown
lapsed s = shutdown s (heartbeat (codes "no frame from peer within the negotiated timeout"))
