-- ===== src/Core/Answers/Once.antt =====
-- At most one answer for each request, over the whole life of a connection.
use zyris_protocol.Prelude.{
  ℕ, ◌+◌, ◌%◌, ◌^◌, ◌≤◌, Option, none, some, List, [], ◌∷◌, ◌++◌, arith, Text, codes, length,
  remove, insert,
}
use zyris_protocol.Proto.Value.{Payload, default}
use zyris_protocol.Proto.Envelope.{StreamDecl, req, note, s_credit, s_cancel, method_closing}
use zyris_protocol.Proto.Frame.{
  WireMessage, binary, IncomingFrame, control, stream_data, encode_stream_data,
}
use zyris_protocol.Core.State.{WireResult, success, failure, close, Setting, Shared}
use zyris_protocol.Core.Sending.{send_envelope}
use zyris_protocol.Core.Answers.Base.{answers, open_calls, IsReadBack, AreLinked, IsFair}
use zyris_protocol.Core.Answers.Sending.{put_out-IsFair, send-IsFair}
use zyris_protocol.Core.Answers.Serving.{task_step-IsFair, IsFairIf}
use zyris_protocol.Core.Answers.Requests.{revoke_inflight-IsFair}
use zyris_protocol.Core.Answers.Receiving.{request_cost, sweep-IsFair}
use zyris_protocol.Proto.Frame
use zyris_protocol.Proto.Frame.{decode_message, CodecError}
use zyris_protocol.Core.Serving.{Progress, task_step}
use zyris_protocol.Core.Requests.{close_normal}
use zyris_protocol.Core.Sending.{send_result}
use zyris_protocol.Core.Start.{Side, start}
use zyris_protocol.Core.State.{protocol, transport, heartbeat}
use zyris_protocol.Core.Receiving.{handle_frame}
use zyris_protocol.Core.Ending.{
  shutdown, read_message, read_closed, read_failed, lapsed, write_failed,
}
use zyris_protocol.Core.Client.{
  request, open_stream, call_streaming, drop_stream, take_chunk, notify, close_connection,
  attachment,
}
use zyris_protocol.Core.Answers.Frames.{handle_frame-IsFair, shutdown-IsFair}
use zyris_protocol.Core.Answers.{
  Event, arrived, progressed, swept, revoked, served, requested, opened, dropped, taken, noted,
  closing, claimed, reader_closed, watchdog_lapsed, writer_ended, reader_failed, writer_failed,
  or_stay, step, run,
}

-- The requests of an id that a message brings, and those of a whole life.
abbrev pub message_cost : ℕ → Frame.Result IncomingFrame → ℕ
message_cost id (Frame.ok frame) = request_cost id frame
message_cost id (Frame.err e) = 0

abbrev pub event_cost : Setting → ℕ → Event → ℕ
event_cost c id (arrived msg early) = message_cost id (decode_message c.codec msg)
event_cost c id _ = 0

unfoldable pub requests : Setting → ℕ → List Event → ℕ
requests c id [] = 0
requests c id (e ∷ es) = event_cost c id e + requests c id es

module _ (c : Setting) (r : IsReadBack c) (id : ℕ) where
  read_message-IsFair :
      (m n : ℕ) (s : Shared) (early : List Progress) (o : Frame.Result IncomingFrame)
      → IsFair c [] id m s
      → m + message_cost id o ≤ n
      → IsFair c [] id n (elim o [
        | Frame.err e ↦ shutdown s (protocol (c.describe e))
        | Frame.ok frame ↦ handle_frame c s frame early
      ])
  read_message-IsFair m n s early (Frame.err e) (l, p) h =
      shutdown-IsFair c r [] id n s (protocol (c.describe e)) (l, omega arith)
  read_message-IsFair m n s early (Frame.ok frame) f h =
      handle_frame-IsFair c r [] id n m s frame early f h

  request-IsFair :
      (n : ℕ) (s : Shared) (method : Text) (params : Payload) (stream : Option StreamDecl)
      (meta : Payload)
      → IsFair c [] id n s
      → IsFair c [] id n (request c s method params stream meta).0
  unfolding request
  request-IsFair n s method params stream meta f =
      let waiting_for = record s {
        next_req_id = (s.next_req_id + 1) % 2 ^ 64;
        next_channel = s.next_channel + 1;
        pending = insert s.pending s.next_req_id s.next_channel;
      } in
      let envelope = req s.next_req_id method params stream meta in
      elim (send_result c waiting_for envelope)
        as (λ o.
          IsFair c [] id n
            (elim o as (λ _. Shared × WireResult ℕ) [
              | failure e ↦ (
                record waiting_for { pending = remove waiting_for.pending s.next_req_id },
                failure e,
              )
              | success _ ↦ (send_envelope c waiting_for envelope, success s.next_channel)
            ]).0) [
              | failure e ↦ f
              | success _ ↦ send-IsFair c r [] id n n waiting_for envelope f (omega arith)
            ]

  call_streaming-IsFair :
      (n : ℕ) (s : Shared) (method : Text) (params : Payload)
      → IsFair c [] id n s
      → IsFair c [] id n (call_streaming c s method params).0
  unfolding call_streaming open_stream
  call_streaming-IsFair n s method params f =
      let made =
        request c (open_stream c s) method params (some (record { id = s.next_stream_id }))
          default in
      let fair =
        request-IsFair n (open_stream c s) method params (some (record { id = s.next_stream_id }))
          default f in
      elim made.1
        as (λ o.
          IsFair c [] id n
            (elim o as (λ _. Shared × WireResult ℕ) [
              | failure e ↦ (
                record (made.0) { incoming = remove made.0.incoming s.next_stream_id },
                failure e,
              )
              | success tx ↦ (made.0, success tx)
            ]).0) [ failure e ↦ fair | success tx ↦ fair ]

  or_stay-IsFair :
      (n : ℕ) (s : Shared) (o : Option Shared)
      → IsFair c [] id n s
      → IsFairIf c r [] id n o
      → IsFair c [] id n (or_stay s o)
  or_stay-IsFair n s none f g = f
  or_stay-IsFair n s (some next) f g = g

  step-IsFair :
      (m n : ℕ) (s : Shared) (e : Event)
      → IsFair c [] id m s
      → m + event_cost c id e ≤ n
      → IsFair c [] id n (step c s e)
  unfolding step read_message read_closed read_failed lapsed write_failed drop_stream take_chunk
      notify close_connection attachment
  step-IsFair m n s (arrived msg early) f h =
      read_message-IsFair m n s early (decode_message c.codec msg) f h
  step-IsFair m n s (progressed k p) (l, q) h =
      or_stay-IsFair n s (task_step c s k p) (l, omega arith)
        (task_step-IsFair c r [] id n s k p (l, omega arith))
  step-IsFair m n s (swept stream) (l, q) h = sweep-IsFair c r [] id n s stream (l, omega arith)
  step-IsFair m n s (revoked capability caller) (l, q) h =
      revoke_inflight-IsFair c r id n s capability caller (l, omega arith)
  step-IsFair m n s (served names) (l, q) h = (l, omega arith)
  step-IsFair m n s (requested method params meta) (l, q) h =
      request-IsFair n s method params none meta (l, omega arith)
  step-IsFair m n s (opened method params) (l, q) h =
      call_streaming-IsFair n s method params (l, omega arith)
  step-IsFair m n s (dropped stream) (l, q) h =
      send-IsFair c r [] id n n (record s { incoming = remove s.incoming stream }) (s_cancel stream)
        (l, omega arith) (omega arith)
  step-IsFair m n s (taken stream bytes) (l, q) h =
      send-IsFair c r [] id n n s (s_credit stream (length bytes)) (l, omega arith) (omega arith)
  step-IsFair m n s (noted method params) (l, q) h =
      send-IsFair c r [] id n n s (note method params) (l, omega arith) (omega arith)
  step-IsFair m n s (closing params reason) (l, q) h =
      put_out-IsFair c [] id n n (send_envelope c s (note method_closing params))
        (close close_normal reason)
        (send-IsFair c r [] id n n s (note method_closing params) (l, omega arith) (omega arith))
        (omega arith)
  step-IsFair m n s (claimed stream) (l, q) h = (l, omega arith)
  step-IsFair m n s reader_closed (l, q) h =
      shutdown-IsFair c r [] id n s (transport (codes "connection closed")) (l, omega arith)
  step-IsFair m n s watchdog_lapsed (l, q) h =
      shutdown-IsFair c r [] id n s
        (heartbeat (codes "no frame from peer within the negotiated timeout")) (l, omega arith)
  step-IsFair m n s writer_ended (l, q) h = (l, omega arith)
  step-IsFair m n s (reader_failed message) (l, q) h =
      shutdown-IsFair c r [] id n s (transport message) (l, omega arith)
  step-IsFair m n s (writer_failed message) (l, q) h =
      shutdown-IsFair c r [] id n s (transport (codes "write failed: " ++ message)) (l, omega arith)

  run-IsFair :
      (n : ℕ) (s : Shared) (es : List Event)
      → IsFair c [] id n s
      → IsFair c [] id (n + requests c id es) (run c s es)
  unfolding run requests
  run-IsFair n s [] (l, q) = (l, omega arith)
  run-IsFair n s (e ∷ es) f =
      let (l, q) =
        run-IsFair (n + event_cost c id e) (step c s e) es
          (step-IsFair n (n + event_cost c id e) s e f (omega arith)) in
      (l, omega arith)

-- Whatever happens on a connection, in whatever order, the answers that it has sent under an id are
-- at most the requests that came under this id, if the peer reads each message as it was written.
pub answers-run :
    (c : Setting) (id : ℕ) (side : Side) (caps : List Text) (es : List Event)
    → IsReadBack c
    → answers c id (run c (start side caps) es).out ≤ requests c id es
unfolding answers open_calls AreLinked
answers-run c id side caps es r =
    let (l, q) = run-IsFair c r id 0 (start side caps) es ((tt, tt), omega arith) in omega arith
