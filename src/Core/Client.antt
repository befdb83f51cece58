-- ===== src/Core/Client.antt =====
-- What the owner of a connection asks of it: requests, streams and their ends, notes and the close.
use zyris_protocol.Prelude.{
  ℕ, ◌+◌, ◌%◌, ◌^◌, Option, some, Bytes, Text, length, lookup, remove, insert,
}
use zyris_protocol.Proto.Value.{Payload, default}
use zyris_protocol.Proto.Envelope.{StreamDecl, req, note, s_credit, s_cancel, method_closing}
use zyris_protocol.Core.State.{
  WireResult, success, failure, close, PendingAttachment, Setting, Shared,
}
use zyris_protocol.Core.Sending.{put_out, send_envelope}
use zyris_protocol.Core.Sending.{send_result}
use zyris_protocol.Core.Requests.{close_normal}

module _ (c : Setting) where
  -- `request` up to its wait: the caller waits on the channel `next_channel` of the state before,
  -- if the request went out; else the error is the result.
  unfoldable pub request :
      Shared → Text → Payload → Option StreamDecl → Payload → Shared × WireResult ℕ
  unfolding send_envelope send_result
  request s method params stream meta =
      let id = s.next_req_id in
      let tx = s.next_channel in
      let waiting_for = record s {
        next_req_id = (id + 1) % 2 ^ 64;
        next_channel = tx + 1;
        pending = insert s.pending id tx;
      } in
      let envelope = req id method params stream meta in
      elim (send_result c waiting_for envelope) [
        | failure e ↦ (record waiting_for { pending = remove waiting_for.pending id }, failure e)
        | success _ ↦ (send_envelope c waiting_for envelope, success tx)
      ]

  -- The receiving side that `call_streaming_raw` opens before it makes its request.
  unfoldable pub open_stream : Shared → Shared
  open_stream s = record s {
    next_stream_id = (s.next_stream_id + 2) % 2 ^ 32;
    next_channel = s.next_channel + 1;
    incoming = insert s.incoming s.next_stream_id (record { tx = s.next_channel; next_seq = 0 });
  }

  unfoldable pub call_streaming : Shared → Text → Payload → Shared × WireResult ℕ
  unfolding request open_stream
  call_streaming s method params =
      let stream = s.next_stream_id in
      let (next, outcome) =
        request (open_stream s) method params (some (record { id = stream })) default in
      elim outcome [
        | failure e ↦ (record next { incoming = remove next.incoming stream }, failure e)
        | success tx ↦ (next, success tx)
      ]

  -- `RawIncomingStream::drop`, of a stream that has not finished.
  unfoldable pub drop_stream : Shared → ℕ → Shared
  unfolding send_envelope
  drop_stream s stream =
      send_envelope c (record s { incoming = remove s.incoming stream }) (s_cancel stream)

  -- The credit that `poll_next` returns for a chunk that it hands on.
  unfoldable pub take_chunk : Shared → ℕ → Bytes → Shared
  unfolding send_envelope
  take_chunk s stream bytes = send_envelope c s (s_credit stream (length bytes))

  unfoldable pub notify : Shared → Text → Payload → Shared
  unfolding send_envelope
  notify s method params = send_envelope c s (note method params)

  -- `params` is what serde makes of the reason.
  unfoldable pub close_connection : Shared → Payload → Text → Shared
  unfolding send_envelope put_out
  close_connection s params reason =
      put_out (send_envelope c s (note method_closing params)) (close close_normal reason)

-- `Connection::attachment`.
unfoldable pub attachment : Shared → ℕ → Shared × Option PendingAttachment
attachment s stream =
    (record s { attachments = remove s.attachments stream }, lookup s.attachments stream)
