-- ===== src/Core/Sending.antt =====
-- What a connection sends: `send_envelope`, the answers to a request, and the gates of streams.
use zyris_protocol.Prelude.{
  ℕ, ◌+◌, ◌*◌, ◌%◌, ◌^◌, true, List, [], ◌∷◌, ◌++◌, if◌then◌else◌, codes, length, set, insert,
}
use zyris_protocol.Proto.Error.{WireError, internal, connection_lost}
use zyris_protocol.Proto.Value.{Payload}
use zyris_protocol.Proto.Envelope.{Envelope, res, err}
use zyris_protocol.Proto.Frame
use zyris_protocol.Proto.Frame.{WireMessage, binary, encode_control, encode_stream_data}
use zyris_protocol.Proto.Attach.{Detached, Moved, detach}
use zyris_protocol.Core.Credit.{CreditState, open_gate}
use zyris_protocol.Core.State.{
  WireResult, success, failure, WriterCmd, send, Setting, Shared, CallTask, StreamEvent,
}

-- `UnboundedSender::send`, which fails when the writer is gone.
unfoldable pub put_out : Shared → WriterCmd → Shared
put_out s cmd = if s.writer_alive then record s { out = s.out ++ (cmd ∷ []) } else s

unfoldable pub tell : Shared → ℕ → StreamEvent → Shared
tell s tx event = record s { events = s.events ++ ((tx, event) ∷ []) }

-- `Arc::new` of a gate: its place.
unfoldable pub new_gate : Shared → CreditState → Shared
new_gate s g = record s { gates = s.gates ++ (g ∷ []) }

module _ (c : Setting) where
  unfoldable pub send_result : Shared → Envelope → WireResult (Unit {0})
  send_result s envelope = elim (encode_control c.codec envelope c.serialization) [
    | Frame.err e ↦ failure (internal (codes "encode: " ++ c.describe e))
    | Frame.ok msg ↦ if s.writer_alive then success tt else failure connection_lost
  ]

  -- The effect of `send_envelope`; `send_result` is its result.
  unfoldable pub send_envelope : Shared → Envelope → Shared
  unfolding put_out
  send_envelope s envelope = elim (encode_control c.codec envelope c.serialization) [
    | Frame.err e ↦ s
    | Frame.ok msg ↦ put_out s (send msg)
  ]

  -- `next_stream_id.fetch_add(2)`.
  unfoldable pub alloc_stream : ℕ → ℕ × ℕ
  alloc_stream next = (next % 2 ^ 32, (next + 2) % 2 ^ 32)

  -- A gate for each blob, before the response that names it.
  unfoldable pub open_gates : Shared → List Detached → Shared
  unfolding new_gate open_gate
  open_gates s [] = s
  open_gates s (d ∷ ds) =
      let gate = length s.gates in
      let opened = new_gate s (open_gate c.limits.initial_stream_credit) in
      open_gates (record opened { credits = insert opened.credits d.stream gate }) ds

  -- `replied.store(true)` for the call at a place.
  unfoldable pub mark_replied : Shared → ℕ → CallTask → Shared
  mark_replied s k call = record s { calls = set s.calls k (record call { replied = true }) }

  -- The body of `reply_res` behind the swap, for a payload already taken apart.
  unfoldable pub send_res : Shared → ℕ → Moved Payload ℕ → Shared
  unfolding open_gates
  send_res s id m =
      let advanced = record s { next_stream_id = m.next } in
      let sent = send_envelope (open_gates advanced m.out) (res id m.value) in
      record sent { spawned = sent.spawned ++ m.out }

  abbrev pub inline_blob_max : ℕ
  inline_blob_max = 4 * 1024 * 1024

  unfoldable pub take_blobs : Shared → Payload → Moved Payload ℕ
  unfolding alloc_stream
  take_blobs s result =
      if c.attachments_enabled
      then detach c.hash alloc_stream inline_blob_max result s.next_stream_id
      else record { value = result; next = s.next_stream_id; out = [] }

  -- The call is that at place `k`; both answers do nothing when it was replied before.
  unfoldable pub reply_res : Shared → ℕ → ℕ → CallTask → Payload → Shared
  unfolding mark_replied send_res take_blobs
  reply_res s id k call result =
      if call.replied then s else send_res (mark_replied s k call) id (take_blobs s result)

  unfoldable pub reply_err : Shared → ℕ → ℕ → CallTask → WireError → Shared
  unfolding mark_replied send_envelope
  reply_err s id k call error =
      if call.replied then s else send_envelope (mark_replied s k call) (err id error)
