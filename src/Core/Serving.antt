-- ===== src/Core/Serving.antt =====
-- How a connection serves requests: the task of a call, and what ends it early.
use zyris_protocol.Prelude.{
  ℕ, ◌+◌, ◌%◌, ◌^◌, true, Option, none, some, List, [], ◌∷◌, if◌then◌else◌, Bytes, codes, length,
  get_elem?, set, remove, insert,
}
use zyris_protocol.Proto.Value.{Payload, default}
use zyris_protocol.Proto.Error.{WireError, invalid_params}
use zyris_protocol.Proto.Envelope.{s_end, s_err}
use zyris_protocol.Proto.Frame.{binary, encode_stream_data}
use zyris_protocol.Core.Credit.{CreditState, open_gate, granted, refused, waiting, acquire}
use zyris_protocol.Core.State.{
  send, Stage, dispatching, finished, streaming, CallTask, Setting, Shared,
}
use zyris_protocol.Core.Sending.{put_out, new_gate, send_envelope, reply_res, reply_err}

-- What the code awaited by a call's task gave it: the dispatch's outcome, or the stream's next item.
pub data Progress : Type 0 where
  response stream_head : Payload → Progress
  dispatch_failed item_failed : WireError → Progress
  stream_item : Bytes → Progress
  items_end : Progress

-- A write to a call's shared cells.
unfoldable pub update_call : Shared → ℕ → (CallTask → CallTask) → Shared
update_call s k f = elim (get_elem? s.calls k) [
  | none ↦ s
  | some call ↦ record s { calls = set s.calls k (f call) }
]

-- The end of the task.
unfoldable pub finish : Shared → ℕ → ℕ → Shared
unfolding update_call
finish s k id =
    let over = update_call s k (λ call. record call { done = true; stage = finished }) in
    record over { inflight = remove over.inflight id }

unfoldable pub end_stream : Shared → ℕ → ℕ → ℕ → Shared
unfolding finish
end_stream s k id stream = finish (record s { credits = remove s.credits stream }) k id

-- `abort.abort()`.
unfoldable pub abort_call : Shared → ℕ → Shared
unfolding update_call
abort_call s k = update_call s k (λ call. record call { aborted = true })

module _ (c : Setting) where
  unfoldable pub start_stream : Shared → ℕ → CallTask → ℕ → Payload → Shared
  unfolding new_gate open_gate reply_res update_call
  start_stream s k call stream head =
      let gate = length s.gates in
      let opened = new_gate s (open_gate c.limits.initial_stream_credit) in
      let known = record opened { credits = insert opened.credits stream gate } in
      update_call (reply_res c known call.id k call head) k
        (λ now. record now { stage = streaming stream gate 0 })

  unfoldable pub send_item : Shared → ℕ → CallTask → ℕ → ℕ → ℕ → Bytes → CreditState → Shared
  unfolding put_out end_stream update_call
  send_item s k call stream gate seq bytes left =
      let paid = record s { gates = set s.gates gate left } in
      if s.writer_alive
      then update_call (put_out paid (send (binary (encode_stream_data stream seq bytes)))) k
          (λ now. record now { stage = streaming stream gate ((seq + 1) % 2 ^ 32) })
      else end_stream paid k call.id stream

  -- One item, once there is credit for all of it; `none` while there is not.
  unfoldable pub offer_item : Shared → ℕ → CallTask → ℕ → ℕ → ℕ → Bytes → Option Shared
  unfolding acquire send_item end_stream
  offer_item s k call stream gate seq bytes = elim (get_elem? s.gates gate) [
    | none ↦ none
    | some state ↦ elim (acquire state (length bytes)) [
      | waiting ↦ none
      | refused ↦ some (end_stream s k call.id stream)
      | granted left ↦ some (send_item s k call stream gate seq bytes left)
    ]
  ]

  unfoldable pub call_step : Shared → ℕ → CallTask → Stage → Progress → Option Shared
  unfolding finish reply_res reply_err start_stream offer_item end_stream
  call_step s k call dispatching (response result) =
      some (finish (reply_res c s call.id k call result) k call.id)
  call_step s k call dispatching (dispatch_failed error) =
      some (finish (reply_err c s call.id k call error) k call.id)
  call_step s k call dispatching (stream_head head) = elim call.stream_id [
    | none ↦
        let error = invalid_params (codes "streaming tool requires a stream declaration") in
        some (finish (reply_err c s call.id k call error) k call.id)
    | some stream ↦ some (start_stream s k call stream head)
  ]
  call_step s k call (streaming stream gate seq) (stream_item bytes) =
      offer_item s k call stream gate seq bytes
  call_step s k call (streaming stream gate seq) (item_failed error) =
      some (end_stream (send_envelope c s (s_err stream error)) k call.id stream)
  call_step s k call (streaming stream gate seq) items_end =
      some (end_stream (send_envelope c s (s_end stream default)) k call.id stream)
  call_step s k call _ _ = none

  -- One step of the task at a place, if what came is what it waits for. A task that was aborted may
  -- still make the step that it is in, so any task may step.
  unfoldable pub task_step : Shared → ℕ → Progress → Option Shared
  unfolding call_step
  task_step s k p = elim (get_elem? s.calls k) [
    | none ↦ none
    | some call ↦ call_step s k call call.stage p
  ]

  -- The steps that a task makes before `handle_request` looks at `done`.
  unfoldable pub run_early : Shared → ℕ → List Progress → Shared
  unfolding task_step
  run_early s k [] = s
  run_early s k (p ∷ ps) = elim (task_step s k p) [ none ↦ s | some next ↦ run_early next k ps ]
