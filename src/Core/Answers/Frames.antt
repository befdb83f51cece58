-- ===== src/Core/Answers/Frames.antt =====
-- Frames and the end of the connection: no frame but a request costs an answer.
use zyris_protocol.Prelude.{
  ℕ, ◌+◌, ◌≤◌, none, some, List, [], ◌∷◌, ◌++◌, arith, Option-elim, lookup, remove,
}
use zyris_protocol.Proto.Envelope.{
  Envelope, hello, hello_ack, req, res, err, note, prog, s_credit, s_end, s_err, s_cancel,
}
use zyris_protocol.Proto.Frame.{IncomingFrame, control, stream_data}
use zyris_protocol.Proto.Attach.{refs}
use zyris_protocol.Core.Credit.{
  CreditState, open_gate, Acquired, granted, refused, waiting, acquire, add,
}
use zyris_protocol.Core.Credit
use zyris_protocol.Core.State.{
  success, failure, CloseReason, close, ended, failed, InflightCall, Setting, Shared,
}
use zyris_protocol.Core.Answers.Base.{IsReadBack, AreLinked, IsFair}
use zyris_protocol.Core.Answers.Sending.{put_out-IsFair}
use zyris_protocol.Core.Answers.Serving.{abort_call-IsFair}
use zyris_protocol.Core.Answers.Requests.{handle_request-IsFair}
use zyris_protocol.Core.Answers.Receiving.{
  request_cost, resolve-IsFair, close_stream-IsFair, change_gate-IsFair,
  register_attachments-IsFair, handle_data-IsFair, handle_cancel-IsFair, handle_note-IsFair,
}
use zyris_protocol.Core.Serving.{Progress, abort_call}
use zyris_protocol.Core.Requests.{close_normal}
use zyris_protocol.Core.Receiving.{
  change_gate, handle_control, handle_frame, register_attachments, declared,
}
use zyris_protocol.Core.Ending.{
  fail_pending, fail_incoming, cancel_gates, abort_all, shutdown, reason_text, said, first_reason,
}

module _ (c : Setting) (r : IsReadBack c) (pins : List (ℕ × InflightCall)) (id n : ℕ) where
  handle_control-IsFair :
      (m : ℕ) (s : Shared) (e : Envelope) (early : List Progress)
      → IsFair c pins id m s
      → m + request_cost id (control e) ≤ n
      → IsFair c pins id n (handle_control c s e early)
  unfolding handle_control
  handle_control-IsFair m s (req j method params stream meta) early f h =
      handle_request-IsFair c r pins id m n s j method params (declared c stream) early f h
  handle_control-IsFair m s (res j result) early (l, p) h =
      resolve-IsFair c r pins id n (register_attachments s (refs result)) j (success result)
        (register_attachments-IsFair c r pins id n (refs result) s (l, omega arith))
  handle_control-IsFair m s (err j error) early (l, p) h =
      resolve-IsFair c r pins id n s j (failure error) (l, omega arith)
  handle_control-IsFair m s (Envelope.cancel j) early (l, p) h =
      handle_cancel-IsFair c r pins id n s j (l, omega arith)
  handle_control-IsFair m s (note method params) early (l, p) h =
      handle_note-IsFair c r pins id n s method params (l, omega arith)
  handle_control-IsFair m s (s_credit stream bytes) early (l, p) h =
      Option-elim (λ t. IsFair c pins id n t) (lookup s.credits stream) (l, omega arith)
        (λ gate _.
          change_gate-IsFair c r pins id n s gate (λ state. add state bytes) (l, omega arith))
  handle_control-IsFair m s (s_cancel stream) early (l, p) h =
      Option-elim (λ t. IsFair c pins id n t) (lookup s.credits stream) (l, omega arith)
        (λ gate _.
          change_gate-IsFair c r pins id n (record s { credits = remove s.credits stream }) gate
            Credit.cancel (l, omega arith))
  handle_control-IsFair m s (s_end stream trailer) early (l, p) h =
      close_stream-IsFair c r pins id n s stream ended (l, omega arith)
  handle_control-IsFair m s (s_err stream error) early (l, p) h =
      close_stream-IsFair c r pins id n s stream (failed error) (l, omega arith)
  handle_control-IsFair m s (hello x) early (l, p) h = (l, omega arith)
  handle_control-IsFair m s (hello_ack x) early (l, p) h = (l, omega arith)
  handle_control-IsFair m s (prog j x) early (l, p) h = (l, omega arith)

  pub handle_frame-IsFair :
      (m : ℕ) (s : Shared) (frame : IncomingFrame) (early : List Progress)
      → IsFair c pins id m s
      → m + request_cost id frame ≤ n
      → IsFair c pins id n (handle_frame c s frame early)
  unfolding handle_frame
  handle_frame-IsFair m s (control e) early f h = handle_control-IsFair m s e early f h
  handle_frame-IsFair m s (stream_data stream seq payload) early (l, p) h =
      handle_data-IsFair c r pins id n s stream seq payload (l, omega arith)

  cancel_gates-IsFair :
      (m : List (ℕ × ℕ)) (s : Shared) → IsFair c pins id n s → IsFair c pins id n (cancel_gates s m)
  unfolding cancel_gates
  cancel_gates-IsFair [] s f = f
  cancel_gates-IsFair ((stream, gate) ∷ m) s f =
      cancel_gates-IsFair m (change_gate s gate Credit.cancel)
        (change_gate-IsFair c r pins id n s gate Credit.cancel f)

  abort_all-IsFair :
      (m : List (ℕ × InflightCall)) (s : Shared)
      → IsFair c pins id n s
      → IsFair c pins id n (abort_all s m)
  unfolding abort_all
  abort_all-IsFair [] s f = f
  abort_all-IsFair ((j, entry) ∷ m) s f =
      abort_all-IsFair m (abort_call s entry.task) (abort_call-IsFair c pins id n s entry.task f)

  pub shutdown-IsFair :
      (s : Shared) (reason : CloseReason)
      → IsFair c pins id n s
      → IsFair c pins id n (shutdown s reason)
  unfolding shutdown AreLinked
  shutdown-IsFair s reason f =
      let final = said s.graceful reason in
      let told = record s {
        graceful = none;
        results = s.results ++ fail_pending s.pending;
        pending = [];
        events = s.events ++ fail_incoming s.incoming;
        incoming = [];
      } in
      let gated = cancel_gates told s.credits in
      let cleared = record gated { credits = []; attachments = [] } in
      let stopped = abort_all cleared s.inflight in
      let ((pinned, _), paid) =
        abort_all-IsFair s.inflight cleared (cancel_gates-IsFair s.credits told f) in
      put_out-IsFair c pins id n n
        (record stopped { inflight = []; closed = some (first_reason s.closed final) })
        (close close_normal (reason_text final)) ((pinned, tt), paid) (omega arith)
