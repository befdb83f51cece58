-- ===== src/Core/Receiving.antt =====
-- What a connection does with what arrives (`handle_frame`, `handle_control`), and how it ends
-- (`shutdown`).
use zyris_protocol.Prelude.{
  ℕ, ◌+◌, ◌%◌, ◌^◌, true, Option, none, some, List, [], ◌∷◌, ◌++◌, ◌==◌, if◌then◌else◌, Bytes, Text,
  codes, text_eq, get_elem?, set, lookup, remove, insert,
}
use zyris_protocol.Proto.Value.{Payload}
use zyris_protocol.Proto.Error.{WireError, new, canceled, stream_lagged}
use zyris_protocol.Proto.Envelope.{
  StreamDecl, Envelope, req, res, err, note, s_credit, s_end, s_err, s_cancel, method_closing,
}
use zyris_protocol.Proto.Frame.{IncomingFrame, control, stream_data}
use zyris_protocol.Proto.Attach.{AttachmentRef, refs}
use zyris_protocol.Core.Credit.{
  CreditState, open_gate, Acquired, granted, refused, waiting, acquire, add,
}
use zyris_protocol.Core.Credit
use zyris_protocol.Core.State.{
  WireResult, success, failure, StreamEvent, data_chunk, ended, failed, CallTask, Setting, Shared,
}
use zyris_protocol.Core.Sending.{tell, send_envelope, mark_replied}
use zyris_protocol.Core.Serving.{Progress, update_call}
use zyris_protocol.Core.Requests.{handle_request}

-- The caller that waits for an answer is told, if there is one.
unfoldable pub resolve : Shared → ℕ → WireResult Payload → Shared
resolve s id result = elim (lookup s.pending id) [
  | none ↦ s
  | some tx ↦ record s { pending = remove s.pending id; results = s.results ++ ((tx, result) ∷ []) }
]

-- A stream's last event.
unfoldable pub close_stream : Shared → ℕ → StreamEvent → Shared
unfolding tell
close_stream s stream event = elim (lookup s.incoming stream) [
  | none ↦ s
  | some entry ↦ tell (record s { incoming = remove s.incoming stream }) entry.tx event
]

unfoldable pub change_gate : Shared → ℕ → (CreditState → CreditState) → Shared
change_gate s gate f = elim (get_elem? s.gates gate) [
  | none ↦ s
  | some state ↦ record s { gates = set s.gates gate (f state) }
]

-- One reference of `register_attachments`, without the later sweep.
unfoldable pub register : Shared → AttachmentRef → Shared
register s reference = elim (lookup s.incoming reference.stream) [
  | some entry ↦ s
  | none ↦
      let channel = s.next_channel in
      record s {
        next_channel = channel + 1;
        incoming = insert s.incoming reference.stream (record { tx = channel; next_seq = 0 });
        attachments =
            insert s.attachments reference.stream (record { reference = reference; rx = channel });
      }
]

unfoldable pub register_attachments : Shared → List AttachmentRef → Shared
unfolding register
register_attachments s [] = s
register_attachments s (r ∷ rs) = register_attachments (register s r) rs

module _ (c : Setting) where
  -- The sweep of one stream, when the grace to claim it is over.
  unfoldable pub sweep : Shared → ℕ → Shared
  unfolding send_envelope
  sweep s stream = elim (lookup s.attachments stream) [
    | none ↦ s
    | some pending ↦
        send_envelope c
          (record s {
            attachments = remove s.attachments stream;
            incoming = remove s.incoming stream;
          })
          (s_cancel stream)
  ]

  pub lag : ℕ → ℕ → WireError
  lag expected seq =
      new stream_lagged
        (codes "chunk gap: expected " ++ (c.digits expected ++ (codes " got " ++ c.digits seq)))

  unfoldable pub handle_data : Shared → ℕ → ℕ → Bytes → Shared
  unfolding tell send_envelope lag
  handle_data s stream seq payload = elim (lookup s.incoming stream) [
    | none ↦ s
    | some entry ↦
        if seq == entry.next_seq
        then tell
            (record s {
              incoming =
                  insert s.incoming stream
                    (record entry { next_seq = (entry.next_seq + 1) % 2 ^ 32 });
            })
            entry.tx (data_chunk payload)
        else send_envelope c
            (tell (record s { incoming = remove s.incoming stream }) entry.tx
              (failed (lag entry.next_seq seq)))
            (s_cancel stream)
  ]

  unfoldable pub cancel_call : Shared → ℕ → ℕ → Option ℕ → CallTask → Shared
  unfolding mark_replied send_envelope
  cancel_call s id k stream call =
      if call.replied
      then elim stream [
        | none ↦ s
        | some st ↦ elim (lookup s.credits st) [
          | none ↦ s
          | some gate ↦
              send_envelope c (record s { credits = remove s.credits st }) (s_err st canceled)
        ]
      ]
      else send_envelope c (mark_replied c s k call) (err id canceled)

  unfoldable pub handle_cancel : Shared → ℕ → Shared
  unfolding update_call cancel_call
  handle_cancel s id = elim (lookup s.inflight id) [
    | none ↦ s
    | some entry ↦ elim (get_elem? s.calls entry.task) [
      | none ↦ s
      | some call ↦
          let stopped = record call { aborted = true; done = true } in
          cancel_call
            (record s { inflight = remove s.inflight id; calls = set s.calls entry.task stopped })
            id entry.task entry.stream stopped
    ]
  ]

  unfoldable pub handle_note : Shared → Text → Payload → Shared
  handle_note s method params =
      if text_eq method method_closing
      then elim (c.to_closing_params params) [
        | none ↦ record s { graceful = some (codes "closing") }
        | some reason ↦ record s { graceful = some reason }
      ]
      else s

  unfoldable pub declared : Option StreamDecl → Option ℕ
  declared none = none
  declared (some d) = some d.id

  unfoldable pub handle_control : Shared → Envelope → List Progress → Shared
  unfolding handle_request register_attachments resolve handle_cancel handle_note change_gate
      close_stream declared
  handle_control s (req id method params stream meta) early =
      handle_request c s id method params (declared stream) early
  handle_control s (res id result) early =
      resolve (register_attachments s (refs result)) id (success result)
  handle_control s (err id error) early = resolve s id (failure error)
  handle_control s (Envelope.cancel id) early = handle_cancel s id
  handle_control s (note method params) early = handle_note s method params
  handle_control s (s_credit stream bytes) early = elim (lookup s.credits stream) [
    | none ↦ s
    | some gate ↦ change_gate s gate (λ state. add state bytes)
  ]
  handle_control s (s_cancel stream) early = elim (lookup s.credits stream) [
    | none ↦ s
    | some gate ↦ change_gate (record s { credits = remove s.credits stream }) gate Credit.cancel
  ]
  handle_control s (s_end stream trailer) early = close_stream s stream ended
  handle_control s (s_err stream error) early = close_stream s stream (failed error)
  handle_control s _ early = s

  unfoldable pub handle_frame : Shared → IncomingFrame → List Progress → Shared
  unfolding handle_control handle_data
  handle_frame s (control envelope) early = handle_control s envelope early
  handle_frame s (stream_data stream seq payload) early = handle_data s stream seq payload
