-- ===== src/Core/Answers/Receiving.antt =====
-- What arrives, and the end of the connection: no frame but a request costs an answer.
use zyris_protocol.Prelude.{
  ℕ, zero, suc, ◌≡◌, refl, ◌∙◌, true, Option, some, List, [], ◌∷◌, arith, ◌==◌, if◌then◌else◌,
  Bytes, Text, text_eq, get_elem?, set, if-elim, if-cases, Option-elim, lookup, remove,
}
use zyris_protocol.Proto.Value.{Payload}
use zyris_protocol.Proto.Error.{canceled}
use zyris_protocol.Proto.Envelope.{req, err, s_err, s_cancel, method_closing}
use zyris_protocol.Proto.Frame.{IncomingFrame, control}
use zyris_protocol.Proto.Attach.{AttachmentRef}
use zyris_protocol.Core.Credit.{CreditState}
use zyris_protocol.Core.State.{WireResult, StreamEvent, InflightCall, CallTask, Setting, Shared}
use zyris_protocol.Core.Sending.{tell, mark_replied}
use zyris_protocol.Core.Answers.Base.{
  IsReadBack, IsFair, open_calls-set, id_at-set, id_at-get, Keeps, Keeps-AreLinked,
  remove-AreLinked, lookup-AreLinked,
}
use zyris_protocol.Core.Answers.Sending.{send-IsFair, mark_replied-IsFair}
use zyris_protocol.Core.Receiving.{
  resolve, close_stream, change_gate, register, register_attachments, sweep, handle_data,
  cancel_call, handle_cancel, handle_note,
}

-- What a frame may cost: one answer, if it is a request.
abbrev pub request_cost : ℕ → IncomingFrame → ℕ
request_cost id (control (req j method params stream meta)) = if j == id then 1 else 0
request_cost id _ = 0

get_elem?-set_here :
    (calls : List CallTask) (k : ℕ) (old later : CallTask)
    → get_elem? calls k ≡ some old
    → get_elem? (set calls k later) k ≡ some later
get_elem?-set_here [] k old later h = cc
get_elem?-set_here (x ∷ calls) zero old later h = refl
get_elem?-set_here (x ∷ calls) (suc k) old later h = get_elem?-set_here calls k old later h

module _ (c : Setting) (r : IsReadBack c) (pins : List (ℕ × InflightCall)) (id n : ℕ) where
  pub resolve-IsFair :
      (s : Shared) (j : ℕ) (result : WireResult Payload)
      → IsFair c pins id n s
      → IsFair c pins id n (resolve s j result)
  unfolding resolve
  resolve-IsFair s j result f =
      Option-elim (λ t. IsFair c pins id n t) (lookup s.pending j) f (λ tx _. f)

  pub close_stream-IsFair :
      (s : Shared) (stream : ℕ) (event : StreamEvent)
      → IsFair c pins id n s
      → IsFair c pins id n (close_stream s stream event)
  unfolding close_stream tell
  close_stream-IsFair s stream event f =
      Option-elim (λ t. IsFair c pins id n t) (lookup s.incoming stream) f (λ entry _. f)

  pub change_gate-IsFair :
      (s : Shared) (gate : ℕ) (g : CreditState → CreditState)
      → IsFair c pins id n s
      → IsFair c pins id n (change_gate s gate g)
  unfolding change_gate
  change_gate-IsFair s gate g f =
      Option-elim (λ t. IsFair c pins id n t) (get_elem? s.gates gate) f (λ state _. f)

  pub register_attachments-IsFair :
      (rs : List AttachmentRef) (s : Shared)
      → IsFair c pins id n s
      → IsFair c pins id n (register_attachments s rs)
  unfolding register_attachments register
  register_attachments-IsFair [] s f = f
  register_attachments-IsFair (a ∷ rs) s f =
      register_attachments-IsFair rs (register s a)
        (Option-elim (λ t. IsFair c pins id n t) (lookup s.incoming a.stream) f (λ entry _. f))

  pub sweep-IsFair :
      (s : Shared) (stream : ℕ) → IsFair c pins id n s → IsFair c pins id n (sweep c s stream)
  unfolding sweep
  sweep-IsFair s stream f =
      Option-elim (λ t. IsFair c pins id n t) (lookup s.attachments stream) f
        (λ pending _.
          send-IsFair c r pins id n n
            (record s {
              attachments = remove s.attachments stream;
              incoming = remove s.incoming stream;
            })
            (s_cancel stream) f (omega arith))

  pub handle_data-IsFair :
      (s : Shared) (stream seq : ℕ) (payload : Bytes)
      → IsFair c pins id n s
      → IsFair c pins id n (handle_data c s stream seq payload)
  unfolding handle_data tell
  handle_data-IsFair s stream seq payload f =
      Option-elim (λ t. IsFair c pins id n t) (lookup s.incoming stream) f
        (λ entry _.
          if-elim (λ t. IsFair c pins id n t) (seq == entry.next_seq) f
            (send-IsFair c r pins id n n _ (s_cancel stream) f (omega arith)))

  cancel_call-IsFair :
      (s : Shared) (j k : ℕ) (stream : Option ℕ) (call : CallTask)
      → get_elem? s.calls k ≡ some call
      → call.id ≡ j
      → IsFair c pins id n s
      → IsFair c pins id n (cancel_call c s j k stream call)
  unfolding cancel_call
  cancel_call-IsFair s j k stream call here same f =
      if-cases (λ t. IsFair c pins id n t) call.replied
        (λ _.
          Option-elim (λ t. IsFair c pins id n t) stream f
            (λ st _.
              Option-elim (λ t. IsFair c pins id n t) (lookup s.credits st) f
                (λ gate _.
                  send-IsFair c r pins id n n (record s { credits = remove s.credits st })
                    (s_err st canceled) f (omega arith))))
        (λ fresh.
          let (m, marked, cost) = mark_replied-IsFair c r pins id n s j k call here same fresh f in
          send-IsFair c r pins id m n (mark_replied c s k call) (err j canceled) marked cost)

  pub handle_cancel-IsFair :
      (s : Shared) (j : ℕ) → IsFair c pins id n s → IsFair c pins id n (handle_cancel c s j)
  unfolding handle_cancel
  handle_cancel-IsFair s j ((pinned, linked), paid) =
      Option-elim (λ t. IsFair c pins id n t) (lookup s.inflight j) ((pinned, linked), paid)
        (λ entry found.
          Option-elim (λ t. IsFair c pins id n t) (get_elem? s.calls entry.task)
            ((pinned, linked), paid)
            (λ call here.
              let stopped : CallTask = record call { aborted = true; done = true } in
              let calls = set s.calls entry.task stopped in
              let keeps : Keeps s.calls calls =
                λ at i e. id_at-set s.calls entry.task at call stopped here refl ∙ e in
              cancel_call-IsFair (record s { inflight = remove s.inflight j; calls = calls }) j
                entry.task entry.stream stopped
                (get_elem?-set_here s.calls entry.task call stopped here)
                (id_at-get s.calls entry.task j call here
                  (lookup-AreLinked s.calls s.inflight j entry linked found))
                (
                  (
                    Keeps-AreLinked s.calls calls pins keeps pinned,
                    Keeps-AreLinked s.calls calls (remove s.inflight j) keeps
                        (remove-AreLinked s.calls s.inflight j linked),
                  ),
                  omega (arith, open_calls-set id s.calls entry.task call stopped here),
                )))

  pub handle_note-IsFair :
      (s : Shared) (method : Text) (params : Payload)
      → IsFair c pins id n s
      → IsFair c pins id n (handle_note c s method params)
  unfolding handle_note
  handle_note-IsFair s method params f =
      if-elim (λ t. IsFair c pins id n t) (text_eq method method_closing)
        (Option-elim (λ t. IsFair c pins id n t) (c.to_closing_params params) f (λ reason _. f)) f
