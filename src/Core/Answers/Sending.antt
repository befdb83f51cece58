-- ===== src/Core/Answers/Sending.antt =====
-- What sending does to what a connection owes.
use zyris_protocol.Prelude.{
  ℕ, ◌+◌, ◌≤◌, ◌≡◌, refl, sym, ◌∙◌, subst, inl, inr, true, false, some, List, [], ◌∷◌, arith, ◌==◌,
  if◌then◌else◌, Bool-cases, Bytes, length, get_elem?, set, insert,
}
use zyris_protocol.Proto.Value.{Payload}
use zyris_protocol.Proto.Error.{WireError}
use zyris_protocol.Proto.Envelope.{Envelope, res, err}
use zyris_protocol.Proto.Frame.{
  WireMessage, binary, IncomingFrame, control, stream_data, encode_stream_data,
}
use zyris_protocol.Proto.Attach.{Detached, Moved}
use zyris_protocol.Core.Credit.{open_gate}
use zyris_protocol.Core.State.{WriterCmd, send, InflightCall, CallTask, Setting, Shared}
use zyris_protocol.Core.Sending.{
  put_out, new_gate, send_envelope, open_gates, mark_replied, send_res, take_blobs, reply_res,
  reply_err,
}
use zyris_protocol.Core.Answers.Base.{
  answer, cmd_answer, answers, open_calls, IsReadBack, AreLinked, IsFair, answers-snoc,
  open_calls-set, id_at-set, Keeps, Keeps-AreLinked,
}
use zyris_protocol.Proto.Frame
use zyris_protocol.Proto.Frame.{encode_control, decode_message, decode_binary}

pub put_out-IsFair :
    (c : Setting) (pins : List (ℕ × InflightCall)) (id m n : ℕ) (s : Shared) (cmd : WriterCmd)
    → IsFair c pins id m s
    → m + cmd_answer c id cmd ≤ n
    → IsFair c pins id n (put_out s cmd)
unfolding put_out
put_out-IsFair c pins id m n s cmd (linked, paid) h = elim (Bool-cases s.writer_alive) [
  | inl alive ↦ rw alive (linked, omega (arith, answers-snoc c id s.out cmd))
  | inr gone ↦ rw gone (linked, omega arith)
]

pub stream_frame_lem :
    (c : Setting) (id stream seq : ℕ) (bytes : Bytes)
    → cmd_answer c id (send (binary (encode_stream_data stream seq bytes))) ≡ 0
unfolding decode_message decode_binary encode_stream_data
stream_frame_lem c id stream seq bytes = refl

module _ (c : Setting) (r : IsReadBack c) (pins : List (ℕ × InflightCall)) (id : ℕ) where
  send_envelope-err :
      (s : Shared) (e : Envelope) (x : Frame.CodecError)
      → encode_control c.codec e c.serialization ≡ Frame.err x
      → send_envelope c s e ≡ s
  unfolding send_envelope
  send_envelope-err s e x q = rw (q, send_envelope) refl

  send_envelope-ok :
      (s : Shared) (e : Envelope) (msg : WireMessage)
      → encode_control c.codec e c.serialization ≡ Frame.ok msg
      → send_envelope c s e ≡ put_out s (send msg)
  unfolding send_envelope put_out
  send_envelope-ok s e msg q = rw (q, send_envelope) refl

  send_result-IsFair :
      (m n : ℕ) (s : Shared) (e : Envelope) (o : Frame.Result WireMessage)
      → encode_control c.codec e c.serialization ≡ o
      → IsFair c pins id m s
      → m + answer id e ≤ n
      → IsFair c pins id n (send_envelope c s e)
  unfolding send_envelope put_out
  send_result-IsFair m n s e (Frame.err x) q (linked, paid) h =
      subst (λ t. IsFair c pins id n t) (sym (send_envelope-err s e x q)) (linked, omega arith)
  send_result-IsFair m n s e (Frame.ok msg) q f h =
      subst (λ t. IsFair c pins id n t) (sym (send_envelope-ok s e msg q))
        (put_out-IsFair c pins id m n s (send msg) f (rw (r.reads_back e msg q) h))

  -- A message costs what it answers.
  pub send-IsFair :
      (m n : ℕ) (s : Shared) (e : Envelope)
      → IsFair c pins id m s
      → m + answer id e ≤ n
      → IsFair c pins id n (send_envelope c s e)
  send-IsFair m n s e f h =
      send_result-IsFair m n s e (encode_control c.codec e c.serialization) refl f h

  -- A call's first answer costs nothing more.
  pub mark_replied-IsFair :
      (n : ℕ) (s : Shared) (j k : ℕ) (call : CallTask)
      → get_elem? s.calls k ≡ some call
      → call.id ≡ j
      → call.replied ≡ false
      → IsFair c pins id n s
      → (m : ℕ) × IsFair c pins id m (mark_replied c s k call)
        × (m + (if j == id then 1 else 0) ≤ n)
  unfolding mark_replied
  mark_replied-IsFair n s j k call here same fresh (linked, paid) =
      let marked : CallTask = record call { replied = true } in
      let keeps : Keeps s.calls (set s.calls k marked) =
        λ at i e. id_at-set s.calls k at call marked here refl ∙ e in
      (
        answers c id s.out + open_calls id (set s.calls k marked),
        (
          (
            Keeps-AreLinked s.calls (set s.calls k marked) pins keeps linked.0,
            Keeps-AreLinked s.calls (set s.calls k marked) s.inflight keeps linked.1,
          ),
          omega arith,
        ),
        ground (arith, open_calls-set id s.calls k call marked here),
      )

  open_gates-IsFair :
      (n : ℕ) (ds : List Detached) (s : Shared)
      → IsFair c pins id n s
      → IsFair c pins id n (open_gates c s ds)
  unfolding open_gates new_gate AreLinked
  open_gates-IsFair n [] s f = f
  open_gates-IsFair n (d ∷ ds) s f =
      let opened = new_gate s (open_gate c.limits.initial_stream_credit) in
      open_gates-IsFair n ds
        (record opened { credits = insert opened.credits d.stream (length s.gates) }) f

  send_res-IsFair :
      (m n : ℕ) (s : Shared) (j : ℕ) (moved : Moved Payload ℕ)
      → IsFair c pins id m s
      → m + (if j == id then 1 else 0) ≤ n
      → IsFair c pins id n (send_res c s j moved)
  unfolding send_res
  send_res-IsFair m n s j moved f h =
      send-IsFair m n (open_gates c (record s { next_stream_id = moved.next }) moved.out)
        (res j moved.value)
        (open_gates-IsFair m moved.out (record s { next_stream_id = moved.next }) f) h

  pub reply_res-IsFair :
      (n : ℕ) (s : Shared) (k : ℕ) (call : CallTask) (result : Payload)
      → get_elem? s.calls k ≡ some call
      → IsFair c pins id n s
      → IsFair c pins id n (reply_res c s call.id k call result)
  unfolding reply_res
  reply_res-IsFair n s k call result here f = elim (Bool-cases call.replied) [
    | inl replied ↦ rw replied f
    | inr fresh ↦
        let (m, marked, cost) = mark_replied-IsFair n s call.id k call here refl fresh f in
        rw fresh (
          send_res-IsFair m n (mark_replied c s k call) call.id (take_blobs c s result) marked cost)
  ]

  pub reply_err-IsFair :
      (n : ℕ) (s : Shared) (k : ℕ) (call : CallTask) (error : WireError)
      → get_elem? s.calls k ≡ some call
      → IsFair c pins id n s
      → IsFair c pins id n (reply_err c s call.id k call error)
  unfolding reply_err
  reply_err-IsFair n s k call error here f = elim (Bool-cases call.replied) [
    | inl replied ↦ rw replied f
    | inr fresh ↦
        let (m, marked, cost) = mark_replied-IsFair n s call.id k call here refl fresh f in
        rw fresh (send-IsFair m n (mark_replied c s k call) (err call.id error) marked cost)
  ]
