-- ===== src/Core/Answers/Serving.antt =====
-- A call's task never answers twice.
use zyris_protocol.Prelude.{
  ℕ, ◌+◌, ◌%◌, ◌^◌, ◌≡◌, refl, sym, ◌∙◌, subst, inl, inr, true, Option, none, some, List, [], ◌∷◌,
  arith, Option-cases, Bytes, codes, length, get_elem?, set, if-elim, Option-elim, remove, insert,
}
use zyris_protocol.Proto.Value.{Payload, default}
use zyris_protocol.Proto.Error.{invalid_params}
use zyris_protocol.Proto.Envelope.{s_end, s_err}
use zyris_protocol.Proto.Frame.{binary, encode_stream_data}
use zyris_protocol.Core.Credit.{
  CreditState, open_gate, Acquired, granted, refused, waiting, acquire,
}
use zyris_protocol.Core.State.{
  send, InflightCall, Stage, dispatching, finished, streaming, CallTask, Setting, Shared,
}
use zyris_protocol.Core.Sending.{put_out, new_gate, send_envelope, reply_res, reply_err}
use zyris_protocol.Core.Answers.Base.{
  owed, IsReadBack, IsFair, open_calls-set, id_at-set, Keeps, Keeps-AreLinked, remove-AreLinked,
}
use zyris_protocol.Core.Answers.Sending.{
  put_out-IsFair, stream_frame_lem, send-IsFair, reply_res-IsFair, reply_err-IsFair,
}
use zyris_protocol.Core.Serving.{
  Progress, response, stream_head, dispatch_failed, item_failed, stream_item, items_end,
  update_call, finish, end_stream, abort_call, start_stream, send_item, offer_item, call_step,
  task_step, run_early,
}

update_call-none :
    (s : Shared) (k : ℕ) (f : CallTask → CallTask)
    → get_elem? s.calls k ≡ none
    → update_call s k f ≡ s
unfolding update_call
update_call-none s k f q = rw (q, update_call) refl

update_call-some :
    (s : Shared) (k : ℕ) (f : CallTask → CallTask) (call : CallTask)
    → get_elem? s.calls k ≡ some call
    → update_call s k f ≡ record s { calls = set s.calls k (f call) }
unfolding update_call
update_call-some s k f call q = rw (q, update_call) refl

-- A write that keeps the id, and never takes an answer back.
abbrev pub IsKind : (CallTask → CallTask) → Type 0
IsKind f = (call : CallTask) → ((f call).id ≡ call.id) × ((f call).replied ≡ call.replied)

module _ (c : Setting) (pins : List (ℕ × InflightCall)) (id n : ℕ) where
  pub update_call-IsFair :
      (s : Shared) (k : ℕ) (f : CallTask → CallTask)
      → IsKind f
      → IsFair c pins id n s
      → IsFair c pins id n (update_call s k f)
  update_call-IsFair s k f kind (linked, paid) = elim (Option-cases (get_elem? s.calls k)) [
    | inl absent ↦
        subst (λ t. IsFair c pins id n t) (sym (update_call-none s k f absent)) (linked, paid)
    | inr (call, here) ↦
        let (same_id, same_replied) = kind call in
        let keeps : Keeps s.calls (set s.calls k (f call)) =
          λ at i e. id_at-set s.calls k at call (f call) here same_id ∙ e in
        let cost : owed id (f call) ≡ owed id call = ground arith in
        subst (λ t. IsFair c pins id n t) (sym (update_call-some s k f call here))
          (
            (
              Keeps-AreLinked s.calls (set s.calls k (f call)) pins keeps linked.0,
              Keeps-AreLinked s.calls (set s.calls k (f call)) s.inflight keeps linked.1,
            ),
            omega (arith, open_calls-set id s.calls k call (f call) here),
          )
  ]

  pub finish-IsFair :
      (s : Shared) (k j : ℕ) → IsFair c pins id n s → IsFair c pins id n (finish s k j)
  unfolding finish
  finish-IsFair s k j f =
      let over = update_call s k (λ call. record call { done = true; stage = finished }) in
      let (linked, paid) =
        update_call-IsFair s k (λ call. record call { done = true; stage = finished })
          (λ call. (refl, refl)) f in
      ((linked.0, remove-AreLinked over.calls over.inflight j linked.1), paid)

  pub end_stream-IsFair :
      (s : Shared) (k j stream : ℕ)
      → IsFair c pins id n s
      → IsFair c pins id n (end_stream s k j stream)
  unfolding end_stream
  end_stream-IsFair s k j stream f =
      finish-IsFair (record s { credits = remove s.credits stream }) k j f

  pub abort_call-IsFair :
      (s : Shared) (k : ℕ) → IsFair c pins id n s → IsFair c pins id n (abort_call s k)
  unfolding abort_call
  abort_call-IsFair s k f =
      update_call-IsFair s k (λ call. record call { aborted = true }) (λ call. (refl, refl)) f

module _ (c : Setting) (r : IsReadBack c) (pins : List (ℕ × InflightCall)) (id n : ℕ) where
  start_stream-IsFair :
      (s : Shared) (k : ℕ) (call : CallTask) (stream : ℕ) (head : Payload)
      → get_elem? s.calls k ≡ some call
      → IsFair c pins id n s
      → IsFair c pins id n (start_stream c s k call stream head)
  unfolding start_stream new_gate
  start_stream-IsFair s k call stream head here f =
      let opened = new_gate s (open_gate c.limits.initial_stream_credit) in
      let known = record opened { credits = insert opened.credits stream (length s.gates) } in
      update_call-IsFair c pins id n (reply_res c known call.id k call head) k
        (λ now. record now { stage = streaming stream (length s.gates) 0 }) (λ now. (refl, refl))
        (reply_res-IsFair c r pins id n known k call head here f)

  send_item-IsFair :
      (s : Shared) (k : ℕ) (call : CallTask) (stream gate seq : ℕ) (bytes : Bytes)
      (left : CreditState)
      → IsFair c pins id n s
      → IsFair c pins id n (send_item c s k call stream gate seq bytes left)
  unfolding send_item
  send_item-IsFair s k call stream gate seq bytes left f =
      let paid = record s { gates = set s.gates gate left } in
      let frame = send (binary (encode_stream_data stream seq bytes)) in
      if-elim (λ t. IsFair c pins id n t) s.writer_alive
        (update_call-IsFair c pins id n (put_out paid frame) k
          (λ now. record now { stage = streaming stream gate ((seq + 1) % 2 ^ 32) })
          (λ now. (refl, refl))
          (put_out-IsFair c pins id n n paid frame f
            (omega (arith, stream_frame_lem c id stream seq bytes))))
        (end_stream-IsFair c pins id n paid k call.id stream f)

  -- What a step that may not happen leaves.
  abbrev pub IsFairIf : Option Shared → Type 0
  IsFairIf none = Unit {0}
  IsFairIf (some s) = IsFair c pins id n s

  acquired-IsFair :
      (s : Shared) (k : ℕ) (call : CallTask) (stream gate seq : ℕ) (bytes : Bytes) (a : Acquired)
      → IsFair c pins id n s
      → IsFairIf (elim a [
        | waiting ↦ none
        | refused ↦ some (end_stream s k call.id stream)
        | granted left ↦ some (send_item c s k call stream gate seq bytes left)
      ])
  acquired-IsFair s k call stream gate seq bytes waiting f = tt
  acquired-IsFair s k call stream gate seq bytes refused f =
      end_stream-IsFair c pins id n s k call.id stream f
  acquired-IsFair s k call stream gate seq bytes (granted left) f =
      send_item-IsFair s k call stream gate seq bytes left f

  offer_item-IsFair :
      (s : Shared) (k : ℕ) (call : CallTask) (stream gate seq : ℕ) (bytes : Bytes)
      → IsFair c pins id n s
      → IsFairIf (offer_item c s k call stream gate seq bytes)
  unfolding offer_item
  offer_item-IsFair s k call stream gate seq bytes f =
      elim (Option-cases (get_elem? s.gates gate)) [
        | inl absent ↦ rw (absent, offer_item) tt
        | inr (state, here) ↦
            rw (here, offer_item)
              (acquired-IsFair s k call stream gate seq bytes (acquire state (length bytes)) f)
      ]

  call_step-IsFair :
      (s : Shared) (k : ℕ) (call : CallTask) (at : Stage) (p : Progress)
      → get_elem? s.calls k ≡ some call
      → IsFair c pins id n s
      → IsFairIf (call_step c s k call at p)
  unfolding call_step
  call_step-IsFair s k call dispatching (response result) here f =
      finish-IsFair c pins id n (reply_res c s call.id k call result) k call.id
        (reply_res-IsFair c r pins id n s k call result here f)
  call_step-IsFair s k call dispatching (dispatch_failed error) here f =
      finish-IsFair c pins id n (reply_err c s call.id k call error) k call.id
        (reply_err-IsFair c r pins id n s k call error here f)
  call_step-IsFair s k call dispatching (stream_head head) here f =
      let error = invalid_params (codes "streaming tool requires a stream declaration") in
      Option-elim (λ o. IsFairIf o) call.stream_id
        (finish-IsFair c pins id n (reply_err c s call.id k call error) k call.id
          (reply_err-IsFair c r pins id n s k call error here f))
        (λ stream _. start_stream-IsFair s k call stream head here f)
  call_step-IsFair s k call (streaming stream gate seq) (stream_item bytes) here f =
      offer_item-IsFair s k call stream gate seq bytes f
  call_step-IsFair s k call (streaming stream gate seq) (item_failed error) here f =
      end_stream-IsFair c pins id n (send_envelope c s (s_err stream error)) k call.id stream
        (send-IsFair c r pins id n n s (s_err stream error) f (omega arith))
  call_step-IsFair s k call (streaming stream gate seq) items_end here f =
      end_stream-IsFair c pins id n (send_envelope c s (s_end stream default)) k call.id stream
        (send-IsFair c r pins id n n s (s_end stream default) f (omega arith))
  call_step-IsFair s k call dispatching (item_failed e) here f = tt
  call_step-IsFair s k call dispatching (stream_item b) here f = tt
  call_step-IsFair s k call dispatching items_end here f = tt
  call_step-IsFair s k call finished p here f = tt
  call_step-IsFair s k call (streaming stream gate seq) _ here f = tt

  pub task_step-IsFair :
      (s : Shared) (k : ℕ) (p : Progress) → IsFair c pins id n s → IsFairIf (task_step c s k p)
  unfolding task_step
  task_step-IsFair s k p f = elim (Option-cases (get_elem? s.calls k)) [
    | inl absent ↦ rw (absent, task_step) tt
    | inr (call, here) ↦ rw (here, task_step) (call_step-IsFair s k call call.stage p here f)
  ]

  pub run_early-IsFair :
      (s : Shared) (k : ℕ) (ps : List Progress)
      → IsFair c pins id n s
      → IsFair c pins id n (run_early c s k ps)
  unfolding run_early
  run_early-IsFair s k [] f = f
  run_early-IsFair s k (p ∷ ps) f = elim (Option-cases (task_step c s k p)) [
    | inl stuck ↦ rw (stuck, run_early) f
    | inr (next, made) ↦
        rw (made, run_early)
          (run_early-IsFair next k ps (subst (λ o. IsFairIf o) made (task_step-IsFair s k p f)))
  ]
