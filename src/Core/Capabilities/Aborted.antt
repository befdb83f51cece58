-- ===== src/Core/Capabilities/Aborted.antt =====
-- A change that takes a name aborts the tasks of the calls that run under it.
use zyris_protocol.Prelude.{
  ℕ, ◌+◌, ◌%◌, ◌^◌, ◌≡◌, refl, sym, ◌∙◌, subst, inl, inr, true, false, Option, none, some, List, [],
  ◌∷◌, ◌++◌, arith, ◌==◌, Bool-cases, Text, codes, text_eq, text_eq_iff, get_elem?, if-elim,
  Option-elim, Option-branches, lookup, remove, insert,
}
use zyris_protocol.Proto.Value.{Payload}
use zyris_protocol.Proto.Error.{WireError, new, capability_unavailable}
use zyris_protocol.Proto.Envelope.{Envelope, StreamDecl, err, s_err, req}
use zyris_protocol.Proto.Frame
use zyris_protocol.Proto.Frame.{WireMessage, encode_control}
use zyris_protocol.Core.State.{WireResult, CallTask, Setting, Shared, send, InflightCall}
use zyris_protocol.Core.Sending.{put_out, send_envelope, send_result, mark_replied}
use zyris_protocol.Core.Serving.{abort_call}
use zyris_protocol.Core.Client.{request}
use zyris_protocol.Core.Requests.{
  contains, is_victim, victims, remove_all, revoke_call, revoke_all, revoke_inflight,
}
use zyris_protocol.Core.Capabilities.{revoke_names}
use zyris_protocol.Core.Capabilities.Offered.{WireResult-elim}
use zyris_protocol.Core.Capabilities.Revoked.{revoke_inflight_inflight}
use zyris_protocol.Core.Ending.Gates.{holds_at-none}
use zyris_protocol.Core.Ending.Aborted.{
  is_aborted, Keeps, same_calls-Keeps, Keeps-trans, aborted-set, abort_call-Keeps, abort_call-hits,
  put_out_calls,
}
use zyris_protocol.Core.Capabilities.Victims.{
  IsMap, IsMap-remove_all, lookup-remove_all, has_id-victims,
}

module _ (c : Setting) where
  send_envelope_calls : (s : Shared) (e : Envelope) → (send_envelope c s e).calls ≡ s.calls
  unfolding send_envelope
  send_envelope_calls s e = sent (encode_control c.codec e c.serialization)
    where
      sent :
          (o : Frame.Result WireMessage)
          → (elim o as (λ _. Shared) [
            | Frame.err e ↦ s
            | Frame.ok msg ↦ put_out s (send msg)
          ]).calls
            ≡ s.calls
      sent (Frame.err e) = refl
      sent (Frame.ok msg) = put_out_calls s (send msg)

  mark_replied-Keeps :
      (s : Shared) (k : ℕ) (call : CallTask)
      → get_elem? s.calls k ≡ some call
      → Keeps s (mark_replied c s k call)
  unfolding mark_replied Keeps
  mark_replied-Keeps s k call found j h =
      aborted-set s.calls j k call (record call { replied = true }) found (λ a. a) h

  -- Whether it was answered or streams: the task of a revoked call is aborted.
  revoke_call-hits :
      (s : Shared) (id : ℕ) (entry : InflightCall) (error : WireError)
      → is_aborted (revoke_call c s id entry error) entry.task ≡ true
  unfolding revoke_call
  revoke_call-hits s id entry error =
      Option-branches (λ t. is_aborted t entry.task ≡ true) (get_elem? s.calls entry.task)
        (λ gone. holds_at-none (λ (call : CallTask). call.aborted) s.calls entry.task gone)
        (λ call found. abort_call-hits _ entry.task)

  revoke_call-Keeps :
      (s : Shared) (id : ℕ) (entry : InflightCall) (error : WireError)
      → Keeps s (revoke_call c s id entry error)
  unfolding revoke_call
  revoke_call-Keeps s id entry error =
      Option-branches (Keeps s) (get_elem? s.calls entry.task) (λ gone. same_calls-Keeps s s refl)
        (λ call found.
          if-elim (λ t. Keeps s (abort_call t entry.task)) call.replied
            (Option-elim (λ t. Keeps s (abort_call t entry.task)) entry.stream
              (abort_call-Keeps s entry.task)
              (λ stream streamed.
                let sent = send_envelope c s (s_err stream error) in
                let ended = record sent { credits = remove sent.credits stream } in
                Keeps-trans s ended (abort_call ended entry.task)
                  (same_calls-Keeps s ended (send_envelope_calls s (s_err stream error)))
                  (abort_call-Keeps ended entry.task)))
            (let marked = mark_replied c s entry.task call in
              let sent = send_envelope c marked (err id error) in
              Keeps-trans s marked (abort_call sent entry.task)
                (mark_replied-Keeps s entry.task call found)
                (Keeps-trans marked sent (abort_call sent entry.task)
                  (same_calls-Keeps marked sent (send_envelope_calls marked (err id error)))
                  (abort_call-Keeps sent entry.task))))

  revoke_all-Keeps :
      (chosen : List (ℕ × InflightCall)) (s : Shared) (error : WireError)
      → Keeps s (revoke_all c s chosen error)
  unfolding revoke_all
  revoke_all-Keeps [] s error = same_calls-Keeps s s refl
  revoke_all-Keeps ((id, entry) ∷ rest) s error =
      let next = revoke_call c s id entry error in
      Keeps-trans s next (revoke_all c next rest error) (revoke_call-Keeps s id entry error)
        (revoke_all-Keeps rest next error)

  revoke_inflight-Keeps :
      (s : Shared) (name : Text) (caller : Option ℕ) → Keeps s (revoke_inflight c s name caller)
  unfolding revoke_inflight
  revoke_inflight-Keeps s name caller =
      let chosen = victims name caller s.inflight in
      let cleared = record s { inflight = remove_all s.inflight chosen } in
      let error =
        new capability_unavailable (codes "capability " ++ (name ++ codes " was revoked")) in
      Keeps-trans s cleared (revoke_all c cleared chosen error) (same_calls-Keeps s cleared refl)
        (revoke_all-Keeps chosen cleared error)

  revoke_names-Keeps :
      (revoked : List Text) (s : Shared) (caller : Option ℕ)
      → Keeps s (revoke_names c s revoked caller)
  unfolding revoke_names
  revoke_names-Keeps [] s caller = same_calls-Keeps s s refl
  revoke_names-Keeps (n ∷ ns) s caller =
      let next = revoke_inflight c s n caller in
      Keeps-trans s next (revoke_names c next ns caller) (revoke_inflight-Keeps s n caller)
        (revoke_names-Keeps ns next caller)

  -- The victims that a map holds are aborted, one after the other.
  revoke_all-hits :
      (name : Text) (caller : Option ℕ) (m : List (ℕ × InflightCall)) (s : Shared)
      (error : WireError) (id : ℕ) (entry : InflightCall)
      → lookup m id ≡ some entry
      → is_victim name caller entry ≡ true
      → is_aborted (revoke_all c s (victims name caller m) error) entry.task ≡ true
  unfolding victims revoke_all lookup Keeps
  revoke_all-hits name caller [] s error id entry h v = absurd (ground arith)
  revoke_all-hits name caller ((j, x) ∷ m) s error id entry h v = elim (Bool-cases (j == id)) [
    | inl same ↦ at_head (ground (arith, same))
    | inr other ↦
        if-elim (λ chosen. is_aborted (revoke_all c s chosen error) entry.task ≡ true)
          (is_victim name caller x)
          (revoke_all-hits name caller m (revoke_call c s j x error) error id entry
            (ground (arith, other)) v)
          (revoke_all-hits name caller m s error id entry (ground (arith, other)) v)
  ]
    where
      at_head :
          x ≡ entry
          → is_aborted (revoke_all c s (victims name caller ((j, x) ∷ m)) error) entry.task ≡ true
      at_head same =
          let hit : is_victim name caller x ≡ true =
            subst (λ e. is_victim name caller e ≡ true) (sym same) v in
          rw hit (
            revoke_all-Keeps (victims name caller m) (revoke_call c s j x error) error entry.task (
              subst (λ (e : InflightCall). is_aborted (revoke_call c s j x error) e.task ≡ true)
                same (revoke_call-hits s j x error)))

  revoke_inflight-hits :
      (s : Shared) (name : Text) (caller : Option ℕ) (id : ℕ) (entry : InflightCall)
      → lookup s.inflight id ≡ some entry
      → is_victim name caller entry ≡ true
      → is_aborted (revoke_inflight c s name caller) entry.task ≡ true
  unfolding revoke_inflight
  revoke_inflight-hits s name caller id entry h v =
      let chosen = victims name caller s.inflight in
      revoke_all-hits name caller s.inflight (record s { inflight = remove_all s.inflight chosen })
        (new capability_unavailable (codes "capability " ++ (name ++ codes " was revoked"))) id
        entry h v

  other_name :
      (n name : Text) (caller : Option ℕ) (entry : InflightCall)
      → text_eq n name ≡ false
      → is_victim name caller entry ≡ true
      → is_victim n caller entry ≡ false
  other_name n name none entry d v =
      ground (
        arith,
        text_eq_iff entry.capability name,
        text_eq_iff entry.capability n,
        text_eq_iff n name,
      )
  other_name n name (some k) entry d v =
      ground (
        arith,
        text_eq_iff entry.capability name,
        text_eq_iff entry.capability n,
        text_eq_iff n name,
      )

  pub revoke_names-hits :
      (revoked : List Text) (s : Shared) (name : Text) (caller : Option ℕ) (id : ℕ)
      (entry : InflightCall)
      → contains revoked name ≡ true
      → IsMap s.inflight
      → lookup s.inflight id ≡ some entry
      → is_victim name caller entry ≡ true
      → is_aborted (revoke_names c s revoked caller) entry.task ≡ true
  unfolding revoke_names Keeps
  revoke_names-hits [] s name caller id entry h u l v = absurd (ground arith)
  revoke_names-hits (n ∷ ns) s name caller id entry h u l v =
      let next = revoke_inflight c s n caller in
      elim (Bool-cases (text_eq n name)) [
        | inl same ↦ revoke_names-Keeps ns next caller entry.task (
            revoke_inflight-hits s n caller id entry l
              (subst (λ t. is_victim t caller entry ≡ true) (sym ((text_eq_iff n name).0 same)) v))
        | inr other ↦
            let left = sym (revoke_inflight_inflight c s n caller) in
            revoke_names-hits ns next name caller id entry (ground arith)
              (subst IsMap left (IsMap-remove_all (victims n caller s.inflight) s.inflight u))
              (subst (λ m. lookup m id ≡ some entry) left
                (lookup-remove_all (victims n caller s.inflight) s.inflight id (
                    has_id-victims n caller s.inflight id entry u l
                      (other_name n name caller entry other v))
                  ∙ l))
              v
      ]

  pub request_calls :
      (s : Shared) (method : Text) (params : Payload) (stream : Option StreamDecl) (meta : Payload)
      → (request c s method params stream meta).0.calls ≡ s.calls
  unfolding request
  request_calls s method params stream meta =
      let id = s.next_req_id in
      let waiting_for = record s {
        next_req_id = (id + 1) % 2 ^ 64;
        next_channel = s.next_channel + 1;
        pending = insert s.pending id s.next_channel;
      } in
      let envelope = req id method params stream meta in
      WireResult-elim (λ (r : Shared × WireResult ℕ). r.0.calls ≡ s.calls)
        (send_result c waiting_for envelope) (λ e failed. refl)
        (λ sent done. send_envelope_calls waiting_for envelope)
