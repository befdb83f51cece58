-- ===== src/Core/Answers/Requests.antt =====
-- A request costs one answer, and what revokes its capability none.
use zyris_protocol.Prelude.{
  ℕ, ◌+◌, ◌≤◌, ◌≡◌, refl, false, Option, none, some, List, [], ◌∷◌, ◌++◌, arith, ◌==◌,
  if◌then◌else◌, Text, codes, text_eq, length, get_elem?, if-elim, if-cases, Option-elim, remove,
  insert,
}
use zyris_protocol.Proto.Value.{Payload}
use zyris_protocol.Proto.Error.{
  WireError, new, method_not_found, capability_not_announced, capability_unavailable,
}
use zyris_protocol.Proto.Envelope.{res, err, s_err, method_announce}
use zyris_protocol.Proto.Capability.{AnnounceResult, split_method}
use zyris_protocol.Core.State.{
  success, failure, InflightCall, dispatching, CallTask, Setting, Shared,
}
use zyris_protocol.Core.Sending.{send_envelope, mark_replied}
use zyris_protocol.Core.Answers.Base.{
  IsReadBack, id_at, AreLinked, IsFair, open_calls-snoc, id_at-snoc, id_at-get, Keeps,
  Keeps-AreLinked, remove-AreLinked,
}
use zyris_protocol.Core.Answers.Sending.{send-IsFair, mark_replied-IsFair}
use zyris_protocol.Core.Answers.Serving.{run_early-IsFair, abort_call-IsFair}
use zyris_protocol.Core.Serving.{Progress, run_early}
use zyris_protocol.Core.Requests.{
  contains, is_done, partition, spawn_call, announce_reply, handle_announce, handle_request,
  revoke_call, is_victim, victims, remove_all, revoke_all, revoke_inflight,
}

id_at-last :
    (calls : List CallTask) (call : CallTask)
    → id_at (calls ++ (call ∷ [])) (length calls) ≡ some call.id
unfolding id_at
id_at-last [] call = refl
id_at-last (x ∷ calls) call = id_at-last calls call

victims-AreLinked :
    (calls : List CallTask) (capability : Text) (caller : Option ℕ) (m : List (ℕ × InflightCall))
    → AreLinked calls m
    → AreLinked calls (victims capability caller m)
unfolding AreLinked victims
victims-AreLinked calls capability caller [] l = tt
victims-AreLinked calls capability caller ((id, entry) ∷ m) (here, rest) =
    let others = victims-AreLinked calls capability caller m rest in
    if-elim (λ t. AreLinked calls t) (is_victim capability caller entry) (here, others) others

remove_all-AreLinked :
    (calls : List CallTask) (chosen m : List (ℕ × InflightCall))
    → AreLinked calls m
    → AreLinked calls (remove_all m chosen)
unfolding remove_all
remove_all-AreLinked calls [] m l = l
remove_all-AreLinked calls ((id, entry) ∷ chosen) m l =
    remove_all-AreLinked calls chosen (remove m id) (remove-AreLinked calls m id l)

module _ (c : Setting) (r : IsReadBack c) (pins : List (ℕ × InflightCall)) (id m n : ℕ) where
  spawn_call-IsFair :
      (s : Shared) (j : ℕ) (cap_name : Text) (stream_id : Option ℕ) (early : List Progress)
      → IsFair c pins id m s
      → m + (if j == id then 1 else 0) ≤ n
      → IsFair c pins id n (spawn_call c s j cap_name stream_id early)
  unfolding spawn_call AreLinked insert
  spawn_call-IsFair s j cap_name stream_id early ((pinned, linked), paid) h =
      let k = length s.calls in
      let entry : InflightCall = record { capability = cap_name; task = k; stream = stream_id } in
      let call : CallTask = record {
        id = j;
        stream_id = stream_id;
        replied = false;
        done = false;
        aborted = false;
        stage = dispatching;
      } in
      let calls = s.calls ++ (call ∷ []) in
      let keeps : Keeps s.calls calls = λ at i e. id_at-snoc s.calls call at i e in
      let ran = run_early c (record s { calls = calls }) k early in
      let (((here, pinned'), linked'), paid') =
        run_early-IsFair c r ((j, entry) ∷ pins) id n (record s { calls = calls }) k early
          (
            (
              (id_at-last s.calls call, Keeps-AreLinked s.calls calls pins keeps pinned),
              Keeps-AreLinked s.calls calls s.inflight keeps linked,
            ),
            omega (arith, open_calls-snoc id s.calls call),
          ) in
      if-elim (λ t. IsFair c pins id n t) (is_done (get_elem? ran.calls k))
        ((pinned', linked'), paid')
        ((pinned', (here, remove-AreLinked ran.calls ran.inflight j linked')), paid')

  announce_reply-IsFair :
      (s : Shared) (j : ℕ) (result : AnnounceResult)
      → IsFair c pins id m s
      → m + (if j == id then 1 else 0) ≤ n
      → IsFair c pins id n (announce_reply c s j result)
  unfolding announce_reply
  announce_reply-IsFair s j result f h =
      elim (c.from_announce_result result)
        as (λ o. IsFair c pins id n (elim o [
          | success payload ↦ send_envelope c s (res j payload)
          | failure e ↦ send_envelope c s (err j e)
        ])) [
          | success payload ↦ send-IsFair c r pins id m n s (res j payload) f h
          | failure e ↦ send-IsFair c r pins id m n s (err j e) f h
        ]

  handle_announce-IsFair :
      (s : Shared) (j : ℕ) (params : Payload)
      → IsFair c pins id m s
      → m + (if j == id then 1 else 0) ≤ n
      → IsFair c pins id n (handle_announce c s j params)
  unfolding handle_announce
  handle_announce-IsFair s j params f h =
      elim (c.to_announce_params params)
        as (λ o. IsFair c pins id n (elim o [
          | failure e ↦ send_envelope c s (err j e)
          | success capabilities ↦
              let parts = partition c.reserved capabilities in
              announce_reply c (record s { peer_caps = parts.kept; announced = s.announced + 1 }) j
                (record { accepted = parts.accepted; rejected = parts.rejected })
        ])) [
          | failure e ↦ send-IsFair c r pins id m n s (err j e) f h
          | success capabilities ↦
              let parts = partition c.reserved capabilities in
              announce_reply-IsFair
                (record s { peer_caps = parts.kept; announced = s.announced + 1 }) j
                (record { accepted = parts.accepted; rejected = parts.rejected }) f h
        ]

  pub handle_request-IsFair :
      (s : Shared) (j : ℕ) (method : Text) (params : Payload) (stream_id : Option ℕ)
      (early : List Progress)
      → IsFair c pins id m s
      → m + (if j == id then 1 else 0) ≤ n
      → IsFair c pins id n (handle_request c s j method params stream_id early)
  unfolding handle_request
  handle_request-IsFair s j method params stream_id early f h =
      if-elim (λ t. IsFair c pins id n t) (text_eq method method_announce)
        (handle_announce-IsFair s j params f h)
        (Option-elim (λ t. IsFair c pins id n t) (split_method method)
          (send-IsFair c r pins id m n s (err j (method_not_found method)) f h)
          (λ parts _.
            if-elim (λ t. IsFair c pins id n t) (contains s.caps parts.0)
              (spawn_call-IsFair s j parts.0 stream_id early f h)
              (send-IsFair c r pins id m n s
                (err j (
                  new capability_not_announced
                    (codes "capability " ++ (parts.0 ++ codes " not available"))))
                f h)))

module _ (c : Setting) (r : IsReadBack c) (id n : ℕ) where
  revoke_call-IsFair :
      (pins : List (ℕ × InflightCall)) (s : Shared) (j : ℕ) (entry : InflightCall)
      (error : WireError)
      → id_at s.calls entry.task ≡ some j
      → IsFair c pins id n s
      → IsFair c pins id n (revoke_call c s j entry error)
  unfolding revoke_call
  revoke_call-IsFair pins s j entry error link f =
      Option-elim (λ t. IsFair c pins id n t) (get_elem? s.calls entry.task) f
        (λ call here.
          abort_call-IsFair c pins id n
            (if call.replied
              then elim entry.stream [
                | none ↦ s
                | some stream ↦
                    let sent = send_envelope c s (s_err stream error) in
                    record sent { credits = remove sent.credits stream }
              ]
              else send_envelope c (mark_replied c s entry.task call) (err j error))
            entry.task
            (if-cases (λ t. IsFair c pins id n t) call.replied
              (λ _.
                Option-elim (λ t. IsFair c pins id n t) entry.stream f
                  (λ stream _. send-IsFair c r pins id n n s (s_err stream error) f (omega arith)))
              (λ fresh.
                let (m, marked, cost) =
                  mark_replied-IsFair c r pins id n s j entry.task call here
                    (id_at-get s.calls entry.task j call here link) fresh f in
                send-IsFair c r pins id m n (mark_replied c s entry.task call) (err j error) marked
                  cost)))

  revoke_all-IsFair :
      (chosen : List (ℕ × InflightCall)) (s : Shared) (error : WireError)
      → IsFair c chosen id n s
      → IsFair c [] id n (revoke_all c s chosen error)
  unfolding revoke_all AreLinked
  revoke_all-IsFair [] s error f = f
  revoke_all-IsFair ((j, entry) ∷ rest) s error (((here, pinned), linked), paid) =
      revoke_all-IsFair rest (revoke_call c s j entry error) error
        (revoke_call-IsFair rest s j entry error here ((pinned, linked), paid))

  pub revoke_inflight-IsFair :
      (s : Shared) (capability : Text) (caller : Option ℕ)
      → IsFair c [] id n s
      → IsFair c [] id n (revoke_inflight c s capability caller)
  unfolding revoke_inflight
  revoke_inflight-IsFair s capability caller ((_, linked), paid) =
      let chosen = victims capability caller s.inflight in
      revoke_all-IsFair chosen (record s { inflight = remove_all s.inflight chosen })
        (new capability_unavailable (codes "capability " ++ (capability ++ codes " was revoked")))
        (
          (
            victims-AreLinked s.calls capability caller s.inflight linked,
            remove_all-AreLinked s.calls chosen s.inflight linked,
          ),
          paid,
        )
