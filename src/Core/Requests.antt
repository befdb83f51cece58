-- ===== src/Core/Requests.antt =====
-- What a connection does on a request, on an announcement, and when a capability is revoked.
pub mod Announced
use zyris_protocol.Prelude.{
  ℕ, ◌+◌, Bool, true, false, not, ◌&&◌, ◌||◌, Option, none, some, List, [], ◌∷◌, ◌++◌, ◌==◌,
  if◌then◌else◌, Text, codes, text_eq, length, get_elem?, remove, insert,
}
use zyris_protocol.Proto.Value.{Payload}
use zyris_protocol.Proto.Error.{
  WireError, new, method_not_found, capability_not_announced, capability_unavailable,
}
use zyris_protocol.Proto.Envelope.{res, err, s_err, method_announce}
use zyris_protocol.Proto.Capability.{
  CapabilityDescriptor, RejectedCapability, AnnounceResult, split_method,
}
use zyris_protocol.Core.State.{
  success, failure, InflightCall, dispatching, CallTask, Setting, Shared,
}
use zyris_protocol.Core.Sending.{send_envelope, mark_replied}
use zyris_protocol.Core.Serving.{Progress, abort_call, run_early}

abbrev pub contains : List Text → Text → Bool
contains [] t = false
contains (u ∷ us) t = text_eq u t || contains us t

abbrev pub is_done : Option CallTask → Bool
is_done none = true
is_done (some call) = call.done

-- The three parts of `handle_announce`'s loop.
pub record Partition : Type 0 where
  pub accepted : List Text
  pub rejected : List RejectedCapability
  pub kept : List CapabilityDescriptor

unfoldable pub partition : List Text → List CapabilityDescriptor → Partition
partition reserved [] = record { accepted = []; rejected = []; kept = [] }
partition reserved (cap ∷ caps) =
    let rest = partition reserved caps in
    if contains reserved cap.name
    then record rest {
      rejected = record { name = cap.name; reason = codes "reserved" } ∷ rest.rejected;
    }
    else record rest { accepted = cap.name ∷ rest.accepted; kept = cap ∷ rest.kept }

-- `CLOSE_NORMAL`.
abbrev pub close_normal : ℕ
close_normal = 1000

-- Whether an entry is a victim: a call of the capability, but not the caller's own task.
abbrev pub is_victim : Text → Option ℕ → InflightCall → Bool
is_victim capability none entry = text_eq entry.capability capability
is_victim capability (some caller) entry =
    text_eq entry.capability capability && not (entry.task == caller)

unfoldable pub victims : Text → Option ℕ → List (ℕ × InflightCall) → List (ℕ × InflightCall)
victims capability caller [] = []
victims capability caller ((id, entry) ∷ rest) =
    let others = victims capability caller rest in
    if is_victim capability caller entry then (id, entry) ∷ others else others

unfoldable pub remove_all :
    List (ℕ × InflightCall) → List (ℕ × InflightCall) → List (ℕ × InflightCall)
remove_all m [] = m
remove_all m ((id, entry) ∷ rest) = remove_all (remove m id) rest

module _ (c : Setting) where
  -- The part of `handle_request` behind `spawn`: the new task, its first steps, and its entry.
  unfoldable pub spawn_call : Shared → ℕ → Text → Option ℕ → List Progress → Shared
  unfolding run_early
  spawn_call s id cap_name stream_id early =
      let k = length s.calls in
      let call : CallTask = record {
        id = id;
        stream_id = stream_id;
        replied = false;
        done = false;
        aborted = false;
        stage = dispatching;
      } in
      let ran = run_early c (record s { calls = s.calls ++ (call ∷ []) }) k early in
      if is_done (get_elem? ran.calls k) then ran else record ran {
        inflight =
            insert ran.inflight id (record { capability = cap_name; task = k; stream = stream_id });
      }

  unfoldable pub announce_reply : Shared → ℕ → AnnounceResult → Shared
  unfolding send_envelope
  announce_reply s id result = elim (c.from_announce_result result) [
    | success payload ↦ send_envelope c s (res id payload)
    | failure e ↦ send_envelope c s (err id e)
  ]

  unfoldable pub handle_announce : Shared → ℕ → Payload → Shared
  unfolding send_envelope announce_reply partition
  handle_announce s id params = elim (c.to_announce_params params) [
    | failure e ↦ send_envelope c s (err id e)
    | success capabilities ↦
        let parts = partition c.reserved capabilities in
        announce_reply (record s { peer_caps = parts.kept; announced = s.announced + 1 }) id
          (record { accepted = parts.accepted; rejected = parts.rejected })
  ]

  unfoldable pub handle_request : Shared → ℕ → Text → Payload → Option ℕ → List Progress → Shared
  unfolding handle_announce send_envelope spawn_call
  handle_request s id method params stream_id early =
      if text_eq method method_announce
      then handle_announce s id params
      else elim (split_method method) [
        | none ↦ send_envelope c s (err id (method_not_found method))
        | some (cap_name, tool) ↦
            if contains s.caps cap_name
            then spawn_call s id cap_name stream_id early
            else send_envelope c s (
                err id (
                  new capability_not_announced
                    (codes "capability " ++ (cap_name ++ codes " not available"))))
      ]

  -- A call that is ended early: an answer if there was none yet, else the end of its stream.
  unfoldable pub revoke_call : Shared → ℕ → InflightCall → WireError → Shared
  unfolding mark_replied send_envelope abort_call
  revoke_call s id entry error = elim (get_elem? s.calls entry.task) [
    | none ↦ s
    | some call ↦
        let told =
          if call.replied
          then elim entry.stream [
            | none ↦ s
            | some stream ↦
                let sent = send_envelope c s (s_err stream error) in
                record sent { credits = remove sent.credits stream }
          ]
          else send_envelope c (mark_replied c s entry.task call) (err id error) in
        abort_call told entry.task
  ]

  unfoldable pub revoke_all : Shared → List (ℕ × InflightCall) → WireError → Shared
  unfolding revoke_call
  revoke_all s [] error = s
  revoke_all s ((id, entry) ∷ rest) error = revoke_all (revoke_call s id entry error) rest error

  -- `Shared::revoke_inflight`, called from the task of `caller` or from none.
  unfoldable pub revoke_inflight : Shared → Text → Option ℕ → Shared
  unfolding victims remove_all revoke_all
  revoke_inflight s capability caller =
      let chosen = victims capability caller s.inflight in
      revoke_all (record s { inflight = remove_all s.inflight chosen }) chosen
        (new capability_unavailable (codes "capability " ++ (capability ++ codes " was revoked")))
