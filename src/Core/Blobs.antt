-- ===== src/Core/Blobs.antt =====
-- Blobs that travel on streams of their own: `send_attachment` on one side, `collect_attachment` and
-- `hydrate` on the other.
pub mod Hydrated
use zyris_protocol.Prelude.{
  ℕ, zero, suc, ◌+◌, ◌-◌, ◌%◌, ◌^◌, max, not, Option, none, some, List, [], ◌∷◌, ◌++◌, ltb, ◌==◌,
  if◌then◌else◌, Bytes, Text, codes, text_eq, length, get_elem?, set, take, drop, lookup, remove,
}
use zyris_protocol.Proto.Value.{Payload}
use zyris_protocol.Proto.Error.{WireError, new}
use zyris_protocol.Proto.Envelope.{s_end}
use zyris_protocol.Proto.Frame.{binary, encode_stream_data}
use zyris_protocol.Proto.Attach.{AttachmentRef, Detached, refs}
use zyris_protocol.Core.Credit.{CreditState, granted, refused, waiting, acquire}
use zyris_protocol.Core.State.{
  WireResult, success, failure, send, StreamEvent, data_chunk, ended, failed, Setting, Shared,
}
use zyris_protocol.Core.Sending.{put_out, send_envelope}
use zyris_protocol.Proto.Error.{other, payload_too_large}
use zyris_protocol.Proto.Attach.{splice, digest}
use zyris_protocol.Core.Client.{take_chunk, drop_stream}

-- `slice::chunks`, of chunks of `size + 1` bytes; the text's length is fuel enough.
chunks_from : ℕ → ℕ → Bytes → List Bytes
chunks_from zero size bytes = []
chunks_from (suc fuel) size [] = []
chunks_from (suc fuel) size (b ∷ bytes) =
    take (suc size) (b ∷ bytes) ∷ chunks_from fuel size (drop size bytes)

unfoldable pub chunks : ℕ → Bytes → List Bytes
unfolding chunks_from
chunks size bytes = chunks_from (length bytes) (size - 1) bytes

-- The task that sends one blob: its gate, the chunks to come and the number of the next.
pub record Sending : Type 0 where
  pub stream : ℕ
  pub gate : ℕ
  pub to_come : List Bytes
  pub seq : ℕ
  pub sha256 : Text

-- A step of the task: not possible before there is credit, one chunk sent, or the end.
pub data Sent : Type 0 where
  blocked : Sent
  going : Shared → Sending → Sent
  over : Shared → Sent

module _ (c : Setting) (to_trailer : Text → Payload) where
  -- `send_attachment` up to its loop.
  unfoldable pub start_sending : Shared → Detached → Option Sending
  unfolding chunks
  start_sending s d = elim (lookup s.credits d.stream) [
    | none ↦ none
    | some gate ↦ some (record {
      stream = d.stream;
      gate = gate;
      to_come = chunks (max c.limits.max_chunk 1) d.bytes;
      seq = 0;
      sha256 = d.sha256;
    })
  ]

  unfoldable pub stop_sending : Shared → ℕ → Shared
  stop_sending s stream = record s { credits = remove s.credits stream }

  unfoldable pub send_granted : Shared → Sending → Bytes → List Bytes → CreditState → Sent
  unfolding put_out stop_sending
  send_granted s t chunk rest left =
      let paid = record s { gates = set s.gates t.gate left } in
      if s.writer_alive
      then going (put_out paid (send (binary (encode_stream_data t.stream t.seq chunk))))
          (record t { to_come = rest; seq = (t.seq + 1) % 2 ^ 32 })
      else over (stop_sending paid t.stream)

  unfoldable pub send_chunk : Shared → Sending → List Bytes → Sent
  unfolding acquire send_granted stop_sending send_envelope
  send_chunk s t [] =
      over (stop_sending (send_envelope c s (s_end t.stream (to_trailer t.sha256))) t.stream)
  send_chunk s t (chunk ∷ rest) = elim (get_elem? s.gates t.gate) [
    | none ↦ blocked
    | some state ↦ elim (acquire state (length chunk)) [
      | waiting ↦ blocked
      | refused ↦ over (stop_sending s t.stream)
      | granted left ↦ send_granted s t chunk rest left
    ]
  ]

-- What was sent on a channel, in order.
unfoldable pub on_channel : List (ℕ × StreamEvent) → ℕ → List StreamEvent
on_channel [] tx = []
on_channel ((k, e) ∷ log) tx = let rest = on_channel log tx in if k == tx then e ∷ rest else rest

module _ (c : Setting) where
  too_large : Text → WireError
  too_large message = new payload_too_large message

  -- The loop of `collect_attachment` on what its channel holds; `none` while it waits for more.
  unfoldable pub gather :
      Shared → ℕ → ℕ → Bytes → List StreamEvent → Shared × Option (WireResult Bytes)
  unfolding take_chunk drop_stream too_large
  gather s stream max_bytes buf [] = (s, none)
  gather s stream max_bytes buf (data_chunk b ∷ events) =
      let credited = take_chunk c s stream b in
      let rest = gather credited stream max_bytes (buf ++ b) events in
      if ltb max_bytes (length (buf ++ b))
      then (
        drop_stream c credited stream,
        some (
            failure (
              too_large (
                codes "attachment exceeded the "
                ++ (c.digits max_bytes ++ codes "-byte limit mid-transfer")))),
      )
      else rest
  gather s stream max_bytes buf (ended ∷ events) = (s, some (success buf))
  gather s stream max_bytes buf (failed e ∷ events) = (s, some (failure e))

  digest_check : Bytes → Option Text → WireResult Bytes
  digest_check buf none = success buf
  digest_check buf (some expected) =
      let actual = digest c.hash buf in
      if text_eq actual expected
      then success buf
      else failure (
          new (other (codes "attachment_corrupt")) (
            codes "attachment sha256 "
            ++ (actual ++ (codes " does not match the declared " ++ expected))))

  -- The checks behind the loop.
  unfoldable pub checked : AttachmentRef → Bytes → WireResult Bytes
  unfolding digest_check
  checked reference buf =
      if length buf == reference.size
      then digest_check buf reference.sha256
      else failure (
          new (other (codes "attachment_truncated")) (
            codes "attachment declared "
            ++ (c.digits reference.size
                ++ (codes " bytes, " ++ (c.digits (length buf) ++ codes " arrived")))))

  finish_collect :
      AttachmentRef → Shared × Option (WireResult Bytes) → Shared × Option (WireResult Bytes)
  unfolding checked
  finish_collect reference (s, none) = (s, none)
  finish_collect reference (s, some (failure e)) = (s, some (failure e))
  finish_collect reference (s, some (success buf)) = (s, some (checked reference buf))

  -- `collect_attachment`, when the log of events is as it is.
  unfoldable pub collect : Shared → ℕ → ℕ → Shared × Option (WireResult Bytes)
  unfolding drop_stream gather finish_collect on_channel too_large
  collect s stream max_bytes = elim (lookup s.attachments stream) [
    | none ↦ (
      s,
      some (
          failure (
            new (other (codes "attachment_gone")) (
              codes "stream "
              ++ (c.digits stream ++ codes " was never announced, or has already been claimed")))),
    )
    | some pending ↦
        let claimed = record s { attachments = remove s.attachments stream } in
        if ltb max_bytes pending.reference.size
        then (
          drop_stream c claimed stream,
          some (
              failure (
                too_large (
                  codes "attachment is "
                  ++ (c.digits pending.reference.size
                      ++ (codes " bytes, over the "
                          ++ (c.digits max_bytes ++ codes "-byte limit")))))),
        )
        else finish_collect pending.reference
            (gather claimed stream max_bytes [] (on_channel s.events pending.rx))
  ]

-- The payload is changed in place: it is what it has become when the outcome is known.
pub record Hydration : Type 0 where
  pub state : Shared
  pub payload : Payload
  pub outcome : Option (WireResult (Unit {0}))

module _ (c : Setting) where
  hydrate_with :
      (Shared → Payload → Hydration) → Payload → ℕ → Shared × Option (WireResult Bytes) → Hydration
  hydrate_with next payload stream (s, none) = record {
    state = s;
    payload = payload;
    outcome = none;
  }
  hydrate_with next payload stream (s, some (failure e)) = record {
    state = s;
    payload = payload;
    outcome = some (failure e);
  }
  hydrate_with next payload stream (s, some (success bytes)) =
      next s (splice payload stream bytes).0

  unfoldable pub hydrate_refs : Shared → Payload → ℕ → List AttachmentRef → Hydration
  unfolding collect hydrate_with
  hydrate_refs s payload max_bytes [] = record {
    state = s;
    payload = payload;
    outcome = some (success tt);
  }
  hydrate_refs s payload max_bytes (r ∷ rs) =
      hydrate_with (λ t p. hydrate_refs t p max_bytes rs) payload r.stream
        (collect c s r.stream max_bytes)

  -- `Connection::hydrate`.
  unfoldable pub hydrate : Shared → Payload → ℕ → Hydration
  unfolding hydrate_refs
  hydrate s payload max_bytes = hydrate_refs s payload max_bytes (refs payload)
