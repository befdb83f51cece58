-- ===== src/Core/Answers.antt =====
-- The events of a connection's life, in any order, and what it owes: at every moment it has sent at
-- most one answer for each request that arrived.
pub mod Base
pub mod Sending
pub mod Serving
pub mod Requests
pub mod Receiving
pub mod Frames
pub mod Once
use zyris_protocol.Prelude.{
  ℕ, ◌+◌, ◌-◌, ◌*◌, ◌/◌, ◌%◌, ◌^◌, ◌≤◌, ◌<◌, ◌≡◌, ◌∙◌, ◌≢◌, ◌↔◌, ◌⊎◌, false, ◌&&◌, ◌||◌, Option,
  none, some, List, [], ◌∷◌, ◌++◌, ◌==◌, if◌then◌else◌, Bytes, Text,
}
use zyris_protocol.Proto.Value.{Payload}
use zyris_protocol.Proto.Frame.{WireMessage}
use zyris_protocol.Core.Credit
use zyris_protocol.Core.State.{Setting, Shared}
use zyris_protocol.Proto.Frame
use zyris_protocol.Core.Serving.{Progress, task_step}
use zyris_protocol.Core.Requests.{revoke_inflight}
use zyris_protocol.Core.Receiving.{sweep}
use zyris_protocol.Core.Ending.{read_message, read_closed, read_failed, lapsed, write_failed}
use zyris_protocol.Core.Client.{
  request, call_streaming, drop_stream, take_chunk, notify, close_connection, attachment,
}

pub data Event : Type 0 where
  arrived : WireMessage → List Progress → Event
  progressed : ℕ → Progress → Event
  swept : ℕ → Event
  revoked : Text → Option ℕ → Event
  served : List Text → Event
  requested : Text → Payload → Payload → Event
  opened : Text → Payload → Event
  dropped : ℕ → Event
  taken : ℕ → Bytes → Event
  noted : Text → Payload → Event
  closing : Payload → Text → Event
  claimed : ℕ → Event
  reader_closed watchdog_lapsed writer_ended : Event
  reader_failed writer_failed : Text → Event

abbrev pub or_stay : Shared → Option Shared → Shared
or_stay s none = s
or_stay s (some next) = next

module _ (c : Setting) where
  unfoldable pub step : Shared → Event → Shared
  unfolding read_message task_step sweep revoke_inflight request call_streaming drop_stream
      take_chunk notify close_connection attachment read_closed read_failed lapsed write_failed
  step s (arrived msg early) = read_message c s msg early
  step s (progressed k p) = or_stay s (task_step c s k p)
  step s (swept stream) = sweep c s stream
  step s (revoked capability caller) = revoke_inflight c s capability caller
  step s (served names) = record s { caps = names }
  step s (requested method params meta) = (request c s method params none meta).0
  step s (opened method params) = (call_streaming c s method params).0
  step s (dropped stream) = drop_stream c s stream
  step s (taken stream bytes) = take_chunk c s stream bytes
  step s (noted method params) = notify c s method params
  step s (closing params reason) = close_connection c s params reason
  step s (claimed stream) = (attachment s stream).0
  step s reader_closed = read_closed s
  step s watchdog_lapsed = lapsed s
  step s writer_ended = record s { writer_alive = false }
  step s (reader_failed message) = read_failed s message
  step s (writer_failed message) = write_failed s message

  unfoldable pub run : Shared → List Event → Shared
  unfolding step
  run s [] = s
  run s (e ∷ es) = run (step s e) es
