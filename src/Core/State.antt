-- ===== src/Core/State.antt =====
-- What a connection keeps (`Shared`), with the cells that its tasks share by `Arc` in lists: a
-- place in the list stands for the shared pointer. A channel is a number; what was sent on it is
-- in the log `events`, oldest first.
use zyris_protocol.Prelude.{ℕ, Bool, Option, List, Bytes, Text}
use zyris_protocol.Proto.Error.{WireError}
use zyris_protocol.Proto.Value.{Payload}
use zyris_protocol.Proto.Envelope.{Serialization, Limits}
use zyris_protocol.Proto.Capability.{CapabilityDescriptor, AnnounceResult}
use zyris_protocol.Proto.Frame.{Codec, CodecError, WireMessage}
use zyris_protocol.Proto.Attach.{AttachmentRef, Detached}
use zyris_protocol.Core.Credit.{CreditState}

-- `Result<_, WireError>`.
pub data WireResult {ℓ} (A : Type ℓ) : Type ℓ where
  success : A → WireResult A
  failure : WireError → WireResult A

pub data CloseReason : Type 0 where
  graceful transport protocol heartbeat : Text → CloseReason

pub data WriterCmd : Type 0 where
  send : WireMessage → WriterCmd
  close : ℕ → Text → WriterCmd

pub data StreamEvent : Type 0 where
  data_chunk : Bytes → StreamEvent
  ended : StreamEvent
  failed : WireError → StreamEvent

pub record IncomingStreamEntry : Type 0 where
  pub tx : ℕ
  pub next_seq : ℕ

pub record PendingAttachment : Type 0 where
  pub reference : AttachmentRef
  pub rx : ℕ

-- The call's task is a place in `calls`, which holds the flags that both sides share.
pub record InflightCall : Type 0 where
  pub capability : Text
  pub task : ℕ
  pub stream : Option ℕ

-- Where the task of a call is: at the dispatch, in the loop over the items of its stream (with its
-- gate and the next sequence number), or behind it.
pub data Stage : Type 0 where
  dispatching finished : Stage
  streaming : ℕ → ℕ → ℕ → Stage

pub record CallTask : Type 0 where
  pub id : ℕ
  pub stream_id : Option ℕ
  pub replied : Bool
  pub done : Bool
  pub aborted : Bool
  pub stage : Stage

-- What a connection is set up with, the libraries it calls included: serde, the text of a codec
-- error and of a number, and SHA-256.
pub record Setting : Type 0 where
  pub codec : Codec
  pub describe : CodecError → Text
  pub digits : ℕ → Text
  pub hash : Bytes → Bytes
  pub to_announce_params : Payload → WireResult (List CapabilityDescriptor)
  pub from_announce_result : AnnounceResult → WireResult Payload
  pub to_closing_params : Payload → Option Text
  pub serialization : Serialization
  pub limits : Limits
  pub reserved : List Text
  pub attachments_enabled : Bool

-- `pending` and `results` stand for the waiting callers and what they were told; `spawned` holds
-- the blobs whose sending task was started; `caps` the names that are served.
pub record Shared : Type 0 where
  pub out : List WriterCmd
  pub writer_alive : Bool
  pub next_req_id : ℕ
  pub next_stream_id : ℕ
  pub pending : List (ℕ × ℕ)
  pub results : List (ℕ × WireResult Payload)
  pub next_channel : ℕ
  pub incoming : List (ℕ × IncomingStreamEntry)
  pub events : List (ℕ × StreamEvent)
  pub gates : List CreditState
  pub credits : List (ℕ × ℕ)
  pub attachments : List (ℕ × PendingAttachment)
  pub spawned : List Detached
  pub inflight : List (ℕ × InflightCall)
  pub calls : List CallTask
  pub caps : List Text
  pub peer_caps : List CapabilityDescriptor
  pub announced : ℕ
  pub graceful : Option Text
  pub closed : Option CloseReason
