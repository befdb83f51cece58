-- ===== src/Proto/Envelope.antt =====
-- crates/zyris-proto/src/envelope.rs: the control messages, the handshake and its constants.
pub mod Address
use zyris_protocol.Prelude.{
  ℕ, ◌+◌, ◌-◌, ◌*◌, ◌/◌, ◌%◌, ◌^◌, ◌≤◌, ◌<◌, ◌≡◌, ◌∙◌, ◌≢◌, ◌↔◌, ◌⊎◌, Bool, true, false, ◌&&◌, ◌||◌,
  Option, none, some, List, [], ◌∷◌, ◌++◌, ◌==◌, if◌then◌else◌, Text, codes,
}
use zyris_protocol.Proto.Value.{Payload}
use zyris_protocol.Proto.Error.{WireError}

abbrev pub protocol_major : ℕ
protocol_major = 1

abbrev pub protocol_minor : ℕ
protocol_minor = 0

abbrev pub feature_attachments : Text
feature_attachments = codes "attachments"

abbrev pub feature_cancel : Text
feature_cancel = codes "cancel"

abbrev pub feature_heartbeat : Text
feature_heartbeat = codes "heartbeat"

abbrev pub method_announce : Text
method_announce = codes "zyris.announce"

abbrev pub method_closing : Text
method_closing = codes "zyris.closing"

abbrev pub method_heartbeat : Text
method_heartbeat = codes "zyris.heartbeat"

pub data Serialization : Type 0 where
  msgpack json : Serialization

pub record HelloProtocol : Type 0 where
  pub major : ℕ
  pub minors_supported : List ℕ

pub record AckProtocol : Type 0 where
  pub major : ℕ
  pub minor : ℕ

pub record ResumeInfo : Type 0 where
  pub conn_id : Text
  pub resume_token : Text

pub record HeartbeatConfig : Type 0 where
  pub interval_s : ℕ
  pub timeout_s : ℕ

abbrev pub default_heartbeat : HeartbeatConfig
default_heartbeat = record { interval_s = 20; timeout_s = 45 }

pub record Limits : Type 0 where
  pub max_control_frame : ℕ
  pub max_chunk : ℕ
  pub max_inflight_reqs : ℕ
  pub initial_stream_credit : ℕ

abbrev pub default_limits : Limits
default_limits = record {
  max_control_frame = 8 * 1024 * 1024;
  max_chunk = 256 * 1024;
  max_inflight_reqs = 64;
  initial_stream_credit = 256 * 1024;
}

pub record Hello : Type 0 where
  pub protocol : HelloProtocol
  pub serialization : List Serialization
  pub agent : Text
  pub kind : Option Text
  pub node_name : Option Text
  pub features : List Text
  pub resume : Option ResumeInfo

pub record NodeAddress : Type 0 where
  pub system : Text
  pub program : Text
  pub name : Text

pub record HelloAck : Type 0 where
  pub protocol : AckProtocol
  pub serialization : Serialization
  pub conn_id : Text
  pub resume_token : Text
  pub node_id : Text
  pub node : Option NodeAddress
  pub heartbeat : HeartbeatConfig
  pub limits : Limits
  pub resumed : Bool
  pub features : List Text

pub record StreamDecl : Type 0 where
  pub id : ℕ

pub data Envelope : Type 0 where
  hello : Hello → Envelope
  hello_ack : HelloAck → Envelope
  req : ℕ → Text → Payload → Option StreamDecl → Payload → Envelope
  res : ℕ → Payload → Envelope
  err : ℕ → WireError → Envelope
  note : Text → Payload → Envelope
  prog : ℕ → Payload → Envelope
  cancel : ℕ → Envelope
  s_credit : ℕ → ℕ → Envelope
  s_end : ℕ → Payload → Envelope
  s_err : ℕ → WireError → Envelope
  s_cancel : ℕ → Envelope

-- `NodeAddress::path`.
unfoldable pub path : NodeAddress → Text
path a = a.system ++ (b'/' ∷ (a.program ++ (b'/' ∷ a.name)))

-- `str::split`: the segments between the separators, at least one.
unfoldable pub split : ℕ → Text → List Text
split sep [] = [] ∷ []
split sep (c ∷ cs) =
    if c == sep
    then [] ∷ split sep cs
    else elim (split sep cs) [ [] ↦ (c ∷ []) ∷ [] | s ∷ ss ↦ (c ∷ s) ∷ ss ]

unfoldable pub is_empty {ℓ} : {A : Type ℓ} → List A → Bool
is_empty [] = true
is_empty (x ∷ xs) = false

from_segments : List Text → Option NodeAddress
from_segments (system ∷ program ∷ name ∷ []) =
    if is_empty system || (is_empty program || is_empty name)
    then none
    else some (record { system = system; program = program; name = name })
from_segments _ = none

-- `NodeAddress::parse`.
unfoldable pub parse : Text → Option NodeAddress
unfolding split is_empty from_segments
parse text = from_segments (split b'/' text)
