-- ===== src/Proto/Frame.antt =====
-- crates/zyris-proto/src/frame.rs: one frame of the websocket. The serde codecs are parameters.
pub mod RoundTrip
use zyris_protocol.Prelude.{
  ℕ, ◌+◌, ◌-◌, ◌*◌, ◌/◌, ◌%◌, ◌^◌, ◌≤◌, ◌<◌, ◌≡◌, ◌∙◌, ◌≢◌, ◌↔◌, ◌⊎◌, ◌&&◌, ◌||◌, Option, none,
  some, [], ◌∷◌, ◌++◌, ◌==◌, if◌then◌else◌, Bytes, Text,
}
use zyris_protocol.Proto.Envelope.{Envelope, Serialization, msgpack, json}

abbrev pub frame_control : ℕ
frame_control = 0x00

abbrev pub frame_stream_data : ℕ
frame_stream_data = 0x01

pub data CodecError : Type 0 where
  empty truncated msgpack_encode msgpack_decode json_error : CodecError
  unknown_kind : ℕ → CodecError

pub data Result {ℓ} (A : Type ℓ) : Type ℓ where
  ok : A → Result A
  err : CodecError → Result A

pub data WireMessage : Type 0 where
  binary : Bytes → WireMessage
  text : Text → WireMessage

pub data IncomingFrame : Type 0 where
  control : Envelope → IncomingFrame
  stream_data : ℕ → ℕ → Bytes → IncomingFrame

-- What rmp_serde and serde_json do with an envelope; `none` is a failure.
pub record Codec : Type 0 where
  pub to_vec_named : Envelope → Option Bytes
  pub from_slice : Bytes → Option Envelope
  pub to_string : Envelope → Option Text
  pub from_str : Text → Option Envelope

-- MessagePack is read back as it was written. (JSON is not: it turns the bytes of a payload into
-- text.)
pub record IsLossless (c : Codec) : Type 0 where
  pub reads_back : (e : Envelope) (b : Bytes) → c.to_vec_named e ≡ some b → c.from_slice b ≡ some e

-- `u32::to_be_bytes` and `u32::from_be_bytes`.
unfoldable pub to_be_bytes : ℕ → Bytes
to_be_bytes n = n / 2 ^ 24 % 256 ∷ n / 2 ^ 16 % 256 ∷ n / 2 ^ 8 % 256 ∷ n % 256 ∷ []

unfoldable pub from_be_bytes : ℕ → ℕ → ℕ → ℕ → ℕ
from_be_bytes a b c d = a * 2 ^ 24 + b * 2 ^ 16 + c * 2 ^ 8 + d

unfoldable pub encode_stream_data : ℕ → ℕ → Bytes → Bytes
unfolding to_be_bytes
encode_stream_data stream seq payload =
    frame_stream_data ∷ (to_be_bytes stream ++ (to_be_bytes seq ++ payload))

-- The branch of `decode_binary` for stream data, on what follows the kind.
decode_stream_data : Bytes → Result IncomingFrame
decode_stream_data (a ∷ b ∷ c ∷ d ∷ e ∷ f ∷ g ∷ h ∷ payload) =
    ok (stream_data (from_be_bytes a b c d) (from_be_bytes e f g h) payload)
decode_stream_data _ = err truncated

module _ (codec : Codec) where
  unfoldable pub encode_control : Envelope → Serialization → Result WireMessage
  encode_control envelope msgpack = elim (codec.to_vec_named envelope) [
    | none ↦ err msgpack_encode
    | some body ↦ ok (binary (frame_control ∷ body))
  ]
  encode_control envelope json = elim (codec.to_string envelope) [
    | none ↦ err json_error
    | some t ↦ ok (text t)
  ]

  decode_control : Bytes → Result IncomingFrame
  decode_control body = elim (codec.from_slice body) [
    | none ↦ err msgpack_decode
    | some envelope ↦ ok (control envelope)
  ]

  unfoldable pub decode_binary : Bytes → Result IncomingFrame
  unfolding decode_stream_data decode_control from_be_bytes
  decode_binary [] = err empty
  decode_binary (kind ∷ rest) =
      if kind == frame_control
      then decode_control rest
      else if kind == frame_stream_data
      then decode_stream_data rest
      else err (unknown_kind kind)

  unfoldable pub decode_text : Text → Result Envelope
  decode_text t = elim (codec.from_str t) [ none ↦ err json_error | some envelope ↦ ok envelope ]

  -- How the reader takes one message apart (`run_reader` in crates/zyris-core/src/connection.rs).
  unfoldable pub decode_message : WireMessage → Result IncomingFrame
  unfolding decode_binary decode_text
  decode_message (binary bytes) = decode_binary bytes
  decode_message (text t) = elim (decode_text t) [
    | err e ↦ err e
    | ok envelope ↦ ok (control envelope)
  ]
