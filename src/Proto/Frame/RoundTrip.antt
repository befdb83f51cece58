-- ===== src/Proto/Frame/RoundTrip.antt =====
-- What is put into a frame comes out of it.
use zyris_protocol.Prelude.{
  ℕ, zero, suc, ◌+◌, ◌/◌, ◌%◌, ◌^◌, ◌<◌, ◌≡◌, refl, inl, inr, none, some, [], ◌∷◌, arith,
  Option-cases, Bytes, length, take, drop,
}
use zyris_protocol.Proto.Envelope.{Envelope, msgpack}
use zyris_protocol.Proto.Frame.{
  frame_control, frame_stream_data, CodecError, empty, truncated, unknown_kind, Result, ok, err,
  WireMessage, IncomingFrame, control, stream_data, Codec, IsLossless, from_be_bytes,
  encode_stream_data, encode_control, decode_binary, decode_message, decode_stream_data,
  decode_control,
}

pub from_be_bytes_lem :
    (n : ℕ)
    → n < 2 ^ 32
    → from_be_bytes (n / 2 ^ 24 % 256) (n / 2 ^ 16 % 256) (n / 2 ^ 8 % 256) (n % 256) ≡ n
unfolding from_be_bytes
from_be_bytes_lem n h = omega arith

-- A stream data frame keeps its stream, its sequence number and every byte of its payload, for the
-- stream and the number in the range of a u32.
pub decode_binary-encode_stream_data :
    (codec : Codec) (stream seq : ℕ) (payload : Bytes)
    → stream < 2 ^ 32
    → seq < 2 ^ 32
    → decode_binary codec (encode_stream_data stream seq payload)
      ≡ ok (stream_data stream seq payload)
unfolding decode_binary encode_stream_data
decode_binary-encode_stream_data codec stream seq payload h k =
    ground (arith, from_be_bytes_lem stream h, from_be_bytes_lem seq k)

-- A control message that MessagePack could encode is read back by the receiver, if the library
-- reads back what it writes.
pub decode_message-encode_control :
    (codec : Codec) (e : Envelope) (m : WireMessage)
    → IsLossless codec
    → encode_control codec e msgpack ≡ ok m
    → decode_message codec m ≡ ok (control e)
unfolding decode_message encode_control
decode_message-encode_control codec e m l h = elim (Option-cases (codec.to_vec_named e)) [
  | inl failed ↦ ground arith
  | inr (b, written) ↦ ground (arith, l.reads_back e b written)
]

-- What a result of `decode_binary` says of the frame.
abbrev pub Outcome : Codec → Bytes → Result IncomingFrame → Type 0
Outcome codec frame (ok (control e)) =
    (take 1 frame ≡ frame_control ∷ []) × (codec.from_slice (drop 1 frame) ≡ some e)
Outcome codec frame (ok (stream_data stream seq payload)) =
    (take 1 frame ≡ frame_stream_data ∷ [])
    × (9 + length payload ≡ length frame)
    × (drop 9 frame ≡ payload)
Outcome codec frame (err empty) = frame ≡ []
Outcome codec frame (err truncated) = (take 1 frame ≡ frame_stream_data ∷ []) × (length frame < 9)
Outcome codec frame (err (unknown_kind k)) = (take 1 frame ≡ k ∷ []) × (1 < k)
Outcome codec frame (err CodecError.msgpack_decode) =
    (take 1 frame ≡ frame_control ∷ []) × (codec.from_slice (drop 1 frame) ≡ none)
Outcome codec frame (err _) = ⊥

decode_stream_data-Outcome :
    (codec : Codec) (rest : Bytes)
    → Outcome codec (frame_stream_data ∷ rest) (decode_stream_data rest)
unfolding decode_stream_data
decode_stream_data-Outcome codec (a ∷ b ∷ c ∷ d ∷ e ∷ f ∷ g ∷ h ∷ payload) =
    (refl, omega arith, refl)
decode_stream_data-Outcome codec [] = (refl, omega arith)
decode_stream_data-Outcome codec (a ∷ []) = (refl, omega arith)
decode_stream_data-Outcome codec (a ∷ b ∷ []) = (refl, omega arith)
decode_stream_data-Outcome codec (a ∷ b ∷ c ∷ []) = (refl, omega arith)
decode_stream_data-Outcome codec (a ∷ b ∷ c ∷ d ∷ []) = (refl, omega arith)
decode_stream_data-Outcome codec (a ∷ b ∷ c ∷ d ∷ e ∷ []) = (refl, omega arith)
decode_stream_data-Outcome codec (a ∷ b ∷ c ∷ d ∷ e ∷ f ∷ []) = (refl, omega arith)
decode_stream_data-Outcome codec (a ∷ b ∷ c ∷ d ∷ e ∷ f ∷ g ∷ []) = (refl, omega arith)

decode_control-Outcome :
    (codec : Codec) (body : Bytes)
    → Outcome codec (frame_control ∷ body) (decode_control codec body)
unfolding decode_control
decode_control-Outcome codec body = elim (Option-cases (codec.from_slice body)) [
  | inl e ↦ rw (e, decode_control) (refl, e)
  | inr (v, e) ↦ rw (e, decode_control) (refl, e)
]

-- Every frame is accepted or refused for a reason that is true of it: it is empty, of an unknown
-- kind, a stream data frame of fewer than nine bytes, or a control frame whose body MessagePack
-- refuses. An accepted frame is of the kind that its first byte names, and a stream data frame's
-- payload is all that follows its first nine bytes.
pub decode_binary-Outcome :
    (codec : Codec) (frame : Bytes) → Outcome codec frame (decode_binary codec frame)
unfolding decode_binary
decode_binary-Outcome codec [] = refl
decode_binary-Outcome codec (zero ∷ rest) = decode_control-Outcome codec rest
decode_binary-Outcome codec (suc zero ∷ rest) = decode_stream_data-Outcome codec rest
decode_binary-Outcome codec (suc (suc k) ∷ rest) = ground arith
