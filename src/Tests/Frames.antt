-- ===== src/Tests/Frames.antt =====
-- Frames, method names and node addresses.
use zyris_protocol.Prelude.{◌≡◌, refl, none, some, [], ◌∷◌, arith, Bytes, codes}
use zyris_protocol.Proto.Envelope.{Envelope, NodeAddress, path, parse, cancel}
use zyris_protocol.Proto.Envelope.Address.{IsSegment, parse-path}
use zyris_protocol.Proto.Frame.{
  Codec, IsLossless, stream_data, ok, err, truncated, encode_stream_data, decode_binary,
}
use zyris_protocol.Proto.Frame.RoundTrip.{
  decode_binary-encode_stream_data, decode_binary-Outcome, Outcome,
}

-- A library that can write no message but a cancellation, as the byte of its id.
abbrev cancel_only : Codec
cancel_only = record {
  to_vec_named = λ e. elim e [ cancel id ↦ some (id ∷ []) | _ ↦ none ];
  from_slice = λ b. elim b [ [] ↦ none | id ∷ rest ↦ some (cancel id) ];
  to_string = λ e. none;
  from_str = λ t. none;
}

cancel_only_reads_back :
    (e : Envelope) (b : Bytes)
    → cancel_only.to_vec_named e ≡ some b
    → cancel_only.from_slice b ≡ some e
cancel_only_reads_back (cancel id) b h = ground arith
cancel_only_reads_back _ b h = ground arith

abbrev cancel_only_IsLossless : IsLossless cancel_only
cancel_only_IsLossless = record { reads_back = cancel_only_reads_back }

decode_binary-encode_stream_data_example :
    decode_binary cancel_only (encode_stream_data 258 70000 (1 ∷ 2 ∷ []))
    ≡ ok (stream_data 258 70000 (1 ∷ 2 ∷ []))
decode_binary-encode_stream_data_example =
    decode_binary-encode_stream_data cancel_only 258 70000 (1 ∷ 2 ∷ []) (omega arith) (omega arith)

decode_binary-Outcome_example :
    Outcome cancel_only (1 ∷ 0 ∷ []) (decode_binary cancel_only (1 ∷ 0 ∷ []))
decode_binary-Outcome_example = decode_binary-Outcome cancel_only (1 ∷ 0 ∷ [])

short_frame : decode_binary cancel_only (1 ∷ 0 ∷ []) ≡ err truncated
unfolding decode_binary
short_frame = refl

abbrev laptop : NodeAddress
laptop = record { system = codes "laptop"; program = codes "zyris"; name = codes "repo" }

laptop_IsSegment : IsSegment (codes "repo") × IsSegment (codes "zyris") × IsSegment (codes "laptop")
laptop_IsSegment = ((λ e. cc, omega arith), (λ e. cc, omega arith), (λ e. cc, omega arith))

parse-path_example : parse (path laptop) ≡ some laptop
parse-path_example = parse-path laptop laptop_IsSegment.2 laptop_IsSegment.1 laptop_IsSegment.0
