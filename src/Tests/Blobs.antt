-- ===== src/Tests/Blobs.antt =====
-- Blobs that leave a payload.
use zyris_protocol.Prelude.{
  text_eq, ℕ, ◌+◌, ◌%◌, ◌^◌, ◌<◌, ◌≡◌, refl, some, [], ◌∷◌, arith, Bytes, codes,
}
use zyris_protocol.Proto.Value.{utf8, Value, string, binary, array, array_end, item, map_end, field}
use zyris_protocol.Proto.Attach.{referenced, is_datum, parse_attachment, detach, reference_of}
use zyris_protocol.Proto.Attach.Splice.{IsInline, splice_all}
use zyris_protocol.Proto.Attach.RoundTrip.{splice_all-detach}
use zyris_protocol.Proto.Value.{nil}
use zyris_protocol.Proto.Envelope.{msgpack, default_limits}
use zyris_protocol.Proto.Attach.{departing, big_blob, detached, Detached}
use zyris_protocol.Core.State.{Setting, Shared, success, data_chunk, ended}
use zyris_protocol.Core.Start.{start, dialer}
use zyris_protocol.Core.Sending.{alloc_stream}
use zyris_protocol.Core.Blobs.{hydrate, on_channel}
use zyris_protocol.Core.Blobs.Hydrated.{HasArrived, whole, joined, hydrate-detach}
use zyris_protocol.Prelude.{lookup, true, none}

abbrev toy_hash : Bytes → Bytes
toy_hash b = b

abbrev by_twos : ℕ → ℕ × ℕ
by_twos n = (n % 2 ^ 32, n + 2)

by_twos_is_u32 : (n : ℕ) → (by_twos n).0 < 2 ^ 32
by_twos_is_u32 n = omega arith

abbrev picture : Value
picture = array (
    item
      (Value.map (
        field (string (utf8 (codes "kind"))) (string (utf8 (codes "image")))
          (field (string (utf8 (codes "blob"))) (binary (1 ∷ 2 ∷ 3 ∷ [])) map_end)))
      array_end)

picture-IsInline : IsInline picture
unfolding referenced is_datum text_eq parse_attachment
picture-IsInline = ((refl, (tt, (tt, tt))), tt)

splice_all-detach_example :
    splice_all (detach toy_hash by_twos 2 picture 1).value (detach toy_hash by_twos 2 picture 1).out
    ≡ some picture
splice_all-detach_example =
    splice_all-detach toy_hash by_twos 2 by_twos_is_u32 picture 1 picture-IsInline

abbrev plain : Setting
plain = record {
  codec = record {
    to_vec_named = λ e. none;
    from_slice = λ b. none;
    to_string = λ e. none;
    from_str = λ s. none;
  };
  describe = λ e. [];
  digits = λ n. [];
  hash = toy_hash;
  to_announce_params = λ p. success [];
  from_announce_result = λ a. success nil;
  to_closing_params = λ p. none;
  serialization = msgpack;
  limits = default_limits;
  reserved = [];
  attachments_enabled = true;
}

abbrev blob : Detached
blob = detached toy_hash (1 ∷ 2 ∷ 3 ∷ []) 1

abbrev receiver : Shared
receiver = record (start dialer []) {
  attachments = (1, record { reference = reference_of blob; rx = 9 }) ∷ [];
  events = (9, data_chunk (1 ∷ [])) ∷ (8, ended) ∷ (9, data_chunk (2 ∷ 3 ∷ [])) ∷ (9, ended) ∷ [];
}

picture-HasArrived : HasArrived receiver 100 (detach toy_hash (alloc_stream plain) 2 picture 1).out
unfolding HasArrived detach departing is_datum text_eq big_blob reference_of detached alloc_stream
    lookup on_channel whole joined
picture-HasArrived = (
  record {
    rx = 9;
    pieces = (1 ∷ []) ∷ (2 ∷ 3 ∷ []) ∷ [];
    announced = refl;
    complete = refl;
    same_bytes = refl;
    fits = omega arith;
  },
  tt,
  tt,
)

hydrate-detach_example :
    let m = detach toy_hash (alloc_stream plain) 2 picture 1 in
    let h = hydrate plain receiver m.value 100 in
    (h.payload ≡ picture) × (h.outcome ≡ some (success tt))
hydrate-detach_example =
    hydrate-detach plain receiver 2 100 1 picture picture-IsInline picture-HasArrived
