-- ===== src/Tests/Links.antt =====
-- Runs of a connection whose library can write the answers to announcements only.
use zyris_protocol.Prelude.{
  ℕ, zero, suc, ◌≤◌, ◌<◌, ◌≡◌, refl, ◌⊎◌, true, Option, none, some, List, [], ◌∷◌, arith, ◌==◌,
  if◌then◌else◌, Bytes, Text, codes, length, take, lookup,
}
use zyris_protocol.Proto.Envelope.{Envelope, req, res, method_announce}
use zyris_protocol.Proto.Capability.{CapabilityDescriptor}
use zyris_protocol.Proto.Frame.{
  WireMessage, binary, IncomingFrame, control, stream_data, encode_stream_data,
}
use zyris_protocol.Core.State.{
  success, CloseReason, data_chunk, failed, IncomingStreamEntry, Setting, Shared,
}
use zyris_protocol.Proto.Value.{nil}
use zyris_protocol.Proto.Envelope.{msgpack, default_limits}
use zyris_protocol.Proto.Frame
use zyris_protocol.Proto.Frame.{Codec, encode_control, decode_message, decode_binary, decode_text}
use zyris_protocol.Core.State.{transport}
use zyris_protocol.Core.Start.{start, acceptor}
use zyris_protocol.Core.Receiving.{handle_data, lag}
use zyris_protocol.Core.Ending.{shutdown}
use zyris_protocol.Core.Ending.Outcome.{IsShut, shutdown-IsShut}
use zyris_protocol.Core.Order.{feed, deliveries, feed-deliveries, handle_data-gap}
use zyris_protocol.Core.CloseReason.{truncate_close_reason, truncate_close_reason-IsCut, IsCut}
use zyris_protocol.Core.Answers.{Event, arrived, run}
use zyris_protocol.Core.Answers.Base.{answers, IsReadBack}
use zyris_protocol.Core.Answers.Once.{requests, answers-run}
use zyris_protocol.Prelude.{◌+◌}
use zyris_protocol.Core.Credit.{open_gate}
use zyris_protocol.Core.Credit.Flow.{
  Demand, asked, given, stopped, settle, total_given, settle-open_gate,
}

abbrev write_answer : Envelope → Option Bytes
write_answer (res id nil) = some (1 ∷ id ∷ [])
write_answer _ = none

abbrev read_body : Bytes → Option Envelope
read_body (kind ∷ id ∷ []) =
    if kind == 1 then some (res id nil) else some (req id method_announce nil none nil)
read_body _ = none

abbrev toy_codec : Codec
toy_codec = record {
  to_vec_named = write_answer;
  from_slice = read_body;
  to_string = λ e. none;
  from_str = λ t. none;
}

abbrev pub toy : Setting
toy = record {
  codec = toy_codec;
  describe = λ e. [];
  digits = λ n. [];
  hash = λ b. b;
  to_announce_params = λ p. success [];
  from_announce_result = λ a. success nil;
  to_closing_params = λ p. none;
  serialization = msgpack;
  limits = default_limits;
  reserved = [];
  attachments_enabled = true;
}

toy_reads_back :
    (e : Envelope) (m : WireMessage)
    → encode_control toy_codec e msgpack ≡ Frame.ok m
    → decode_message toy_codec m ≡ Frame.ok (control e)
unfolding encode_control decode_message decode_binary
toy_reads_back (res id nil) m h = ground arith
toy_reads_back _ m h = ground arith

toy-IsReadBack : IsReadBack toy
toy-IsReadBack = record { reads_back = toy_reads_back }

abbrev two_announcements : List Event
two_announcements = arrived (binary (0 ∷ 2 ∷ 7 ∷ [])) [] ∷ arrived (binary (0 ∷ 2 ∷ 7 ∷ [])) [] ∷ []

answers-run_example :
    answers toy 7 (run toy (start acceptor []) two_announcements).out
    ≤ requests toy 7 two_announcements
answers-run_example = answers-run toy 7 acceptor [] two_announcements toy-IsReadBack

-- A connection that waits for the third chunk of stream 2.
abbrev reading : Shared
reading = record (start acceptor []) { incoming = (2, record { tx = 5; next_seq = 2 }) ∷ [] }

abbrev third : IncomingStreamEntry
third = record { tx = 5; next_seq = 2 }

feed-deliveries_example :
    (feed toy reading 2 2 ((1 ∷ []) ∷ (4 ∷ 9 ∷ []) ∷ [])).events
    ≡ (5, data_chunk (1 ∷ [])) ∷ (5, data_chunk (4 ∷ 9 ∷ [])) ∷ []
unfolding deliveries lookup
feed-deliveries_example = feed-deliveries toy ((1 ∷ []) ∷ (4 ∷ 9 ∷ []) ∷ []) reading 2 2 5 refl

handle_data-gap_example :
    let gone = handle_data toy reading 2 4 (1 ∷ []) in
    (gone.events ≡ (5, failed (lag toy 2 4)) ∷ [])
    × ((later : ℕ) (more : Bytes) → handle_data toy gone 2 later more ≡ gone)
unfolding lookup
handle_data-gap_example = handle_data-gap toy reading 2 4 (1 ∷ []) third refl (omega arith)

abbrev lost : CloseReason
lost = transport (codes "connection closed")

shutdown-IsShut_example : IsShut reading lost (shutdown reading lost)
shutdown-IsShut_example = shutdown-IsShut reading lost

abbrev files : CapabilityDescriptor
files = record { name = codes "fs"; version = 1; tools = [] }

abbrev terminals : CapabilityDescriptor
terminals = record { name = codes "terminal"; version = 1; tools = [] }

abbrev guarded : Setting
guarded = record toy {
  reserved = codes "fs" ∷ [];
  to_announce_params = λ p. success (files ∷ terminals ∷ []);
}

-- The byte of `é` that stands at 123 belongs to the character before it.
abbrev accents : ℕ → Text
accents zero = []
accents (suc n) = 0xC3 ∷ 0xA9 ∷ accents n

truncate_close_reason-IsCut_example :
    ((length (accents 100) ≤ 123) × (truncate_close_reason (accents 100) ≡ accents 100))
    ⊎ ((cut : ℕ) × ((123 < length (accents 100))
          × (IsCut (accents 100) 123 cut
              × (truncate_close_reason (accents 100) ≡ take cut (accents 100)))))
truncate_close_reason-IsCut_example = truncate_close_reason-IsCut (accents 100)

abbrev demands : List Demand
demands = asked 3 ∷ asked 3 ∷ given 2 ∷ asked 3 ∷ stopped ∷ asked 1 ∷ []

settle-open_gate_example :
    (settle (record { gate = open_gate 4; paid = 0 }) demands).paid
      + (settle (record { gate = open_gate 4; paid = 0 }) demands).gate.available
    ≡ 6
unfolding total_given
settle-open_gate_example = settle-open_gate 4 demands (omega arith)
