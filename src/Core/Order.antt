-- ===== src/Core/Order.antt =====
-- The chunks of a stream arrive in the order of their numbers, or the stream fails.
use zyris_protocol.Prelude.{
  ℕ, ◌+◌, ◌%◌, ◌^◌, ◌≡◌, refl, sym, ap, ◌∙◌, ◌≢◌, Bool, true, false, none, some, List, [], ◌∷◌,
  ◌++◌, arith, ◌==◌, if◌then◌else◌, ==_refl, Bytes, if-elim, lookup, remove, insert, lookup-remove,
  lookup-insert,
}
use zyris_protocol.Proto.Envelope.{Envelope, s_cancel}
use zyris_protocol.Proto.Frame.{
  WireMessage, binary, IncomingFrame, control, stream_data, encode_stream_data,
}
use zyris_protocol.Core.State.{
  send, StreamEvent, data_chunk, failed, IncomingStreamEntry, Setting, Shared,
}
use zyris_protocol.Core.Sending.{put_out, tell, send_envelope}
use zyris_protocol.Proto.Frame
use mathlib.Core.List.{append-nil, append_assoc}
use zyris_protocol.Core.Receiving.{handle_data, lag}

-- The frames of chunks in turn, numbered from `seq` on as the sending task numbers them.
unfoldable pub feed : Setting → Shared → ℕ → ℕ → List Bytes → Shared
feed c s stream seq [] = s
feed c s stream seq (chunk ∷ chunks) =
    feed c (handle_data c s stream seq chunk) stream ((seq + 1) % 2 ^ 32) chunks

unfoldable pub deliveries : ℕ → List Bytes → List (ℕ × StreamEvent)
deliveries tx [] = []
deliveries tx (chunk ∷ chunks) = (tx, data_chunk chunk) ∷ deliveries tx chunks

in_turn :
    (c : Setting) (s : Shared) (stream : ℕ) (chunk : Bytes) (entry : IncomingStreamEntry)
    → lookup s.incoming stream ≡ some entry
    → handle_data c s stream entry.next_seq chunk ≡ record s {
      incoming =
          insert s.incoming stream (record entry { next_seq = (entry.next_seq + 1) % 2 ^ 32 });
      events = s.events ++ ((entry.tx, data_chunk chunk) ∷ []);
    }
unfolding handle_data tell
in_turn c s stream chunk entry h =
    let same : (entry.next_seq == entry.next_seq) ≡ true = ==_refl entry.next_seq in
    rw (h, handle_data, same) refl

-- A receiver that expects the number `seq` of a stream gets every chunk of frames numbered from
-- `seq` on, in order and with nothing between them, on the channel of the stream.
pub feed-deliveries :
    (c : Setting) (chunks : List Bytes) (s : Shared) (stream seq : ℕ) (tx : ℕ)
    → lookup s.incoming stream ≡ some (record { tx = tx; next_seq = seq })
    → (feed c s stream seq chunks).events ≡ s.events ++ deliveries tx chunks
unfolding feed deliveries
feed-deliveries c [] s stream seq tx h = sym (append-nil s.events)
feed-deliveries c (chunk ∷ chunks) s stream seq tx h =
    let entry : IncomingStreamEntry = record { tx = tx; next_seq = (seq + 1) % 2 ^ 32 } in
    let later = record s {
      incoming = insert s.incoming stream entry;
      events = s.events ++ ((tx, data_chunk chunk) ∷ []);
    } in
    let found : lookup later.incoming stream ≡ some entry =
      lookup-insert s.incoming stream stream entry
      ∙ ap (λ (b : Bool). if b then some entry else lookup s.incoming stream) (==_refl stream) in
    ap (λ (t : Shared). (feed c t stream ((seq + 1) % 2 ^ 32) chunks).events)
      (in_turn c s stream chunk (record { tx = tx; next_seq = seq }) h)
    ∙ feed-deliveries c chunks later stream ((seq + 1) % 2 ^ 32) tx found
    ∙ append_assoc s.events ((tx, data_chunk chunk) ∷ []) (deliveries tx chunks)

-- Sending changes nothing but what is sent.
pub send-only_out :
    (c : Setting) (s : Shared) (e : Envelope)
    → send_envelope c s e ≡ record s { out = (send_envelope c s e).out }
unfolding send_envelope put_out
send-only_out c s e =
    elim (Frame.encode_control c.codec e c.serialization)
      as (λ o.
        let after = elim o as (λ _. Shared) [
          | Frame.err x ↦ s
          | Frame.ok msg ↦ if s.writer_alive then record s { out = s.out ++ (send msg ∷ []) } else s
        ] in
        after ≡ record s { out = after.out }) [
          | Frame.err x ↦ refl
          | Frame.ok msg ↦ if-elim (λ t. t ≡ record s { out = t.out }) s.writer_alive refl refl
        ]

out_of_turn :
    (c : Setting) (s : Shared) (stream seq : ℕ) (chunk : Bytes) (entry : IncomingStreamEntry)
    → lookup s.incoming stream ≡ some entry
    → (seq == entry.next_seq) ≡ false
    → handle_data c s stream seq chunk
      ≡ send_envelope c
          (tell
            (record s { incoming = remove s.incoming stream })
            entry.tx
            (failed (lag c entry.next_seq seq)))
          (s_cancel stream)
unfolding handle_data tell
out_of_turn c s stream seq chunk entry h ne = rw (h, handle_data, ne) refl

unknown :
    (c : Setting) (s : Shared) (stream seq : ℕ) (chunk : Bytes)
    → lookup s.incoming stream ≡ none
    → handle_data c s stream seq chunk ≡ s
unfolding handle_data
unknown c s stream seq chunk h = rw (h, handle_data) refl

-- A number that is not the expected one ends the stream: the reader is told the gap, behind what it
-- got, and no later frame of the stream has an effect.
pub handle_data-gap :
    (c : Setting) (s : Shared) (stream seq : ℕ) (chunk : Bytes) (entry : IncomingStreamEntry)
    → lookup s.incoming stream ≡ some entry
    → seq ≢ entry.next_seq
    → let gone = handle_data c s stream seq chunk in
      (gone.events ≡ s.events ++ ((entry.tx, failed (lag c entry.next_seq seq)) ∷ []))
      × ((later : ℕ) (more : Bytes) → handle_data c gone stream later more ≡ gone)
unfolding tell
handle_data-gap c s stream seq chunk entry h ne =
    let event : ℕ × StreamEvent = (entry.tx, failed (lag c entry.next_seq seq)) in
    let cut = record s { incoming = remove s.incoming stream; events = s.events ++ (event ∷ []) } in
    let differs : (seq == entry.next_seq) ≡ false = ground arith in
    let sent =
      out_of_turn c s stream seq chunk entry h differs ∙ send-only_out c cut (s_cancel stream) in
    let no_entry : lookup (remove s.incoming stream) stream ≡ none =
      lookup-remove s.incoming stream stream
      ∙ ap (λ (b : Bool). if b then none else lookup s.incoming stream) (==_refl stream) in
    let gone : lookup (handle_data c s stream seq chunk).incoming stream ≡ none =
      ap (λ (t : Shared). lookup t.incoming stream) sent ∙ no_entry in
    (
      ap (λ (t : Shared). t.events) sent,
      λ later more. unknown c (handle_data c s stream seq chunk) stream later more gone,
    )
