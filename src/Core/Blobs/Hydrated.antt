-- ===== src/Core/Blobs/Hydrated.antt =====
-- What `hydrate` makes of a payload whose blobs have arrived.
use zyris_protocol.Prelude.{
  ℕ, ◌^◌, ◌≤◌, ◌<◌, ◌≡◌, refl, sym, ap, ◌∙◌, subst, Bool, true, false, Option, none, some, List, [],
  ◌∷◌, ◌++◌, map, arith, ltb, ◌==◌, if◌then◌else◌, ==_refl, Bytes, Text, text_eq, text_eq_refl,
  length, length-append, lookup, remove, lookup-remove,
}
use zyris_protocol.Proto.Value.{Payload}
use zyris_protocol.Proto.Envelope.{s_credit}
use zyris_protocol.Proto.Attach.{AttachmentRef, Detached, Moved, detach}
use zyris_protocol.Core.State.{
  WireResult, success, WriterCmd, StreamEvent, data_chunk, ended, Setting, Shared,
}
use zyris_protocol.Core.Sending.{take_blobs}
use zyris_protocol.Proto.Attach.{digest, reference_of, splice}
use zyris_protocol.Proto.Attach.Splice.{IsInline, splice_all, put_back, found_then}
use zyris_protocol.Proto.Attach.RoundTrip.{splice_all-detach}
use zyris_protocol.Proto.Attach.Found.{refs-detach}
use zyris_protocol.Proto.Attach.Sealed.{AreSealed, detach-AreSealed}
use zyris_protocol.Core.Client.{take_chunk}
use zyris_protocol.Core.Order.{send-only_out}
use zyris_protocol.Core.Sending.{alloc_stream, inline_blob_max}
use zyris_protocol.Core.Blobs.{
  on_channel, gather, checked, digest_check, finish_collect, collect, Hydration, hydrate_with,
  hydrate_refs, hydrate,
}
use mathlib.Core.List.{append-nil, append_assoc}

unfoldable pub joined : List Bytes → Bytes
joined [] = []
joined (b ∷ bs) = b ++ joined bs

-- The events of a stream that ended.
unfoldable pub whole : List Bytes → List StreamEvent
whole [] = ended ∷ []
whole (b ∷ bs) = data_chunk b ∷ whole bs

-- A blob has arrived: its stream was announced with its reference, and what is on the channel is its
-- bytes, in any chunks, and the end.
pub record Arrives (s : Shared) (max_bytes : ℕ) (d : Detached) : Type 0 where
  pub rx : ℕ
  pub pieces : List Bytes
  pub announced :
      lookup s.attachments d.stream ≡ some (record { reference = reference_of d; rx = rx })
  pub complete : on_channel s.events rx ≡ whole pieces
  pub same_bytes : joined pieces ≡ d.bytes
  pub fits : length d.bytes ≤ max_bytes

abbrev pub Differs : ℕ → List Detached → Type 0
Differs stream [] = Unit {0}
Differs stream (d ∷ ds) = ((stream == d.stream) ≡ false) × Differs stream ds

-- All have arrived, on streams that differ.
unfoldable pub HasArrived : Shared → ℕ → List Detached → Type 0
HasArrived s max_bytes [] = Unit {0}
HasArrived s max_bytes (d ∷ ds) =
    Arrives s max_bytes d × Differs d.stream ds × HasArrived s max_bytes ds

module _ (c : Setting) (max_bytes : ℕ) where
  gather-chunk :
      (s : Shared) (stream : ℕ) (buf b : Bytes) (events : List StreamEvent)
      → length (buf ++ b) ≤ max_bytes
      → gather c s stream max_bytes buf (data_chunk b ∷ events)
        ≡ gather c (take_chunk c s stream b) stream max_bytes (buf ++ b) events
  unfolding gather
  gather-chunk s stream buf b events h =
      let within : ltb max_bytes (length (buf ++ b)) ≡ false = ground arith in rw within refl

  take_chunk-only_out :
      (s : Shared) (stream : ℕ) (b : Bytes)
      → take_chunk c s stream b ≡ record s { out = (take_chunk c s stream b).out }
  unfolding take_chunk
  take_chunk-only_out s stream b = send-only_out c s (s_credit stream (length b))

  gather-whole :
      (pieces : List Bytes) (s : Shared) (stream : ℕ) (buf : Bytes)
      → length (buf ++ joined pieces) ≤ max_bytes
      → (o : List WriterCmd) × (gather c s stream max_bytes buf (whole pieces)
          ≡ (record s { out = o }, some (success (buf ++ joined pieces))))
  unfolding gather whole joined
  gather-whole [] s stream buf h = (s.out, ap (λ b. (s, some (success b))) (sym (append-nil buf)))
  gather-whole (b ∷ pieces) s stream buf h =
      let credited = record s { out = (take_chunk c s stream b).out } in
      let shift = append_assoc buf b (joined pieces) in
      let bound : length ((buf ++ b) ++ joined pieces) ≤ max_bytes =
        subst (λ (t : Bytes). length t ≤ max_bytes) (sym shift) h in
      let (o, rest) = gather-whole pieces credited stream (buf ++ b) bound in
      (
        o,
        gather-chunk s stream buf b (whole pieces)
              (omega (arith, length-append (buf ++ b) (joined pieces), bound))
            ∙ ap (λ (t : Shared). gather c t stream max_bytes (buf ++ b) (whole pieces))
                (take_chunk-only_out s stream b)
            ∙ rest
            ∙ ap (λ (t : Bytes). (record s { out = o }, some (success t))) shift,
      )

  collect-found :
      (s : Shared) (stream rx : ℕ) (r : AttachmentRef)
      → lookup s.attachments stream ≡ some (record { reference = r; rx = rx })
      → r.size ≤ max_bytes
      → collect c s stream max_bytes
        ≡ finish_collect c r (
            gather c
              (record s { attachments = remove s.attachments stream })
              stream
              max_bytes
              []
              (on_channel s.events rx))
  unfolding collect
  collect-found s stream rx r h fits =
      let small : ltb max_bytes r.size ≡ false = ground arith in rw (h, collect, small) refl

  checked-sealed :
      (d : Detached)
      → d.sha256 ≡ digest c.hash d.bytes
      → checked c (reference_of d) d.bytes ≡ success d.bytes
  unfolding checked reference_of digest_check
  checked-sealed d sealed =
      let size : (length d.bytes == length d.bytes) ≡ true = ==_refl (length d.bytes) in
      let hash : text_eq (digest c.hash d.bytes) d.sha256 ≡ true =
        ap (λ (t : Text). text_eq (digest c.hash d.bytes) t) sealed
        ∙ text_eq_refl (digest c.hash d.bytes) in
      rw (size, hash) refl

  collect-Arrives :
      (s : Shared) (d : Detached)
      → d.sha256 ≡ digest c.hash d.bytes
      → Arrives s max_bytes d
      → (o : List WriterCmd) × (collect c s d.stream max_bytes ≡ (
        record s { attachments = remove s.attachments d.stream; out = o },
        some (success d.bytes),
      ))
  unfolding finish_collect reference_of
  collect-Arrives s d sealed a =
      let claimed = record s { attachments = remove s.attachments d.stream } in
      let bound : length (joined a.pieces) ≤ max_bytes =
        subst (λ (t : Bytes). length t ≤ max_bytes) (sym a.same_bytes) a.fits in
      let (o, got) = gather-whole a.pieces claimed d.stream [] bound in
      (
        o,
        collect-found s d.stream a.rx (reference_of d) a.announced a.fits
            ∙ ap
                (λ (events : List StreamEvent).
                  finish_collect c (reference_of d) (gather c claimed d.stream max_bytes [] events))
                a.complete
            ∙ ap (finish_collect c (reference_of d)) got
            ∙ ap (λ (t : Bytes). (record claimed { out = o }, some (checked c (reference_of d) t)))
                a.same_bytes
            ∙ ap (λ (t : WireResult Bytes). (record claimed { out = o }, some t))
                (checked-sealed d sealed),
      )

  lookup-remove_ne :
      {V : Type 0} (m : List (ℕ × V)) (k j : ℕ)
      → (k == j) ≡ false
      → lookup (remove m k) j ≡ lookup m j
  lookup-remove_ne m k j h =
      lookup-remove m k j ∙ ap (λ (b : Bool). if b then none else lookup m j) h

  rest-HasArrived :
      (s : Shared) (o : List WriterCmd) (stream : ℕ) (ds : List Detached)
      → Differs stream ds
      → HasArrived s max_bytes ds
      → HasArrived (record s { attachments = remove s.attachments stream; out = o }) max_bytes ds
  unfolding HasArrived
  rest-HasArrived s o stream [] differ h = tt
  rest-HasArrived s o stream (d ∷ ds) (ne, differ) (here, distinct, h) = (
    record {
      rx = here.rx;
      pieces = here.pieces;
      announced = lookup-remove_ne s.attachments stream d.stream ne ∙ here.announced;
      complete = here.complete;
      same_bytes = here.same_bytes;
      fits = here.fits;
    },
    distinct,
    rest-HasArrived s o stream ds differ h,
  )

  found_then-some :
      {A B : Type 0} (r : A × Bool) (f : A → Option B) (b : B)
      → found_then r f ≡ some b
      → f r.0 ≡ some b
  unfolding found_then
  found_then-some (a, true) f b h = h
  found_then-some (a, false) f b h = cc

  hydrate_refs-HasArrived :
      (ds : List Detached) (s : Shared) (p v : Payload)
      → AreSealed c.hash ds
      → HasArrived s max_bytes ds
      → put_back splice p ds ≡ some v
      → let h = hydrate_refs c s p max_bytes (map reference_of ds) in
        (h.payload ≡ v) × (h.outcome ≡ some (success tt))
  unfolding hydrate_refs hydrate_with put_back AreSealed HasArrived reference_of
  hydrate_refs-HasArrived [] s p v sealed here h = (ground arith, refl)
  hydrate_refs-HasArrived (d ∷ ds) s p v (seal, sealed) (here, distinct, later) h =
      let (o, got) = collect-Arrives s d seal here in
      let next = record s { attachments = remove s.attachments d.stream; out = o } in
      let spliced = (splice p d.stream d.bytes).0 in
      let eq =
        ap (hydrate_with c (λ t q. hydrate_refs c t q max_bytes (map reference_of ds)) p d.stream)
          got in
      let (payload, outcome) =
        hydrate_refs-HasArrived ds next spliced v sealed
          (rest-HasArrived s o d.stream ds distinct later)
          (found_then-some (splice p d.stream d.bytes) (λ q. put_back splice q ds) v h) in
      (
        ap (λ (t : Hydration). t.payload) eq ∙ payload,
        ap (λ (t : Hydration). t.outcome) eq ∙ outcome,
      )

alloc_stream-lt : (c : Setting) (n : ℕ) → (alloc_stream c n).0 < 2 ^ 32
unfolding alloc_stream
alloc_stream-lt c n = omega arith

-- When the blobs over the threshold were taken out of a payload whose blobs were all inline, and each
-- has arrived whole on its own stream, in chunks of any sizes, `hydrate` gives the payload as it was
-- before, if no blob is over the caller's limit.
pub hydrate-detach :
    (c : Setting) (receiver : Shared) (threshold max_bytes n : ℕ) (v : Payload)
    → IsInline v
    → let m = detach c.hash (alloc_stream c) threshold v n in
      HasArrived receiver max_bytes m.out
      → let h = hydrate c receiver m.value max_bytes in
        (h.payload ≡ v) × (h.outcome ≡ some (success tt))
unfolding hydrate splice_all
hydrate-detach c receiver threshold max_bytes n v inline arrived =
    let m = detach c.hash (alloc_stream c) threshold v n in
    let eq =
      ap (hydrate_refs c receiver m.value max_bytes)
        (refs-detach c.hash (alloc_stream c) threshold (alloc_stream-lt c) v n inline) in
    let (payload, outcome) =
      hydrate_refs-HasArrived c max_bytes m.out receiver m.value v
        (detach-AreSealed c.hash (alloc_stream c) threshold v n) arrived
        (splice_all-detach c.hash (alloc_stream c) threshold (alloc_stream-lt c) v n inline) in
    (ap (λ (t : Hydration). t.payload) eq ∙ payload, ap (λ (t : Hydration). t.outcome) eq ∙ outcome)

-- The same of an answer, as `reply_res` takes it apart.
pub hydrate-take_blobs :
    (c : Setting) (sender receiver : Shared) (v : Payload) (max_bytes : ℕ)
    → c.attachments_enabled ≡ true
    → IsInline v
    → let m = take_blobs c sender v in
      HasArrived receiver max_bytes m.out
      → let h = hydrate c receiver m.value max_bytes in
        (h.payload ≡ v) × (h.outcome ≡ some (success tt))
unfolding take_blobs
hydrate-take_blobs c sender receiver v max_bytes enabled inline =
    let m = detach c.hash (alloc_stream c) (inline_blob_max c) v sender.next_stream_id in
    let plain : Moved Payload ℕ = record { value = v; next = sender.next_stream_id; out = [] } in
    let eq : take_blobs c sender v ≡ m = ap (λ (b : Bool). if b then m else plain) enabled in
    subst
      (λ (t : Moved Payload ℕ).
        HasArrived receiver max_bytes t.out
        → let h = hydrate c receiver t.value max_bytes in
          (h.payload ≡ v) × (h.outcome ≡ some (success tt)))
      (sym eq)
      (hydrate-detach c receiver (inline_blob_max c) max_bytes sender.next_stream_id v inline)
