-- ===== src/Proto/Attach/RoundTrip.antt =====
-- Putting back the bytes of every blob that left a payload gives the payload that the sender started
-- with.
use zyris_protocol.Prelude.{
  ℕ, ◌%◌, ◌^◌, ◌<◌, ◌≡◌, refl, ap, ◌∙◌, true, Option, none, some, [], ◌∷◌, arith, ◌==◌, Bytes, Text,
  codes, text_eq,
}
use zyris_protocol.Proto.Value.{
  Value, nil, binary, array, Items, array_end, item, Entries, map_end, field,
}
use zyris_protocol.Proto.Attach.{
  AttachmentRef, Detached, as_str, as_u64, entry, put_entry, blob_key, is_datum, and_then,
  parse_map, parse_attachment, text_value, sha_entry, attachment_value, big_blob, referenced,
  departing, Moved, detached, reference_of, leave, detach_map, detach, detach_items, detach_entries,
  names_stream, splice_map, splice, splice_items, splice_entries,
}
use zyris_protocol.Proto.Attach.Outline.{
  Alike, Alike-refl, AllAlike, AllAlike-refl, field-AllAlike, AlikeBut-is_datum, map-Alike,
  entry-put_entry_self, put_entry-put_entry, put_entry-AlikeBut,
}
use zyris_protocol.Proto.Attach.Splice.{
  IsInline, IsInlineItems, IsInlineEntries, found_then, put_back, splice_all, put_back-under,
  put_back-within, Any, field_first, field_rest, item_first, item_rest, inside_array, inside_map,
}

sha256_back : (o : Option Text) → and_then (entry (sha_entry o) (codes "sha256")) as_str ≡ o
unfolding and_then entry sha_entry text_value text_eq
sha256_back none = refl
sha256_back (some t) = refl

-- A reference that was written is read back, its stream cut to 32 bits.
parse-attachment_value :
    (r : AttachmentRef)
    → parse_attachment (attachment_value r) ≡ some (record r { stream = r.stream % 2 ^ 32 })
unfolding parse_attachment attachment_value text_eq
parse-attachment_value r =
    ap (λ (o : Option Text). some (record r { stream = r.stream % 2 ^ 32; sha256 = o }))
      (sha256_back r.sha256)

big_blob-some :
    (threshold : ℕ) (o : Option Value) (bytes : Bytes)
    → big_blob threshold o ≡ some bytes
    → o ≡ some (binary bytes)
unfolding big_blob
big_blob-some threshold (some (binary b)) bytes h = ground arith
big_blob-some threshold _ bytes h = cc

pub departing-some :
    (threshold : ℕ) (es : Entries) (bytes : Bytes)
    → departing threshold es ≡ some bytes
    → (is_datum es ≡ true) × (entry es blob_key ≡ some (binary bytes))
unfolding departing
departing-some threshold es bytes h =
    ground (arith, big_blob-some threshold (entry es blob_key) bytes)

pub referenced-put :
    (es : Entries) (r : AttachmentRef) (old : Value)
    → is_datum es ≡ true
    → entry es blob_key ≡ some old
    → referenced (put_entry es blob_key (attachment_value r))
      ≡ some (record r { stream = r.stream % 2 ^ 32 })
unfolding referenced and_then
referenced-put es r old d e =
    rw
      (
        AlikeBut-is_datum es _ (put_entry-AlikeBut es (attachment_value r)),
        d,
        entry-put_entry_self es blob_key (attachment_value r) old e,
        parse-attachment_value r,
      )
      refl

-- A datum whose blob left gets it back.
leave-restores :
    (threshold : ℕ) (es : Entries) (d : Detached)
    → d.stream < 2 ^ 32
    → departing threshold es ≡ some d.bytes
    → put_back splice
        (Value.map (put_entry es blob_key (attachment_value (reference_of d))))
        (d ∷ [])
      ≡ some (Value.map es)
unfolding put_back found_then splice splice_map names_stream reference_of
leave-restores threshold es d small h =
    let (datum, blob) = departing-some threshold es d.bytes h in
    let at = referenced-put es (reference_of d) (binary d.bytes) datum blob in
    let hit : (d.stream % 2 ^ 32 == d.stream) ≡ true = ground arith in
    rw
      (
        at,
        hit,
        put_entry-put_entry es blob_key (attachment_value (reference_of d)) (binary d.bytes) blob,
      )
      refl

module _ {S : Type 0} (hash : Bytes → Bytes) (alloc : S → ℕ × S) (threshold : ℕ)
    (is_u32 : (s : S) → (alloc s).0 < 2 ^ 32) where
  detach_map-restores :
      (es : Entries) (o : Option Bytes) (rest : Moved Entries S) (s : S)
      → departing threshold es ≡ o
      → referenced es ≡ none
      → AllAlike es rest.value
      → put_back splice_entries rest.value rest.out ≡ some es
      → let m = detach_map hash alloc threshold es o rest s in
        put_back splice m.value m.out ≡ some (Value.map es)
  unfolding detach_map leave detached
  detach_map-restores es (some bytes) rest s h i alike back =
      leave-restores threshold es (detached hash bytes (alloc s).0) (is_u32 s) h
  detach_map-restores es none rest s h i alike back =
      put_back-within splice_entries splice Value.map (AllAlike es) (inside_map es i) rest.out
        rest.value es alike back

  detach_map-Alike :
      (es : Entries) (o : Option Bytes) (rest : Moved Entries S) (s : S)
      → AllAlike es rest.value
      → Alike (Value.map es) (detach_map hash alloc threshold es o rest s).value
  unfolding detach_map leave
  detach_map-Alike es (some bytes) rest s h = map-Alike es _ (put_entry-AlikeBut es _)
  detach_map-Alike es none rest s h = map-Alike es rest.value (λ key _. h key)

  mutual
    unfolding detach as_str as_u64 parse_map parse_attachment

    detach-Alike : (v : Value) (s : S) → Alike v (detach hash alloc threshold v s).value
    detach-Alike (Value.map es) s =
        detach_map-Alike es (departing threshold es) (detach_entries hash alloc threshold es s) s
          (detach_entries-AllAlike es s)
    detach-Alike (array items) s = record {
      str = refl;
      number = refl;
      inner = refl;
      reference = refl;
    }
    detach-Alike nil s = Alike-refl nil
    detach-Alike v s = Alike-refl v

    pub detach_entries-AllAlike :
        (es : Entries) (s : S) → AllAlike es (detach_entries hash alloc threshold es s).value
    detach_entries-AllAlike map_end s = AllAlike-refl map_end
    detach_entries-AllAlike (field k v rest) s =
        let next = (detach hash alloc threshold v s).next in
        field-AllAlike k v _ rest (detach_entries hash alloc threshold rest next).value
          (detach-Alike v s) (detach_entries-AllAlike rest next)

  mutual
    unfolding detach put_back found_then

    restores :
        (v : Value) (s : S)
        → IsInline v
        → let m = detach hash alloc threshold v s in put_back splice m.value m.out ≡ some v
    restores (Value.map es) s h =
        detach_map-restores es (departing threshold es) (detach_entries hash alloc threshold es s) s
          refl h.0 (detach_entries-AllAlike es s) (entries_restores es s h.1)
    restores (array items) s h =
        put_back-within splice_items splice array Any inside_array _ _ items tt
          (items_restores items s h)
    restores nil s h = refl
    restores v s h = refl

    items_restores :
        (items : Items) (s : S)
        → IsInlineItems items
        → let m = detach_items hash alloc threshold items s in
          put_back splice_items m.value m.out ≡ some items
    items_restores array_end s h = refl
    items_restores (item v rest) s h =
        let a = detach hash alloc threshold v s in
        let b = detach_items hash alloc threshold rest a.next in
        put_back-under splice splice_items (λ w. item w b.value) Any (item_first b.value) a.out
          b.out a.value v tt (restores v s h.0)
        ∙ put_back-within splice_items splice_items (item v) Any (item_rest v h.0) b.out b.value
            rest tt (items_restores rest a.next h.1)

    entries_restores :
        (es : Entries) (s : S)
        → IsInlineEntries es
        → let m = detach_entries hash alloc threshold es s in
          put_back splice_entries m.value m.out ≡ some es
    entries_restores map_end s h = refl
    entries_restores (field k v rest) s h =
        let a = detach hash alloc threshold v s in
        let b = detach_entries hash alloc threshold rest a.next in
        put_back-under splice splice_entries (λ w. field k w b.value) Any (field_first k b.value)
          a.out b.out a.value v tt (restores v s h.0)
        ∙ put_back-within splice_entries splice_entries (field k v) Any (field_rest k v h.0) b.out
            b.value rest tt (entries_restores rest a.next h.1)

  -- Detaching the large blobs of a payload whose blobs are all inline, and splicing the bytes of each
  -- stream back in the order in which they were detached, gives the payload again: every splice
  -- finds its reference, whatever the threshold and the stream ids, if these are u32.
  pub splice_all-detach :
      (v : Value) (s : S)
      → IsInline v
      → let m = detach hash alloc threshold v s in splice_all m.value m.out ≡ some v
  unfolding splice_all
  splice_all-detach v s h = restores v s h
