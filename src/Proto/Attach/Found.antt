-- ===== src/Proto/Attach/Found.antt =====
-- The receiver finds every blob that left a payload.
use zyris_protocol.Prelude.{
  ℕ, ◌%◌, ◌^◌, ◌<◌, ◌≡◌, refl, sym, ap, ◌∙◌, Option, none, some, [], ◌∷◌, ◌++◌, map, arith, Bytes,
}
use mathlib.Core.Path.{ap₂}
use mathlib.Core.List.{map-append}
use zyris_protocol.Proto.Value.{
  Value, nil, binary, array, Items, array_end, item, Entries, map_end, field,
}
use zyris_protocol.Proto.Attach.{
  put_entry, blob_key, attachment_value, referenced, departing, Moved, detached, reference_of,
  leave, detach_map, detach, detach_items, detach_entries, refs_map, refs, refs_items, refs_entries,
}
use zyris_protocol.Proto.Attach.Outline.{AllAlike, referenced-AllAlike}
use zyris_protocol.Proto.Attach.RoundTrip.{departing-some, referenced-put, detach_entries-AllAlike}
use zyris_protocol.Proto.Attach.Splice.{IsInline, IsInlineItems, IsInlineEntries}

module _ {S : Type 0} (hash : Bytes → Bytes) (alloc : S → ℕ × S) (threshold : ℕ)
    (is_u32 : (s : S) → (alloc s).0 < 2 ^ 32) where
  detach_map-refs :
      (es : Entries) (o : Option Bytes) (rest : Moved Entries S) (s : S)
      → departing threshold es ≡ o
      → referenced es ≡ none
      → AllAlike es rest.value
      → refs_entries rest.value ≡ map reference_of rest.out
      → let m = detach_map hash alloc threshold es o rest s in refs m.value ≡ map reference_of m.out
  unfolding detach_map leave detached refs refs_map reference_of
  detach_map-refs es (some bytes) rest s h i alike e =
      let (datum, blob) = departing-some threshold es bytes h in
      let d = detached hash bytes (alloc s).0 in
      let at = referenced-put es (reference_of d) (binary bytes) datum blob in
      let small : (alloc s).0 % 2 ^ 32 ≡ (alloc s).0 = omega (arith, is_u32 s) in
      ap
        (λ o. refs_map o (refs_entries (put_entry es blob_key (attachment_value (reference_of d)))))
        at
      ∙ ap (λ (n : ℕ). record (reference_of d) { stream = n } ∷ []) small
  detach_map-refs es none rest s h i alike e =
      ap (λ o. refs_map o (refs_entries rest.value)) (referenced-AllAlike es rest.value alike ∙ i)
      ∙ e

  mutual
    unfolding detach refs

    found :
        (v : Value) (s : S)
        → IsInline v
        → let m = detach hash alloc threshold v s in refs m.value ≡ map reference_of m.out
    found (Value.map es) s h =
        detach_map-refs es (departing threshold es) (detach_entries hash alloc threshold es s) s
          refl h.0 (detach_entries-AllAlike hash alloc threshold is_u32 es s)
          (entries_found es s h.1)
    found (array items) s h = items_found items s h
    found nil s h = refl
    found v s h = refl

    items_found :
        (items : Items) (s : S)
        → IsInlineItems items
        → let m = detach_items hash alloc threshold items s in
          refs_items m.value ≡ map reference_of m.out
    items_found array_end s h = refl
    items_found (item v rest) s h =
        let a = detach hash alloc threshold v s in
        let b = detach_items hash alloc threshold rest a.next in
        ap₂ ◌++◌ (found v s h.0) (items_found rest a.next h.1)
        ∙ sym (map-append reference_of a.out b.out)

    entries_found :
        (es : Entries) (s : S)
        → IsInlineEntries es
        → let m = detach_entries hash alloc threshold es s in
          refs_entries m.value ≡ map reference_of m.out
    entries_found map_end s h = refl
    entries_found (field k v rest) s h =
        let a = detach hash alloc threshold v s in
        let b = detach_entries hash alloc threshold rest a.next in
        ap₂ ◌++◌ (found v s h.0) (entries_found rest a.next h.1)
        ∙ sym (map-append reference_of a.out b.out)

  -- The references that the receiver finds in what is left are exactly those of the blobs that were
  -- detached, in the same order, each with its stream, its size and its digest.
  pub refs-detach :
      (v : Value) (s : S)
      → IsInline v
      → let m = detach hash alloc threshold v s in refs m.value ≡ map reference_of m.out
  refs-detach v s h = found v s h
