-- ===== src/Proto/Attach/Sealed.antt =====
-- Every blob that leaves a payload carries the digest of its bytes.
use zyris_protocol.Prelude.{ℕ, ◌≡◌, refl, Option, none, some, List, [], ◌∷◌, ◌++◌, Bytes}
use zyris_protocol.Proto.Value.{Value, nil, array, Items, array_end, item, Entries, map_end, field}
use zyris_protocol.Proto.Attach.{
  Detached, departing, Moved, digest, detached, leave, detach_map, detach, detach_items,
  detach_entries,
}

-- Each has the digest of its own bytes.
unfoldable pub AreSealed : (Bytes → Bytes) → List Detached → Type 0
AreSealed hash [] = Unit {0}
AreSealed hash (d ∷ ds) = (d.sha256 ≡ digest hash d.bytes) × AreSealed hash ds

append-AreSealed :
    (hash : Bytes → Bytes) (xs ys : List Detached)
    → AreSealed hash xs
    → AreSealed hash ys
    → AreSealed hash (xs ++ ys)
unfolding AreSealed
append-AreSealed hash [] ys p q = q
append-AreSealed hash (x ∷ xs) ys (here, p) q = (here, append-AreSealed hash xs ys p q)

module _ {S : Type 0} (hash : Bytes → Bytes) (alloc : S → ℕ × S) (threshold : ℕ) where
  detach_map-AreSealed :
      (es : Entries) (o : Option Bytes) (rest : Moved Entries S) (s : S)
      → AreSealed hash rest.out
      → AreSealed hash (detach_map hash alloc threshold es o rest s).out
  unfolding detach_map leave detached AreSealed
  detach_map-AreSealed es (some bytes) rest s h = (refl, tt)
  detach_map-AreSealed es none rest s h = h

  mutual
    unfolding detach AreSealed

    pub detach-AreSealed :
        (v : Value) (s : S) → AreSealed hash (detach hash alloc threshold v s).out
    detach-AreSealed (Value.map es) s =
        detach_map-AreSealed es (departing threshold es) (detach_entries hash alloc threshold es s)
          s (entries-AreSealed es s)
    detach-AreSealed (array items) s = items-AreSealed items s
    detach-AreSealed nil s = tt
    detach-AreSealed v s = tt

    items-AreSealed :
        (items : Items) (s : S) → AreSealed hash (detach_items hash alloc threshold items s).out
    items-AreSealed array_end s = tt
    items-AreSealed (item v rest) s =
        let a = detach hash alloc threshold v s in
        append-AreSealed hash a.out (detach_items hash alloc threshold rest a.next).out
          (detach-AreSealed v s) (items-AreSealed rest a.next)

    entries-AreSealed :
        (es : Entries) (s : S) → AreSealed hash (detach_entries hash alloc threshold es s).out
    entries-AreSealed map_end s = tt
    entries-AreSealed (field k v rest) s =
        let a = detach hash alloc threshold v s in
        append-AreSealed hash a.out (detach_entries hash alloc threshold rest a.next).out
          (detach-AreSealed v s) (entries-AreSealed rest a.next)
