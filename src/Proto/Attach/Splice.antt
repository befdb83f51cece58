-- ===== src/Proto/Attach/Splice.antt =====
-- Splices: what they leave alone, and how one into a part is one into the whole.
use zyris_protocol.Prelude.{
  ℕ, ◌≡◌, refl, sym, ap, ◌∙◌, subst, Bool, true, false, Option, none, some, List, [], ◌∷◌, ◌++◌,
  Bytes,
}
use mathlib.Core.List.{append-nil}
use mathlib.Core.Path.{ap₂}
use zyris_protocol.Proto.Value.{
  Value, nil, binary, array, Items, array_end, item, Entries, map_end, field,
}
use zyris_protocol.Proto.Attach.{
  Detached, as_str, as_u64, parse_map, parse_attachment, referenced, names_stream, splice_map,
  splice_item, splice_field, splice, splice_items, splice_entries,
}
use zyris_protocol.Proto.Attach.Outline.{
  Alike, Alike-refl, AllAlike, AllAlike-refl, AllAlike-trans, field-AllAlike, map-Alike,
  referenced-AllAlike, put_entry-AlikeBut,
}

-- All blobs are inline: no datum in the value refers to a stream.
abbrev mutual
  pub IsInline : Value → Type 0
  IsInline (Value.map es) = (referenced es ≡ none) × IsInlineEntries es
  IsInline (array items) = IsInlineItems items
  IsInline _ = Unit {0}

  pub IsInlineItems : Items → Type 0
  IsInlineItems array_end = Unit {0}
  IsInlineItems (item v rest) = IsInline v × IsInlineItems rest

  pub IsInlineEntries : Entries → Type 0
  IsInlineEntries map_end = Unit {0}
  IsInlineEntries (field k v rest) = IsInline v × IsInlineEntries rest

-- A step for each of a list, as long as each finds its place.
unfoldable pub found_then {ℓ κ} : {A : Type ℓ} {B : Type κ} → A × Bool → (A → Option B) → Option B
found_then (a, true) f = f a
found_then (a, false) f = none

unfoldable pub put_back {ℓ} :
    {A : Type ℓ} → (A → ℕ → Bytes → A × Bool) → A → List Detached → Option A
put_back f a [] = some a
put_back f a (d ∷ ds) = found_then (f a d.stream d.bytes) (λ b. put_back f b ds)

-- What `hydrate` does with the bytes of each stream in order; `none` if a reference is missing.
unfoldable pub splice_all : Value → List Detached → Option Value
unfolding put_back found_then
splice_all = put_back splice

-- A splice changes nothing that a reader of references looks at.
splice_map-Alike :
    (es : Entries) (hit : Bool) (nested : Entries × Bool) (b : Bytes)
    → AllAlike es nested.0
    → Alike (Value.map es) (splice_map es hit nested b).0
unfolding splice_map
splice_map-Alike es true nested b h = map-Alike es _ (put_entry-AlikeBut es (binary b))
splice_map-Alike es false (nested, found) b h = map-Alike es nested (λ key _. h key)

splice_field-AllAlike :
    (k v : Value) (rest : Entries) (r : Value × Bool) (later : Entries × Bool)
    → Alike v r.0
    → AllAlike rest later.0
    → AllAlike (field k v rest) (splice_field k r rest later).0
unfolding splice_field
splice_field-AllAlike k v rest (v', true) later h t =
    field-AllAlike k v v' rest rest h (AllAlike-refl rest)
splice_field-AllAlike k v rest (v', false) (rest', found) h t = field-AllAlike k v v' rest rest' h t

mutual
  unfolding splice as_str as_u64 parse_map parse_attachment

  splice-Alike : (v : Value) (s : ℕ) (b : Bytes) → Alike v (splice v s b).0
  splice-Alike (Value.map es) s b =
      splice_map-Alike es (names_stream s (referenced es)) (splice_entries es s b) b
        (splice_entries-AllAlike es s b)
  splice-Alike (array items) s b = record {
    str = refl;
    number = refl;
    inner = refl;
    reference = refl;
  }
  splice-Alike nil s b = Alike-refl nil
  splice-Alike v s b = Alike-refl v

  splice_entries-AllAlike :
      (es : Entries) (s : ℕ) (b : Bytes) → AllAlike es (splice_entries es s b).0
  splice_entries-AllAlike map_end s b = AllAlike-refl map_end
  splice_entries-AllAlike (field k v rest) s b =
      splice_field-AllAlike k v rest (splice v s b) (splice_entries rest s b) (splice-Alike v s b)
        (splice_entries-AllAlike rest s b)

-- Where all is inline a splice finds nothing, and changes nothing.
mutual
  unfolding splice splice_map splice_item splice_field names_stream

  splice-IsInline : (v : Value) (s : ℕ) (b : Bytes) → IsInline v → splice v s b ≡ (v, false)
  splice-IsInline (Value.map es) s b h = rw (h.0, splice_entries-IsInline es s b h.1) refl
  splice-IsInline (array items) s b h = rw (splice_items-IsInline items s b h) refl
  splice-IsInline nil s b h = refl
  splice-IsInline v s b h = refl

  splice_items-IsInline :
      (items : Items) (s : ℕ) (b : Bytes)
      → IsInlineItems items
      → splice_items items s b ≡ (items, false)
  splice_items-IsInline array_end s b h = refl
  splice_items-IsInline (item v rest) s b h =
      ap₂ (λ p q. splice_item p rest q) (splice-IsInline v s b h.0)
        (splice_items-IsInline rest s b h.1)

  splice_entries-IsInline :
      (es : Entries) (s : ℕ) (b : Bytes) → IsInlineEntries es → splice_entries es s b ≡ (es, false)
  splice_entries-IsInline map_end s b h = refl
  splice_entries-IsInline (field k v rest) s b h =
      ap₂ (λ p q. splice_field k p rest q) (splice-IsInline v s b h.0)
        (splice_entries-IsInline rest s b h.1)

-- What is put back into a part is put back into the whole, where a splice that finds its place in
-- the part finds it in the whole.
module _ {A B : Type 0} (f : A → ℕ → Bytes → A × Bool) (g : B → ℕ → Bytes → B × Bool) (c : A → B)
    (P : A → Type 0)
    (inside : (a w : A) (s : ℕ) (b : Bytes)
      → P a
      → f a s b ≡ (w, true)
      → (g (c a) s b ≡ (c w, true)) × P w) where
  pub put_back-under :
      (ds es : List Detached) (a w : A)
      → P a
      → put_back f a ds ≡ some w
      → put_back g (c a) (ds ++ es) ≡ put_back g (c w) es
  unfolding put_back found_then
  put_back-under [] es a w p h = let e : a ≡ w = cc in ap (λ x. put_back g (c x) es) e
  put_back-under (d ∷ ds) es a w p h = go (f a d.stream d.bytes) refl h (put_back-under ds es)
    where
      go :
          (r : A × Bool)
          → f a d.stream d.bytes ≡ r
          → found_then r (λ x. put_back f x ds) ≡ some w
          → ((x y : A)
              → P x
              → put_back f x ds ≡ some y
              → put_back g (c x) (ds ++ es) ≡ put_back g (c y) es)
          → put_back g (c a) (d ∷ (ds ++ es)) ≡ put_back g (c w) es
      go (x, true) e k rec =
          let (here, q) = inside a x d.stream d.bytes p e in
          ap (λ r. found_then r (λ y. put_back g y (ds ++ es))) here ∙ rec x w q k
      go (x, false) e k rec = cc

  pub put_back-within :
      (ds : List Detached) (a w : A)
      → P a
      → put_back f a ds ≡ some w
      → put_back g (c a) ds ≡ some (c w)
  unfolding put_back
  put_back-within ds a w p h =
      ap (put_back g (c a)) (sym (append-nil ds)) ∙ put_back-under ds [] a w p h

abbrev pub Any {ℓ} : {A : Type ℓ} → A → Type 0
Any a = Unit {0}

pub field_first :
    (k : Value) (rest : Entries) (v w : Value) (s : ℕ) (b : Bytes)
    → Any v
    → splice v s b ≡ (w, true)
    → (splice_entries (field k v rest) s b ≡ (field k w rest, true)) × Any w
unfolding splice splice_field
field_first k rest v w s b p h = (ap (λ r. splice_field k r rest (splice_entries rest s b)) h, tt)

pub field_rest :
    (k v : Value) (i : IsInline v) (rest later : Entries) (s : ℕ) (b : Bytes)
    → Any rest
    → splice_entries rest s b ≡ (later, true)
    → (splice_entries (field k v rest) s b ≡ (field k v later, true)) × Any later
unfolding splice splice_field
field_rest k v i rest later s b p h =
    (ap₂ (λ q r. splice_field k q rest r) (splice-IsInline v s b i) h, tt)

pub item_first :
    (rest : Items) (v w : Value) (s : ℕ) (b : Bytes)
    → Any v
    → splice v s b ≡ (w, true)
    → (splice_items (item v rest) s b ≡ (item w rest, true)) × Any w
unfolding splice splice_item
item_first rest v w s b p h = (ap (λ r. splice_item r rest (splice_items rest s b)) h, tt)

pub item_rest :
    (v : Value) (i : IsInline v) (rest later : Items) (s : ℕ) (b : Bytes)
    → Any rest
    → splice_items rest s b ≡ (later, true)
    → (splice_items (item v rest) s b ≡ (item v later, true)) × Any later
unfolding splice splice_item
item_rest v i rest later s b p h =
    (ap₂ (λ q r. splice_item q rest r) (splice-IsInline v s b i) h, tt)

pub inside_array :
    (items later : Items) (s : ℕ) (b : Bytes)
    → Any items
    → splice_items items s b ≡ (later, true)
    → (splice (array items) s b ≡ (array later, true)) × Any later
unfolding splice
inside_array items later s b p h = (ap (λ (r : Items × Bool). (array r.0, r.1)) h, tt)

-- In a map that is no reference itself, also after other splices.
pub inside_map :
    (original : Entries) (none_here : referenced original ≡ none) (es later : Entries) (s : ℕ)
    (b : Bytes)
    → AllAlike original es
    → splice_entries es s b ≡ (later, true)
    → (splice (Value.map es) s b ≡ (Value.map later, true)) × AllAlike original later
unfolding splice splice_map names_stream
inside_map original none_here es later s b p h = (
  ap₂ (λ r q. splice_map es (names_stream s r) q b) (referenced-AllAlike original es p ∙ none_here)
      h,
  AllAlike-trans original es later p
      (subst (AllAlike es) (ap (λ (r : Entries × Bool). r.0) h) (splice_entries-AllAlike es s b)),
)
