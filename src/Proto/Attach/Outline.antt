-- ===== src/Proto/Attach/Outline.antt =====
-- What the walks leave alone in a value: a text, a number, and what is read as a reference.
use zyris_protocol.Prelude.{
  ◌≡◌, refl, sym, ap, ◌∙◌, subst, inl, inr, true, false, Option, none, some, arith, Bool-cases,
  Text, codes, text_eq, text_eq_iff,
}
use zyris_protocol.Proto.Value.{Value, Entries, map_end, field}
use zyris_protocol.Proto.Attach.{
  as_str, as_u64, key_is, entry, put_entry, blob_key, is_datum, and_then, parse_inner, parse_map,
  parse_attachment, referenced, is_blob_kind,
}

-- Values that a reader of references cannot tell apart.
pub record Alike (v v' : Value) : Type 0 where
  pub str : as_str v' ≡ as_str v
  pub number : as_u64 v' ≡ as_u64 v
  pub inner : parse_map (some v') ≡ parse_map (some v)
  pub reference : parse_attachment v' ≡ parse_attachment v

pub Alike-refl : (v : Value) → Alike v v
Alike-refl v = record { str = refl; number = refl; inner = refl; reference = refl }

pub Alike-trans : {u v w : Value} → Alike u v → Alike v w → Alike u w
Alike-trans h k = record {
  str = k.str ∙ h.str;
  number = k.number ∙ h.number;
  inner = k.inner ∙ h.inner;
  reference = k.reference ∙ h.reference;
}

-- Entries that are alike at a key.
pub data AlikeAt : Option Value → Option Value → Type 0 where
  neither : AlikeAt none none
  both : {v v' : Value} → Alike v v' → AlikeAt (some v) (some v')

AlikeAt-refl : (o : Option Value) → AlikeAt o o
AlikeAt-refl none = neither
AlikeAt-refl (some v) = both (Alike-refl v)

abbrev pub AllAlike : Entries → Entries → Type 0
AllAlike es es' = (key : Text) → AlikeAt (entry es key) (entry es' key)

pub AllAlike-refl : (es : Entries) → AllAlike es es
AllAlike-refl es key = AlikeAt-refl (entry es key)

AlikeAt-trans : {a b c : Option Value} → AlikeAt a b → AlikeAt b c → AlikeAt a c
AlikeAt-trans neither k = k
AlikeAt-trans (both h) k = go h k
  where
    go : {u v : Value} {c : Option Value} → Alike u v → AlikeAt (some v) c → AlikeAt (some u) c
    go h (both k) = both (Alike-trans h k)

pub AllAlike-trans : (a b c : Entries) → AllAlike a b → AllAlike b c → AllAlike a c
AllAlike-trans a b c h k key = AlikeAt-trans (h key) (k key)

pub field-AllAlike :
    (k v v' : Value) (rest rest' : Entries)
    → Alike v v'
    → AllAlike rest rest'
    → AllAlike (field k v rest) (field k v' rest')
unfolding entry
field-AllAlike k v v' rest rest' h t key = elim (Bool-cases (key_is key (as_str k))) [
  | inl hit ↦ rw hit (both h)
  | inr miss ↦ rw miss (t key)
]

AlikeAt-str : {a b : Option Value} → AlikeAt a b → and_then b as_str ≡ and_then a as_str
unfolding and_then
AlikeAt-str neither = refl
AlikeAt-str (both h) = h.str

AlikeAt-number : {a b : Option Value} → AlikeAt a b → and_then b as_u64 ≡ and_then a as_u64
unfolding and_then
AlikeAt-number neither = refl
AlikeAt-number (both h) = h.number

AlikeAt-inner : {a b : Option Value} → AlikeAt a b → parse_map b ≡ parse_map a
AlikeAt-inner neither = refl
AlikeAt-inner (both h) = h.inner

AlikeAt-reference :
    {a b : Option Value} → AlikeAt a b → and_then b parse_attachment ≡ and_then a parse_attachment
unfolding and_then
AlikeAt-reference neither = refl
AlikeAt-reference (both h) = h.reference

-- Alike at every key that is not the blob's.
abbrev pub AlikeBut : Entries → Entries → Type 0
AlikeBut es es' =
    (key : Text) → text_eq blob_key key ≡ false → AlikeAt (entry es key) (entry es' key)

-- Then they are the same kind of datum, and maps of them are alike.
pub AlikeBut-is_datum : (es es' : Entries) → AlikeBut es es' → is_datum es' ≡ is_datum es
unfolding is_datum text_eq
AlikeBut-is_datum es es' h = ap is_blob_kind (AlikeAt-str (h (codes "kind") refl))

parse_inner-AlikeBut : (es es' : Entries) → AlikeBut es es' → parse_inner es' ≡ parse_inner es
unfolding parse_inner text_eq
parse_inner-AlikeBut es es' h = rw (
  AlikeAt-number (h (codes "stream") refl),
  AlikeAt-number (h (codes "size") refl),
  AlikeAt-str (h (codes "sha256") refl),
  AlikeAt-number (h (codes "offset") refl),
)

pub map-Alike : (es es' : Entries) → AlikeBut es es' → Alike (Value.map es) (Value.map es')
unfolding as_str as_u64 parse_map parse_attachment text_eq
map-Alike es es' h = record {
  str = refl;
  number = refl;
  inner = parse_inner-AlikeBut es es' h;
  reference = AlikeAt-inner (h (codes "attachment") refl);
}

pub referenced-AllAlike : (es es' : Entries) → AllAlike es es' → referenced es' ≡ referenced es
unfolding referenced
referenced-AllAlike es es' h =
    rw (AlikeBut-is_datum es es' (λ key _. h key), AlikeAt-reference (h blob_key))

-- A write changes the entry of its key, if there is one, and no other.
pub entry-put_entry_self :
    (es : Entries) (key : Text) (v old : Value)
    → entry es key ≡ some old
    → entry (put_entry es key v) key ≡ some v
unfolding entry put_entry
entry-put_entry_self map_end key v old h = ground arith
entry-put_entry_self (field k w rest) key v old h =
    ground (arith, entry-put_entry_self rest key v old)

pub put_entry-put_entry :
    (es : Entries) (key : Text) (v old : Value)
    → entry es key ≡ some old
    → put_entry (put_entry es key v) key old ≡ es
unfolding entry put_entry
put_entry-put_entry map_end key v old h = refl
put_entry-put_entry (field k w rest) key v old h =
    ground (arith, put_entry-put_entry rest key v old)

key_is_other :
    (key other : Text) (o : Option Text)
    → text_eq key other ≡ false
    → key_is key o ≡ true
    → key_is other o ≡ false
key_is_other key other none e h = refl
key_is_other key other (some t) e h = rw ((text_eq_iff t key).0 h) e

pub entry-put_entry_other :
    (es : Entries) (key other : Text) (v : Value)
    → text_eq key other ≡ false
    → entry (put_entry es key v) other ≡ entry es other
unfolding entry put_entry
entry-put_entry_other map_end key other v e = refl
entry-put_entry_other (field k w rest) key other v e =
    ground (arith, entry-put_entry_other rest key other v, key_is_other key other (as_str k) e)

pub put_entry-AlikeBut : (es : Entries) (v : Value) → AlikeBut es (put_entry es blob_key v)
put_entry-AlikeBut es v key h =
    subst (AlikeAt (entry es key)) (sym (entry-put_entry_other es blob_key key v h))
      (AlikeAt-refl (entry es key))
