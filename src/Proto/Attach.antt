-- ===== src/Proto/Attach.antt =====
-- crates/zyris-proto/src/attach.rs (with `AttachmentRef` of datum.rs): blobs that leave a payload
-- for a stream, and come back. The walks change a value in place: here they return the new value.
-- The SHA-256 function is a parameter. Numbers in a reference are u64 and streams u32.
pub mod Outline
pub mod Splice
pub mod RoundTrip
pub mod Found
pub mod Sealed
use zyris_protocol.Prelude.{
  ℕ, ◌+◌, ◌-◌, ◌*◌, ◌/◌, ◌%◌, ◌^◌, ◌≤◌, ◌<◌, ◌≡◌, ◌∙◌, ◌≢◌, ◌↔◌, ◌⊎◌, Bool, true, false, ◌&&◌, ◌||◌,
  Option, none, some, List, [], ◌∷◌, ◌++◌, map, ltb, ◌==◌, if◌then◌else◌, Bytes, Text, codes,
  text_eq, length,
}
use zyris_protocol.Proto.Value.{
  unsigned, utf8, Value, integer, string, binary, array, Items, array_end, item, Entries, map_end,
  field,
}

pub record AttachmentRef : Type 0 where
  pub stream : ℕ
  pub size : ℕ
  pub sha256 : Option Text
  pub offset : ℕ

pub record Detached : Type 0 where
  pub stream : ℕ
  pub bytes : Bytes
  pub sha256 : Text

unfoldable pub as_str : Value → Option Text
as_str (string (utf8 t)) = some t
as_str _ = none

unfoldable pub as_u64 : Value → Option ℕ
as_u64 (integer (unsigned n)) = some n
as_u64 _ = none

abbrev pub key_is : Text → Option Text → Bool
key_is key none = false
key_is key (some t) = text_eq t key

unfoldable pub entry : Entries → Text → Option Value
unfolding as_str
entry map_end key = none
entry (field k v rest) key = if key_is key (as_str k) then some v else entry rest key

-- A write through `entry_mut`.
unfoldable pub put_entry : Entries → Text → Value → Entries
unfolding as_str
put_entry map_end key new = map_end
put_entry (field k v rest) key new =
    if key_is key (as_str k) then field k new rest else field k v (put_entry rest key new)

abbrev pub blob_key : Text
blob_key = codes "blob"

is_blob_kind : Option Text → Bool
is_blob_kind none = false
is_blob_kind (some t) = text_eq t (codes "image") || text_eq t (codes "file")

and_then {ℓ κ} : {A : Type ℓ} {B : Type κ} → Option A → (A → Option B) → Option B
and_then none f = none
and_then (some a) f = f a

unfoldable pub is_datum : Entries → Bool
unfolding entry is_blob_kind and_then as_str
is_datum entries = is_blob_kind (and_then (entry entries (codes "kind")) as_str)

or_zero : Option ℕ → ℕ
or_zero none = 0
or_zero (some n) = n

parse_inner : Entries → Option AttachmentRef
parse_inner inner = and_then (and_then (entry inner (codes "stream")) as_u64) λ stream.
    and_then (and_then (entry inner (codes "size")) as_u64) λ size. some (record {
      stream = stream % 2 ^ 32;
      size = size;
      sha256 = and_then (entry inner (codes "sha256")) as_str;
      offset = or_zero (and_then (entry inner (codes "offset")) as_u64);
    })

pub parse_map : Option Value → Option AttachmentRef
parse_map (some (Value.map inner)) = parse_inner inner
parse_map _ = none

unfoldable pub parse_attachment : Value → Option AttachmentRef
unfolding parse_map parse_inner entry and_then as_u64 as_str or_zero
parse_attachment (Value.map outer) = parse_map (entry outer (codes "attachment"))
parse_attachment _ = none

text_value : Text → Value
text_value t = string (utf8 t)

sha_entry : Option Text → Entries
sha_entry none = map_end
sha_entry (some t) = field (text_value (codes "sha256")) (text_value t) map_end

unfoldable pub attachment_value : AttachmentRef → Value
unfolding text_value sha_entry
attachment_value r = Value.map (
    field (text_value (codes "attachment"))
      (Value.map (
        field (text_value (codes "stream")) (integer (unsigned r.stream)) (
          field (text_value (codes "size")) (integer (unsigned r.size)) (
            field (text_value (codes "offset")) (integer (unsigned r.offset))
              (sha_entry r.sha256)))))
      map_end)

-- `{b:02x}` of each byte of the hash.
unfoldable pub hex_digit : ℕ → ℕ
hex_digit n = if ltb n 10 then b'0' + n else b'a' + (n - 10)

unfoldable pub hex : Bytes → Text
hex [] = []
hex (b ∷ bytes) = hex_digit (b / 16) ∷ hex_digit (b % 16) ∷ hex bytes

-- The blob in an entry, if it is bytes above the threshold.
unfoldable pub big_blob : ℕ → Option Value → Option Bytes
big_blob threshold (some (binary bytes)) = if ltb threshold (length bytes) then some bytes else none
big_blob threshold _ = none

-- The reference in a map that is a datum; the first entry of that name is its blob.
unfoldable pub referenced : Entries → Option AttachmentRef
unfolding and_then
referenced entries =
    if is_datum entries then and_then (entry entries blob_key) parse_attachment else none

-- The bytes that leave a map: those of a datum, above the threshold.
unfoldable pub departing : ℕ → Entries → Option Bytes
departing threshold entries =
    if is_datum entries then big_blob threshold (entry entries blob_key) else none

-- A new value (or its parts), the allocator's next state, and what is to be sent, in walk order.
pub record Moved (A S : Type 0) : Type 0 where
  pub value : A
  pub next : S
  pub out : List Detached

module _ (hash : Bytes → Bytes) where
  unfoldable pub digest : Bytes → Text
  unfolding hex hex_digit
  digest bytes = hex (hash bytes)

  -- One blob leaves on a stream.
  unfoldable pub detached : Bytes → ℕ → Detached
  unfolding digest
  detached bytes stream = record { stream = stream; bytes = bytes; sha256 = digest bytes }

-- The reference that `walk_detach` writes.
unfoldable pub reference_of : Detached → AttachmentRef
reference_of d = record {
  stream = d.stream;
  size = length d.bytes;
  sha256 = some d.sha256;
  offset = 0;
}

module _ {S : Type 0} (hash : Bytes → Bytes) (alloc : S → ℕ × S) (threshold : ℕ) where
  pub leave : Entries → Bytes → ℕ × S → Moved Value S
  leave entries bytes (stream, next) =
      let d = detached hash bytes stream in
      record {
        value = Value.map (put_entry entries blob_key (attachment_value (reference_of d)));
        next = next;
        out = d ∷ [];
      }

  pub detach_map : Entries → Option Bytes → Moved Entries S → S → Moved Value S
  detach_map entries (some bytes) rest s = leave entries bytes (alloc s)
  detach_map entries none rest s = record {
    value = Value.map rest.value;
    next = rest.next;
    out = rest.out;
  }

  unfoldable mutual
    unfolding leave detach_map

    pub detach : Value → S → Moved Value S
    detach (Value.map entries) s =
        detach_map entries (departing threshold entries) (detach_entries entries s) s
    detach (array items) s =
        let r = detach_items items s in record { value = array r.value; next = r.next; out = r.out }
    detach v s = record { value = v; next = s; out = [] }

    pub detach_items : Items → S → Moved Items S
    detach_items array_end s = record { value = array_end; next = s; out = [] }
    detach_items (item v rest) s =
        let a = detach v s in
        let b = detach_items rest a.next in
        record { value = item a.value b.value; next = b.next; out = a.out ++ b.out }

    pub detach_entries : Entries → S → Moved Entries S
    detach_entries map_end s = record { value = map_end; next = s; out = [] }
    detach_entries (field k v rest) s =
        let a = detach v s in
        let b = detach_entries rest a.next in
        record { value = field k a.value b.value; next = b.next; out = a.out ++ b.out }

refs_map : Option AttachmentRef → List AttachmentRef → List AttachmentRef
refs_map (some r) nested = r ∷ []
refs_map none nested = nested

unfoldable mutual
  unfolding refs_map

  pub refs : Value → List AttachmentRef
  refs (Value.map entries) = refs_map (referenced entries) (refs_entries entries)
  refs (array items) = refs_items items
  refs v = []

  pub refs_items : Items → List AttachmentRef
  refs_items array_end = []
  refs_items (item v rest) = refs v ++ refs_items rest

  pub refs_entries : Entries → List AttachmentRef
  refs_entries map_end = []
  refs_entries (field k v rest) = refs v ++ refs_entries rest

pub names_stream : ℕ → Option AttachmentRef → Bool
names_stream stream none = false
names_stream stream (some r) = r.stream == stream

pub splice_map : Entries → Bool → Entries × Bool → Bytes → Value × Bool
splice_map entries true nested bytes = (Value.map (put_entry entries blob_key (binary bytes)), true)
splice_map entries false (nested, found) bytes = (Value.map nested, found)

-- `any`, which stops at the first part that holds the reference.
pub splice_item : Value × Bool → Items → Items × Bool → Items × Bool
splice_item (v, true) rest later = (item v rest, true)
splice_item (v, false) rest (rest', found) = (item v rest', found)

pub splice_field : Value → Value × Bool → Entries → Entries × Bool → Entries × Bool
splice_field k (v, true) rest later = (field k v rest, true)
splice_field k (v, false) rest (rest', found) = (field k v rest', found)

unfoldable mutual
  unfolding names_stream splice_map splice_item splice_field

  pub splice : Value → ℕ → Bytes → Value × Bool
  splice (Value.map entries) stream bytes =
      splice_map entries (names_stream stream (referenced entries))
        (splice_entries entries stream bytes) bytes
  splice (array items) stream bytes = let r = splice_items items stream bytes in (array r.0, r.1)
  splice v stream bytes = (v, false)

  pub splice_items : Items → ℕ → Bytes → Items × Bool
  splice_items array_end stream bytes = (array_end, false)
  splice_items (item v rest) stream bytes =
      splice_item (splice v stream bytes) rest (splice_items rest stream bytes)

  pub splice_entries : Entries → ℕ → Bytes → Entries × Bool
  splice_entries map_end stream bytes = (map_end, false)
  splice_entries (field k v rest) stream bytes =
      splice_field k (splice v stream bytes) rest (splice_entries rest stream bytes)
