-- ===== src/Transfer/Pull.antt =====
-- crates/zyris-capkit/src/transfer/peer.rs: the sending side, offer_bytes, offer_file and pull.
pub mod Resumed
use zyris_protocol.Prelude.{
  ℕ, zero, suc, ◌+◌, ◌-◌, ◌*◌, min, Option, none, some, List, [], ◌∷◌, ◌++◌, map, ltb,
  if◌then◌else◌, Bytes, Text, text_eq, length, take, drop,
}
use zyris_protocol.Transfer.Offer.{PullHead}

abbrev pub chunk_size : ℕ
chunk_size = 64 * 1024

-- A file is known by what its reads give from the offset on; `none` is a failed open.
pub data Source : Type 0 where
  file_path : (ℕ → Option (List (Option Bytes))) → Source
  held_bytes : Bytes → Source

pub record ToSend : Type 0 where
  pub transfer_id : Text
  pub source : Source
  pub size : ℕ
  pub sha256 : Text

unfoldable pub offer_file :
    List ToSend → Text → (ℕ → Option (List (Option Bytes))) → ℕ → Text → List ToSend
offer_file pending id reads size sha256 =
    pending
    ++ (record { transfer_id = id; source = file_path reads; size = size; sha256 = sha256 } ∷ [])

unfoldable pub offer_bytes : List ToSend → Text → Bytes → Text → List ToSend
offer_bytes pending id bytes sha256 =
    pending
    ++ (record { transfer_id = id; source = held_bytes bytes; size = length bytes; sha256 = sha256 }
        ∷ [])

unfoldable pub find_transfer : List ToSend → Text → Option ToSend
find_transfer [] id = none
find_transfer (t ∷ pending) id =
    if text_eq t.transfer_id id then some t else find_transfer pending id

-- `(start..len).step_by(CHUNK_SIZE)` and the slices; the fuel is the length.
unfoldable pub slices : ℕ → ℕ → Bytes → List Bytes
slices zero at bytes = []
slices (suc fuel) at bytes =
    let rest = slices fuel (at + chunk_size) bytes in
    if ltb at (length bytes)
    then take (min (at + chunk_size) (length bytes) - at) (drop at bytes) ∷ rest
    else []

-- `unfold`: up to the end of the file, or to the first error, which is passed on once.
unfoldable pub read_items : List (Option Bytes) → List (Option Bytes)
read_items [] = []
read_items (none ∷ reads) = none ∷ []
read_items (some [] ∷ reads) = []
read_items (some (b ∷ bytes) ∷ reads) = some (b ∷ bytes) ∷ read_items reads

pub data Pulled : Type 0 where
  streaming : PullHead → List (Option Bytes) → Pulled
  unknown_transfer : Pulled
  cannot_open : Pulled

unfoldable pub stream_of : PullHead → ℕ → Source → Pulled
unfolding slices read_items
stream_of head offset (held_bytes bytes) =
    streaming head (map (λ b. some b) (slices (length bytes) (min offset (length bytes)) bytes))
stream_of head offset (file_path reads) = elim (reads offset) [
  | none ↦ cannot_open
  | some items ↦ streaming head (read_items items)
]

unfoldable pub serve : ℕ → Option ToSend → Pulled
unfolding stream_of
serve offset none = unknown_transfer
serve offset (some t) = stream_of (record { size = t.size; sha256 = t.sha256 }) offset t.source

unfoldable pub pull : List ToSend → Text → ℕ → Pulled
unfolding find_transfer serve
pull pending id offset = serve offset (find_transfer pending id)
