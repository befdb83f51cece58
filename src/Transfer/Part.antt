-- ===== src/Transfer/Part.antt =====
-- crates/zyris-capkit/src/transfer/peer.rs: part_path, where the bytes of a transfer lie until it is
-- complete. A path is its directory and its last component, which `Inbox::resolve` has washed: it is
-- not empty and holds no separator. SHA-256 is a parameter.
pub mod Apart
use zyris_protocol.Prelude.{
  ℕ, ◌+◌, ◌-◌, Bool, ◌&&◌, [], ◌∷◌, ◌++◌, ltb, if◌then◌else◌, Bytes, Text, codes, text_eq, take,
}
use zyris_protocol.Proto.Attach.{digest}
use zyris_protocol.Transfer.Name.{Chars, max_bytes, len_utf8, size}

-- `Path`, of a file: `with_file_name` replaces the last component.
pub record FilePath : Type 0 where
  pub parent : Chars
  pub file_name : Chars

unfoldable pub path_eq : FilePath → FilePath → Bool
path_eq p q = text_eq p.parent q.parent && text_eq p.file_name q.file_name

-- `.` + 16 characters of the digest + `.part`.
unfoldable pub part_tail : (Bytes → Bytes) → Text → Chars
part_tail hash transfer_id = codes "." ++ take 16 (digest hash transfer_id) ++ codes ".part"

-- The characters that fit into the room, `len` bytes of it being taken.
unfoldable pub fill_stem : ℕ → ℕ → Chars → Chars
unfolding len_utf8
fill_stem room len [] = []
fill_stem room len (c ∷ cs) =
    let rest = fill_stem room (len + len_utf8 c) cs in
    if ltb room (len + len_utf8 c) then [] else c ∷ rest

-- `String::pop`.
unfoldable pub pop : Chars → Chars
pop [] = []
pop (c ∷ []) = []
pop (c ∷ cs) = c ∷ pop cs

unfoldable pub part_name : Chars → Chars → Chars
unfolding fill_stem pop size
part_name tail name =
    let stem = fill_stem (max_bytes - size tail) 0 name in
    if text_eq (stem ++ tail) name then pop stem ++ tail else stem ++ tail

unfoldable pub part_path : (Bytes → Bytes) → FilePath → Text → FilePath
unfolding part_name part_tail
part_path hash dest transfer_id = record dest {
  file_name = part_name (part_tail hash transfer_id) dest.file_name;
}
