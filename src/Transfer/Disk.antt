-- ===== src/Transfer/Disk.antt =====
-- The files that crates/zyris-capkit/src/transfer works on, through `tokio::fs`: names that lead to
-- files or to symbolic links, the bytes of the files, and the directories.
pub mod Tidy
use zyris_protocol.Prelude.{
  ℕ, suc, Bool, true, false, Option, none, some, [], ◌==◌, if◌then◌else◌, Bytes, length,
}
use zyris_protocol.Transfer.Name.{Chars}
use zyris_protocol.Transfer.Part.{FilePath, path_eq}

-- A link is known by the length of what it leads to.
pub data Entry : Type 0 where
  file : ℕ → Entry
  link : ℕ → Entry

pub record Disk : Type 0 where
  pub names : FilePath → Option Entry
  pub bytes : ℕ → Bytes
  pub dirs : Chars → Bool
  -- The file that is created next.
  pub next : ℕ

unfoldable pub put : Disk → FilePath → Option Entry → Disk
unfolding path_eq
put d p e = record d { names = λ q. if path_eq p q then e else d.names q }

unfoldable pub put_bytes : Disk → ℕ → Bytes → Disk
put_bytes d n content = record d { bytes = λ m. if n == m then content else d.bytes m }

-- `symlink_metadata(p).is_ok()`.
unfoldable pub exists : Disk → FilePath → Bool
exists d p = elim (d.names p) [ none ↦ false | some e ↦ true ]

unfoldable pub is_symlink : Disk → FilePath → Bool
is_symlink d p = elim (d.names p) [ some (link n) ↦ true | _ ↦ false ]

-- `metadata(p).map(|m| m.len()).unwrap_or(0)`.
unfoldable pub len : Disk → FilePath → ℕ
len d p = elim (d.names p) [ none ↦ 0 | some (file n) ↦ length (d.bytes n) | some (link n) ↦ n ]

unfoldable pub remove_file : Disk → FilePath → Disk
remove_file d p = put d p none

-- `rename`, if there is something to rename.
unfoldable pub rename : Disk → FilePath → FilePath → Option Disk
unfolding put
rename d p q = elim (d.names p) [ none ↦ none | some e ↦ some (put (put d p none) q (some e)) ]

-- A new file.
unfoldable pub create : Disk → FilePath → Bytes → Disk
unfolding put put_bytes
create d p content =
    let made = put_bytes (put d p (some (file d.next))) d.next content in
    record made { next = suc d.next }

-- `create(true)` with `append(true)`, or with `write(true).truncate(true)`; a link is not followed.
unfoldable pub open_file : Disk → FilePath → Bool → Option (Disk × ℕ)
unfolding create put_bytes
open_file d p append = elim (d.names p) [
  | none ↦ some (create d p [], d.next)
  | some (file n) ↦ some ((if append then d else put_bytes d n []), n)
  | some (link n) ↦ none
]

-- What a reader finds under a name.
pub data Content : Type 0 where
  holds : Bytes → Content
  leads : ℕ → Content

unfoldable pub content_of : (ℕ → Bytes) → Option Entry → Option Content
content_of bytes none = none
content_of bytes (some (file n)) = some (holds (bytes n))
content_of bytes (some (link n)) = some (leads n)

unfoldable pub seen : Disk → FilePath → Option Content
unfolding content_of
seen d p = content_of d.bytes (d.names p)
