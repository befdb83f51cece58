-- ===== src/Transfer/Inbox.antt =====
-- crates/zyris-capkit/src/transfer/inbox.rs: where a received file goes. A path is the list of its
-- components; what the file system answers while a call runs is a parameter.
pub mod Jail
use zyris_protocol.Prelude.{
  ℕ, Bool, true, false, not, Option, none, some, List, [], ◌∷◌, ◌++◌, ◌==◌, if◌then◌else◌, text_eq,
}
use zyris_protocol.Transfer.Name.{Chars, safe_name}

abbrev pub PathBuf : Type 0
PathBuf = List Chars

pub data InboxError : Type 0 where
  escaped symlink_in_path io : InboxError

pub data Resolved : Type 0 where
  resolved : PathBuf → Resolved
  refused : InboxError → Resolved

-- `symlink_metadata` gives whether the path is a link, `canonicalize` the real path.
pub record Answers : Type 0 where
  pub create_dir_all : PathBuf → Bool
  pub canonicalize : PathBuf → Option PathBuf
  pub symlink_metadata : PathBuf → Option Bool

-- `Path::strip_prefix`, `Path::starts_with`.
unfoldable pub strip_prefix : PathBuf → PathBuf → Option PathBuf
strip_prefix path [] = some path
strip_prefix [] (r ∷ root) = none
strip_prefix (c ∷ path) (r ∷ root) = if text_eq c r then strip_prefix path root else none

unfoldable pub starts_with : PathBuf → PathBuf → Bool
unfolding strip_prefix
starts_with path root = elim (strip_prefix path root) [ none ↦ false | some rest ↦ true ]

-- `str::replace` of a character.
unfoldable pub replace_char : ℕ → ℕ → Chars → Chars
replace_char a b [] = []
replace_char a b (c ∷ cs) = (if c == a then b else c) ∷ replace_char a b cs

module _ (os : Answers) where
  -- The first component that is a link, or that cannot be asked.
  unfoldable pub walk : PathBuf → PathBuf → Option InboxError
  walk current [] = none
  walk current (c ∷ rest) =
      let behind = walk (current ++ (c ∷ [])) rest in
      elim (os.symlink_metadata (current ++ (c ∷ []))) [
        | none ↦ some io
        | some true ↦ some symlink_in_path
        | some false ↦ behind
      ]

  unfoldable pub ensure_no_symlink : PathBuf → PathBuf → Option InboxError
  unfolding walk strip_prefix
  ensure_no_symlink root path = elim (strip_prefix path root) [
    | none ↦ walk root path
    | some rest ↦ walk root rest
  ]

  -- Behind the walk, with the real paths of the root and of the sender's directory.
  unfoldable pub settle_in : PathBuf → PathBuf → Chars → Resolved
  unfolding starts_with
  settle_in root real_parent name =
      let path = real_parent ++ (name ∷ []) in
      if not (starts_with real_parent root)
      then refused escaped
      else if not (starts_with path root)
      then refused escaped
      else elim (os.symlink_metadata path) [
        | some true ↦ refused symlink_in_path
        | _ ↦ resolved path
      ]

  unfoldable pub resolve_in : PathBuf → PathBuf → Chars → Resolved
  unfolding settle_in ensure_no_symlink
  resolve_in inbox parent name =
      if not (os.create_dir_all parent) then refused io else elim (os.canonicalize inbox) [
        | none ↦ refused io
        | some root ↦ elim (ensure_no_symlink inbox parent) [
          | some e ↦ refused e
          | none ↦ elim (os.canonicalize parent) [
            | none ↦ refused io
            | some real_parent ↦ settle_in root real_parent name
          ]
        ]
      ]

  unfoldable pub resolve : (ℕ → Bool) → PathBuf → Chars → Chars → Resolved
  unfolding resolve_in replace_char
  resolve space inbox peer proposed =
      resolve_in inbox (inbox ++ (safe_name space (replace_char b'/' b'_' peer) ∷ []))
        (safe_name space proposed)
