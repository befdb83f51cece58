-- ===== src/Transfer/Name/Reserved.antt =====
-- The names of devices that `avoids_reserved_names` avoids.
use zyris_protocol.Prelude.{
  Bool, true, false, not, ◌&&◌, ◌||◌, Option, none, some, List, [], ◌∷◌, ◌==◌,
}
use zyris_protocol.Proto.Capability.{split_once}
use zyris_protocol.Transfer.Name.{Chars, to_ascii_lowercase}

-- The part before the first dot, or the whole name.
abbrev stem_of_parts : Chars → Option (Chars × Chars) → Chars
stem_of_parts name none = name
stem_of_parts name (some (stem, extension)) = stem

unfoldable pub stem_of : Chars → Chars
unfolding split_once
stem_of name = stem_of_parts name (split_once b'.' name)

has_line : Chars → Bool
has_line [] = false
has_line (c ∷ cs) = (to_ascii_lowercase c == b'_') || has_line cs

no_lines : List Chars → Bool
no_lines [] = true
no_lines (r ∷ rs) = not (has_line r) && no_lines rs
