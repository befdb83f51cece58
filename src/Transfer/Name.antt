-- ===== src/Transfer/Name.antt =====
-- crates/zyris-capkit/src/transfer/name.rs: the name that a received file gets. A text is here the
-- list of its characters; which of them are white space is the standard library's `trim`, a
-- parameter.
pub mod Chars
pub mod Washed
pub mod Reserved
use zyris_protocol.Prelude.{
  ℕ, ◌+◌, ◌-◌, Bool, true, false, not, ◌&&◌, ◌||◌, Option, none, some, List, [], ◌∷◌, ◌++◌, ltb,
  leb, ◌==◌, if◌then◌else◌, codes,
}
use zyris_protocol.Proto.Capability.{split_once}

abbrev pub Chars : Type 0
Chars = List ℕ

abbrev pub max_bytes : ℕ
max_bytes = 255

unfoldable pub len_utf8 : ℕ → ℕ
len_utf8 c = if ltb c 128 then 1 else if ltb c 2048 then 2 else if ltb c 65536 then 3 else 4

-- `str::len`.
unfoldable pub size : Chars → ℕ
unfolding len_utf8
size [] = 0
size (c ∷ cs) = len_utf8 c + size cs

abbrev pub is_separator : ℕ → Bool
is_separator c = (c == b'/') || (c == b'\\')

-- What is behind the last of some characters, if there is one: `rsplit`, `rsplit_once`.
unfoldable pub behind_last : (ℕ → Bool) → Chars → Option Chars
behind_last p [] = none
behind_last p (c ∷ cs) = elim (behind_last p cs) [
  | some behind ↦ some behind
  | none ↦ if p c then some cs else none
]

unfoldable pub last_chunk : Chars → Chars
unfolding behind_last
last_chunk proposed = elim (behind_last is_separator proposed) [
  | none ↦ proposed
  | some behind ↦ behind
]

-- `char::is_control`: the general category Cc.
abbrev pub is_control : ℕ → Bool
is_control c = ltb c 32 || (leb 127 c && ltb c 160)

abbrev pub stays : ℕ → Bool
stays c = not (c == b':') && not (is_control c)

unfoldable pub filter : (ℕ → Bool) → Chars → Chars
filter p [] = []
filter p (c ∷ cs) = let rest = filter p cs in if p c then c ∷ rest else rest

unfoldable pub trim_start : (ℕ → Bool) → Chars → Chars
trim_start p [] = []
trim_start p (c ∷ cs) = let rest = trim_start p cs in if p c then rest else c ∷ cs

abbrev or_nothing : ℕ → Bool → Chars → Chars
or_nothing c drops [] = if drops then [] else c ∷ []
or_nothing c drops (d ∷ rest) = c ∷ d ∷ rest

unfoldable pub trim_end : (ℕ → Bool) → Chars → Chars
trim_end p [] = []
trim_end p (c ∷ cs) = or_nothing c (p c) (trim_end p cs)

abbrev pub dot_or_space : ℕ → Bool
dot_or_space c = (c == b'.') || (c == b' ')

abbrev pub to_ascii_lowercase : ℕ → ℕ
to_ascii_lowercase c = if leb b'A' c && leb c b'Z' then c + 32 else c

unfoldable pub eq_ignore_ascii_case : Chars → Chars → Bool
eq_ignore_ascii_case [] [] = true
eq_ignore_ascii_case (c ∷ cs) (d ∷ ds) =
    (to_ascii_lowercase c == to_ascii_lowercase d) && eq_ignore_ascii_case cs ds
eq_ignore_ascii_case _ _ = false

abbrev pub reserved_names : List Chars
reserved_names =
    codes "CON"
    ∷ codes "PRN"
    ∷ codes "AUX"
    ∷ codes "NUL"
    ∷ codes "COM1"
    ∷ codes "COM2"
    ∷ codes "COM3"
    ∷ codes "COM4"
    ∷ codes "COM5"
    ∷ codes "COM6"
    ∷ codes "COM7"
    ∷ codes "COM8"
    ∷ codes "COM9"
    ∷ codes "LPT1"
    ∷ codes "LPT2"
    ∷ codes "LPT3"
    ∷ codes "LPT4"
    ∷ codes "LPT5"
    ∷ codes "LPT6"
    ∷ codes "LPT7"
    ∷ codes "LPT8"
    ∷ codes "LPT9"
    ∷ []

unfoldable pub is_reserved : List Chars → Chars → Bool
unfolding eq_ignore_ascii_case
is_reserved [] stem = false
is_reserved (r ∷ rs) stem = eq_ignore_ascii_case r stem || is_reserved rs stem

unfoldable pub avoids_reserved_names : Chars → Chars
unfolding is_reserved split_once
avoids_reserved_names name = elim (split_once b'.' name) [
  | some (stem, extension) ↦
      if is_reserved reserved_names stem then stem ++ (codes "_." ++ extension) else name
  | none ↦ if is_reserved reserved_names name then name ++ codes "_" else name
]

abbrev pub is_dot : ℕ → Bool
is_dot c = c == b'.'

-- The characters that fit into the bytes left, up to the first that does not.
unfoldable pub fill : ℕ → Chars → Chars
unfolding len_utf8
fill left [] = []
fill left (c ∷ cs) =
    let rest = fill (left - len_utf8 c) cs in if ltb left (len_utf8 c) then [] else c ∷ rest

unfoldable pub extension_of : Chars → Chars
unfolding behind_last size
extension_of name =
    let extension : Chars = elim (behind_last is_dot name) [
      | none ↦ []
      | some behind ↦ b'.' ∷ behind
    ] in
    if ltb (size extension) 16 then extension else []

unfoldable pub fits_length : Chars → Chars
unfolding size extension_of fill
fits_length name =
    if leb (size name) max_bytes
    then name
    else let extension = extension_of name in fill (max_bytes - size extension) name ++ extension

unfoldable pub or_file : Chars → Chars
or_file [] = codes "file"
or_file (c ∷ cs) = c ∷ cs

unfoldable pub shorten : Chars → Chars
unfolding avoids_reserved_names fits_length trim_end or_file
shorten [] = codes "file"
shorten (c ∷ cs) = or_file (trim_end dot_or_space (fits_length (avoids_reserved_names (c ∷ cs))))

module _ (is_whitespace : ℕ → Bool) where
  unfoldable pub safe_name : Chars → Chars
  unfolding last_chunk filter trim_start trim_end shorten
  safe_name proposed = shorten (
      trim_end dot_or_space
        (trim_end is_whitespace (trim_start is_whitespace (filter stays (last_chunk proposed)))))
