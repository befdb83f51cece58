-- ===== src/Transfer/Name/Washed.antt =====
-- What every name that `safe_name` makes is.
use zyris_protocol.Prelude.{
  ℕ, ◌-◌, ◌≤◌, ◌<◌, ◌≡◌, refl, ◌≢◌, Bool, true, Option, none, some, [], ◌∷◌, ◌++◌, arith, ltb, leb,
  ◌==◌, if◌then◌else◌, ltb→lt, leb→le, codes, if-elim, if-cases,
}
use zyris_protocol.Proto.Capability.{split_once}
use zyris_protocol.Transfer.Name.{
  Chars, max_bytes, size, last_chunk, stays, filter, trim_start, trim_end, dot_or_space,
  is_reserved, reserved_names, avoids_reserved_names, behind_last, is_dot, fill, extension_of,
  fits_length, or_file, shorten, safe_name,
}
use zyris_protocol.Transfer.Name.Chars.{
  all, is_plain, no_separator, all-append, all-trim_start, all-trim_end, all-filter, all-fill,
  all-last_chunk, all-filter_self, all_both, size-append, size-trim_end, size-fill,
  trim_end-trim_end,
}

-- A predicate of characters that holds of what the names of devices are changed by.
module _ (p : ℕ → Bool) (line : p b'_' ≡ true) (dot : p b'.' ≡ true) where
  AllParts : Option (Chars × Chars) → Type 0
  AllParts none = Unit {0}
  AllParts (some (before, after)) = (all p before ≡ true) × (all p after ≡ true)

  longer-AllParts :
      (c : ℕ) (o : Option (Chars × Chars))
      → p c ≡ true
      → AllParts o
      → AllParts (elim o [ none ↦ none | some (before, after) ↦ some (c ∷ before, after) ])
  unfolding AllParts all
  longer-AllParts c none h k = tt
  longer-AllParts c (some (before, after)) h (k, l) = (ground arith, l)

  split_once-AllParts : (cs : Chars) → all p cs ≡ true → AllParts (split_once b'.' cs)
  unfolding AllParts split_once all
  split_once-AllParts [] h = tt
  split_once-AllParts (c ∷ cs) h =
      if-elim AllParts (c == b'.') (refl, ground arith)
        (longer-AllParts c (split_once b'.' cs) (ground arith)
          (split_once-AllParts cs (ground arith)))

  renamed :
      (name : Chars) (o : Option (Chars × Chars))
      → all p name ≡ true
      → AllParts o
      → all p (elim o [
        | some (stem, extension) ↦
            if is_reserved reserved_names stem then stem ++ (codes "_." ++ extension) else name
        | none ↦ if is_reserved reserved_names name then name ++ codes "_" else name
      ])
        ≡ true
  unfolding AllParts all
  renamed name none h k =
      if-elim (λ r. all p r ≡ true) (is_reserved reserved_names name)
        (all-append p name (codes "_") h (ground arith)) h
  renamed name (some (stem, extension)) h (k, l) =
      if-elim (λ r. all p r ≡ true) (is_reserved reserved_names stem)
        (all-append p stem (codes "_." ++ extension) k (ground arith)) h

  all-avoids_reserved_names :
      (name : Chars) → all p name ≡ true → all p (avoids_reserved_names name) ≡ true
  unfolding avoids_reserved_names
  all-avoids_reserved_names name h =
      renamed name (split_once b'.' name) h (split_once-AllParts name h)

  AllBehind : Option Chars → Type 0
  AllBehind none = Unit {0}
  AllBehind (some behind) = all p behind ≡ true

  longer-AllBehind :
      (c : ℕ) (cs : Chars) (o : Option Chars)
      → all p cs ≡ true
      → AllBehind o
      → AllBehind
          (elim o [ some extension ↦ some extension | none ↦ if c == b'.' then some cs else none ])
  unfolding AllBehind
  longer-AllBehind c cs none h k = if-elim AllBehind (c == b'.') h tt
  longer-AllBehind c cs (some extension) h k = k

  behind_last-AllBehind : (cs : Chars) → all p cs ≡ true → AllBehind (behind_last is_dot cs)
  unfolding AllBehind behind_last all
  behind_last-AllBehind [] h = tt
  behind_last-AllBehind (c ∷ cs) h =
      longer-AllBehind c cs (behind_last is_dot cs) (ground arith)
        (behind_last-AllBehind cs (ground arith))

  all-dotted :
      (o : Option Chars) → AllBehind o → all p (elim o [ none ↦ [] | some b ↦ b'.' ∷ b ]) ≡ true
  unfolding AllBehind all
  all-dotted none h = refl
  all-dotted (some b) h = ground arith

  all-extension_of : (name : Chars) → all p name ≡ true → all p (extension_of name) ≡ true
  unfolding extension_of all
  all-extension_of name h =
      if-elim (λ r. all p r ≡ true)
        (ltb (size (elim (behind_last is_dot name) [ none ↦ [] | some b ↦ b'.' ∷ b ])) 16)
        (all-dotted (behind_last is_dot name) (behind_last-AllBehind name h)) refl

  all-fits_length : (name : Chars) → all p name ≡ true → all p (fits_length name) ≡ true
  unfolding fits_length
  all-fits_length name h =
      if-elim (λ r. all p r ≡ true) (leb (size name) max_bytes) h
        (all-append p (fill (max_bytes - size (extension_of name)) name) (extension_of name)
          (all-fill p (max_bytes - size (extension_of name)) name h) (all-extension_of name h))

size-extension_of : (name : Chars) → size (extension_of name) < 16
unfolding extension_of size
size-extension_of name =
    let whole : Chars = elim (behind_last is_dot name) [
      | none ↦ []
      | some behind ↦ b'.' ∷ behind
    ] in
    if-cases (λ r. size r < 16) (ltb (size whole) 16) (λ short. ltb→lt (size whole) 16 short)
      (λ long. omega arith)

size-fits_length : (name : Chars) → size (fits_length name) ≤ max_bytes
unfolding fits_length
size-fits_length name =
    if-cases (λ r. size r ≤ max_bytes) (leb (size name) max_bytes)
      (λ short. leb→le (size name) max_bytes short)
      (λ long. omega (
        arith,
        size-append (fill (max_bytes - size (extension_of name)) name) (extension_of name),
        size-fill (max_bytes - size (extension_of name)) name,
        size-extension_of name,
      ))

-- A file name of any of the usual systems: not empty, of at most 255 bytes, with no separator, no
-- colon and no control character, and with no dot or space at its end.
abbrev pub IsWashed : Chars → Type 0
IsWashed name =
    (name ≢ [])
    × (size name ≤ max_bytes)
    × (all is_plain name ≡ true)
    × (trim_end dot_or_space name ≡ name)

nonempty : (c : ℕ) (cs : Chars) → (c ∷ cs) ≢ []
nonempty c cs h = ground arith

or_file-IsWashed :
    (name : Chars)
    → size name ≤ max_bytes
    → all is_plain name ≡ true
    → trim_end dot_or_space name ≡ name
    → IsWashed (or_file name)
unfolding or_file size all trim_end
or_file-IsWashed [] h k l = (nonempty 102 (codes "ile"), omega arith, refl, refl)
or_file-IsWashed (c ∷ cs) h k l = (nonempty c cs, h, k, l)

shorten-IsWashed : (name : Chars) → all is_plain name ≡ true → IsWashed (shorten name)
unfolding shorten all size trim_end or_file
shorten-IsWashed [] h = or_file-IsWashed [] (omega arith) refl refl
shorten-IsWashed (c ∷ cs) h =
    let whole = fits_length (avoids_reserved_names (c ∷ cs)) in
    or_file-IsWashed (trim_end dot_or_space whole)
      (omega (
        arith,
        size-trim_end dot_or_space whole,
        size-fits_length (avoids_reserved_names (c ∷ cs)),
      ))
      (all-trim_end is_plain dot_or_space whole (
        all-fits_length is_plain refl refl (avoids_reserved_names (c ∷ cs))
          (all-avoids_reserved_names is_plain refl refl (c ∷ cs) h)))
      (trim_end-trim_end dot_or_space whole)

-- Whatever name a peer proposes, and whatever is white space, the name that a file gets is washed.
pub safe_name-IsWashed :
    (is_whitespace : ℕ → Bool) (proposed : Chars) → IsWashed (safe_name is_whitespace proposed)
unfolding safe_name all
safe_name-IsWashed is_whitespace proposed =
    let chunk = last_chunk proposed in
    let clean = filter stays chunk in
    let plain =
      all_both stays no_separator clean (all-filter_self stays chunk)
        (all-filter no_separator stays chunk (all-last_chunk proposed)) in
    let trimmed = trim_end is_whitespace (trim_start is_whitespace clean) in
    shorten-IsWashed (trim_end dot_or_space trimmed) (
      all-trim_end is_plain dot_or_space trimmed (
        all-trim_end is_plain is_whitespace (trim_start is_whitespace clean)
          (all-trim_start is_plain is_whitespace clean plain)))
