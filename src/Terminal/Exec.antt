-- ===== src/Terminal/Exec.antt =====
-- crates/zyris-capkit/src/terminal/mod.rs: what exec checks of its arguments, and what is kept of the
-- output of a command. A text is the list of its characters.
pub mod Tails
pub mod Drain
use zyris_protocol.Prelude.{
  ℕ, ◌-◌, min, max, Bool, true, false, not, ◌&&◌, Option, none, some, List, [], ◌∷◌, ◌++◌, ltb, leb,
  if◌then◌else◌, Bytes, codes, length, take,
}
use mathlib.Core.List.{reverse}

abbrev pub Chars : Type 0
Chars = List ℕ

pub record OutputAcc : Type 0 where
  pub buf : Bytes
  pub truncated : Bool

-- `OutputAcc::default`.
abbrev pub no_output : OutputAcc
no_output = record { buf = []; truncated = false }

-- What the reads of a pipe give up to its end or to an error.
unfoldable pub drain_capped : ℕ → List Bytes → OutputAcc → OutputAcc
drain_capped cap [] acc = acc
drain_capped cap (chunk ∷ reads) acc =
    let room = cap - length acc.buf in
    drain_capped cap reads (record {
      buf = if ltb 0 room then acc.buf ++ take (min room (length chunk)) chunk else acc.buf;
      truncated = if ltb room (length chunk) then true else acc.truncated;
    })

pub data Launched : Type 0 where
  launches neither both empty_argv : Launched

-- `str::trim().is_empty()`, for the given white space.
unfoldable pub is_blank : (ℕ → Bool) → Chars → Bool
is_blank space [] = true
is_blank space (c ∷ cs) = space c && is_blank space cs

unfoldable pub validate_launch : (ℕ → Bool) → Option Chars → Option (List Chars) → Launched
unfolding is_blank
validate_launch space command argv =
    let has_command : Bool = elim command [ none ↦ false | some c ↦ not (is_blank space c) ] in
    let has_argv : Bool = elim argv [ none ↦ false | some a ↦ true ] in
    if not has_command && not has_argv
    then neither
    else if has_command && has_argv
    then both
    else launches

-- The head of exec and of poll.
unfoldable pub checked_launch : (ℕ → Bool) → Option Chars → Option (List Chars) → Launched
unfolding validate_launch
checked_launch space command (some []) = empty_argv
checked_launch space command argv = validate_launch space command argv

unfoldable pub take_tail : Chars → ℕ → Chars
take_tail text max = if leb (length text) max then text else reverse (take max (reverse text))

abbrev pub truncation_mark : Chars
truncation_mark = 8230 ∷ (codes "[earlier output truncated]" ++ (10 ∷ []))

unfoldable pub tail_chars : Chars → ℕ → Chars
unfolding take_tail
tail_chars text max = if leb (length text) max then text else truncation_mark ++ take_tail text max

-- The text, and whether anything was dropped.
unfoldable pub push_capped : Chars → Chars → ℕ → Chars × Bool
unfolding take_tail
push_capped accumulated fresh cap =
    let whole = accumulated ++ fresh in
    if ltb cap (length whole) then (take_tail whole cap, true) else (whole, false)
