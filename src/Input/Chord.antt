-- ===== src/Input/Chord.antt =====
-- crates/zyris-capkit/src/input/chord.rs: chords of keys. A text is here the list of its characters;
-- which of them are white space is the standard library's `trim`, a parameter. Every error is an
-- `invalid_params`, kept as what it says.
pub mod Pressed
use zyris_protocol.Prelude.{
  ℕ, Bool, true, false, Option, none, some, List, [], ◌∷◌, ◌++◌, map, ◌==◌, if◌then◌else◌, codes,
  text_eq,
}
use zyris_protocol.Transfer.Name.{Chars, trim_start, trim_end, to_ascii_lowercase}

-- `enigo::Key`, as far as it is used.
pub data Key : Type 0 where
  control shift alt meta return_key tab escape backspace delete space up_arrow down_arrow : Key
  left_arrow right_arrow home end_key page_up page_down caps_lock print_scr insert_key : Key
  function : ℕ → Key
  unicode : ℕ → Key

pub data ChordError : Type 0 where
  empty_chord empty_key more_than_one all_modifiers : ChordError
  unknown_key : Chars → ChordError

pub data Parsed {ℓ} (A : Type ℓ) : Type ℓ where
  accepted : A → Parsed A
  rejected : ChordError → Parsed A

-- The value of the first of some names that is this text.
unfoldable pub find_name : List (Chars × Key) → Chars → Option Key
find_name [] name = none
find_name ((n, key) ∷ table) name =
    let rest = find_name table name in if text_eq n name then some key else rest

abbrev pub modifier_names : List (Chars × Key)
modifier_names =
    (codes "ctrl", control)
    ∷ (codes "control", control)
    ∷ (codes "shift", shift)
    ∷ (codes "alt", alt)
    ∷ (codes "option", alt)
    ∷ (codes "opt", alt)
    ∷ (codes "meta", meta)
    ∷ (codes "super", meta)
    ∷ (codes "cmd", meta)
    ∷ (codes "command", meta)
    ∷ (codes "win", meta)
    ∷ (codes "windows", meta)
    ∷ []

-- The names of a build for Linux.
abbrev pub key_names : List (Chars × Key)
key_names =
    (codes "enter", return_key)
    ∷ (codes "return", return_key)
    ∷ (codes "tab", tab)
    ∷ (codes "esc", escape)
    ∷ (codes "escape", escape)
    ∷ (codes "backspace", backspace)
    ∷ (codes "del", delete)
    ∷ (codes "delete", delete)
    ∷ (codes "space", space)
    ∷ (codes "up", up_arrow)
    ∷ (codes "down", down_arrow)
    ∷ (codes "left", left_arrow)
    ∷ (codes "right", right_arrow)
    ∷ (codes "home", home)
    ∷ (codes "end", end_key)
    ∷ (codes "pageup", page_up)
    ∷ (codes "pgup", page_up)
    ∷ (codes "pagedown", page_down)
    ∷ (codes "pgdn", page_down)
    ∷ (codes "capslock", caps_lock)
    ∷ (codes "printscreen", print_scr)
    ∷ (codes "prtsc", print_scr)
    ∷ (codes "insert", insert_key)
    ∷ (codes "f1", function 1)
    ∷ (codes "f2", function 2)
    ∷ (codes "f3", function 3)
    ∷ (codes "f4", function 4)
    ∷ (codes "f5", function 5)
    ∷ (codes "f6", function 6)
    ∷ (codes "f7", function 7)
    ∷ (codes "f8", function 8)
    ∷ (codes "f9", function 9)
    ∷ (codes "f10", function 10)
    ∷ (codes "f11", function 11)
    ∷ (codes "f12", function 12)
    ∷ (codes "f13", function 13)
    ∷ (codes "f14", function 14)
    ∷ (codes "f15", function 15)
    ∷ (codes "f16", function 16)
    ∷ (codes "f17", function 17)
    ∷ (codes "f18", function 18)
    ∷ (codes "f19", function 19)
    ∷ (codes "f20", function 20)
    ∷ []

abbrev pub lowered : Chars → Chars
lowered segment = map to_ascii_lowercase segment

unfoldable pub modifier : Chars → Option Key
unfolding find_name
modifier segment = find_name modifier_names (lowered segment)

-- A character by itself, with its case.
unfoldable pub single : Chars → Parsed Key
single (c ∷ []) = accepted (unicode c)
single segment = rejected (unknown_key segment)

unfoldable pub named : Chars → Parsed Key
unfolding find_name single
named segment = elim (find_name key_names (lowered segment)) [
  | some key ↦ accepted key
  | none ↦ single segment
]

unfoldable pub set_key : Option Key → Key → Parsed (Option Key)
set_key none key = accepted (some key)
set_key (some before) key = rejected more_than_one

-- `split('+')`.
unfoldable pub split_plus : Chars → List Chars
split_plus [] = [] ∷ []
split_plus (c ∷ cs) =
    if c == b'+'
    then [] ∷ split_plus cs
    else elim (split_plus cs) [ [] ↦ (c ∷ []) ∷ [] | first ∷ rest ↦ (c ∷ first) ∷ rest ]

-- `strip_suffix("++")`.
unfoldable pub strip_plus_plus : Chars → Option Chars
strip_plus_plus [] = none
strip_plus_plus (c ∷ cs) =
    if text_eq (c ∷ cs) (codes "++")
    then some []
    else elim (strip_plus_plus cs) [ none ↦ none | some rest ↦ some (c ∷ rest) ]

abbrev pub is_blank : Chars → Bool
is_blank [] = true
is_blank (c ∷ cs) = false

-- The key of one segment, when it is no modifier, and the loop over the rest with it.
unfoldable pub with_key :
    Parsed Key
    → Option Key
    → (Option Key → Parsed (List Key × Option Key))
    → Parsed (List Key × Option Key)
unfolding set_key
with_key (rejected e) slot next = rejected e
with_key (accepted key) slot next = elim (set_key slot key) [
  | rejected e ↦ rejected e
  | accepted filled ↦ next filled
]

-- One segment: whether it is blank, the modifier and the key that it names, and the loop over the
-- rest with what it adds.
unfoldable pub read_one :
    Bool
    → Bool
    → Option Key
    → Parsed Key
    → List Key
    → Option Key
    → (List Key → Option Key → Parsed (List Key × Option Key))
    → Parsed (List Key × Option Key)
unfolding with_key
read_one true true m key modifiers slot next = next modifiers slot
read_one false true m key modifiers slot next = rejected empty_key
read_one no_body false (some m) key modifiers slot next = next (modifiers ++ (m ∷ [])) slot
read_one no_body false none key modifiers slot next = with_key key slot (next modifiers)

unfoldable pub press : List Key → Option Key → Parsed (List Key × Key)
press modifiers (some key) = accepted (modifiers, key)
press (modifier ∷ []) none = accepted ([], modifier)
press _ none = rejected all_modifiers

unfoldable pub pressed : Parsed (List Key × Option Key) → Parsed (List Key × Key)
unfolding press
pressed (rejected e) = rejected e
pressed (accepted (modifiers, key)) = press modifiers key

unfoldable pub body_of : Chars → Chars × Option Key
unfolding strip_plus_plus text_eq
body_of trimmed =
    if text_eq trimmed (codes "+")
    then ([], some (unicode b'+'))
    else elim (strip_plus_plus trimmed) [
      | some rest ↦ (rest, some (unicode b'+'))
      | none ↦ (trimmed, none)
    ]

module _ (is_whitespace : ℕ → Bool) where
  unfoldable pub trim : Chars → Chars
  unfolding trim_start trim_end
  trim text = trim_end is_whitespace (trim_start is_whitespace text)

  -- The loop over the segments of a body that is empty or not.
  unfoldable pub read_segments :
      Bool → List Chars → List Key → Option Key → Parsed (List Key × Option Key)
  unfolding trim modifier named read_one
  read_segments no_body [] modifiers key = accepted (modifiers, key)
  read_segments no_body (raw ∷ rest) modifiers key =
      let segment = trim raw in
      read_one no_body (is_blank segment) (modifier segment) (named segment) modifiers key
        (read_segments no_body rest)

  unfoldable pub parse_chord : Chars → Parsed (List Key × Key)
  unfolding trim body_of split_plus read_segments pressed
  parse_chord chord =
      let trimmed = trim chord in
      let (body, key) = body_of trimmed in
      if is_blank trimmed
      then rejected empty_chord
      else pressed (read_segments (is_blank body) (split_plus body) [] key)
