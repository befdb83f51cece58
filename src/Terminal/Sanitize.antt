-- ===== src/Terminal/Sanitize.antt =====
-- crates/zyris-capkit/src/terminal/sanitize.rs: the control sequences that a read strips. A string
-- is its bytes; slicing it off a character boundary panics, as in Rust.
pub mod Clean
pub mod Escape
pub mod Total
pub mod Panic
use zyris_protocol.Prelude.{
  ℕ, zero, suc, ◌+◌, ◌-◌, ◌*◌, ◌/◌, ◌%◌, ◌^◌, ◌≤◌, ◌<◌, ◌≡◌, ◌∙◌, ◌≢◌, ◌↔◌, ◌⊎◌, ◌&&◌, ◌||◌, Option,
  none, some, [], ◌∷◌, ◌++◌, ltb, leb, ◌==◌, if◌then◌else◌, Bytes, Text, length, take, drop,
}

-- CSI: on to the byte that ends the sequence; the number is the index of the list's head.
scan_csi : ℕ → Bytes → Option ℕ
scan_csi j [] = none
scan_csi j (c ∷ rest) =
    let more = scan_csi (j + 1) rest in if leb 0x40 c && leb c 0x7E then some (j + 1) else more

-- OSC and its kin: on to BEL, ST or another ESC.
scan_osc : ℕ → Bytes → Option ℕ
scan_osc j [] = none
scan_osc j (c ∷ rest) =
    let more = scan_osc (j + 1) rest in
    if c == 0x07
    then some (j + 1)
    else if c == 0x1B
    then elim rest [ [] ↦ none | d ∷ _ ↦ if d == b'\\' then some (j + 2) else some (j + 1) ]
    else more

-- `scan_escape`, on what follows the ESC, whose first byte has the index `j`.
scan_kind : ℕ → Bytes → Option ℕ
scan_kind j [] = none
scan_kind j (kind ∷ rest) =
    if kind == b'['
    then scan_csi (j + 1) rest
    else if kind == b']' || kind == b'P' || kind == b'X' || kind == b'^' || kind == b'_'
    then scan_osc (j + 1) rest
    else some (j + 1)

unfoldable pub scan_escape : Bytes → ℕ → Option ℕ
unfolding scan_kind scan_csi scan_osc
scan_escape b i = scan_kind (i + 1) (drop (i + 1) b)

-- `rposition` of ESC: the last index at which it stands.
last_escape : ℕ → Bytes → Option ℕ
last_escape i [] = none
last_escape i (c ∷ rest) = elim (last_escape (i + 1) rest) [
  | some k ↦ some k
  | none ↦ if c == 0x1B then some i else none
]

abbrev lookback : ℕ
lookback = 256

unfoldable pub trim_incomplete_escape : Bytes → ℕ
unfolding scan_escape last_escape
trim_incomplete_escape b =
    let from = length b - lookback in
    elim (last_escape from (drop from b)) [
      | none ↦ length b
      | some esc ↦ elim (scan_escape b esc) [ some _ ↦ length b | none ↦ esc ]
    ]

-- The width of the character that a byte leads; `none` for a continuation byte, at which slicing
-- panics.
pub char_width : ℕ → Option ℕ
char_width c =
    if ltb c 0x80
    then some 1
    else if ltb c 0xC0
    then none
    else if ltb c 0xE0
    then some 2
    else if ltb c 0xF0
    then some 3
    else some 4

pub data Stripped : Type 0 where
  done : Text → Stripped
  panicked : Stripped
  out_of_fuel : Stripped

-- What one round of the loop of `strip_controls` does at index `i`, at byte `c` before `rest`.
pub data Round : Type 0 where
  skip : ℕ → Round
  emit : Bytes → ℕ → Round
  stop : Round
  panic : Round

round_escape : Bytes → ℕ → Round
round_escape b i = elim (scan_escape b i) [ some end ↦ skip end | none ↦ stop ]

round_return : ℕ → Bytes → Round
round_return i [] = skip (i + 1)
round_return i (d ∷ rest) = if d == b'\n' then emit (b'\n' ∷ []) (i + 2) else skip (i + 1)

round_char : ℕ → ℕ → Bytes → Round
round_char i c rest = elim (char_width c) [
  | none ↦ panic
  | some width ↦ emit (take width (c ∷ rest)) (i + width)
]

round : Bytes → ℕ → ℕ → Bytes → Round
round b i c rest =
    if c == 0x1B
    then round_escape b i
    else if c == b'\r'
    then round_return i rest
    else if c == b'\n' || c == b'\t'
    then emit (c ∷ []) (i + 1)
    else if ltb c 0x20 || c == 0x7F
    then skip (i + 1)
    else round_char i c rest

-- The loop. It is given the calls that it makes as a function, one with less fuel.
strip_round : (ℕ → Text → Stripped) → Text → Round → Stripped
strip_round loop out (skip next) = loop next out
strip_round loop out (emit bytes next) = loop next (out ++ bytes)
strip_round loop out stop = done out
strip_round loop out panic = panicked

strip_at : (ℕ → Text → Stripped) → Bytes → ℕ → Text → Bytes → Stripped
strip_at loop b i out [] = done out
strip_at loop b i out (c ∷ rest) = strip_round loop out (round b i c rest)

strip_from : ℕ → Bytes → ℕ → Text → Stripped
strip_from zero b i out = out_of_fuel
strip_from (suc fuel) b i out = strip_at (strip_from fuel b) b i out (drop i b)

unfoldable pub strip_controls : Text → Stripped
unfolding strip_from strip_at strip_round round round_escape round_return round_char char_width
    scan_escape
strip_controls s = strip_from (length s + 1) s 0 []
