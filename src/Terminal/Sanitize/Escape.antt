-- ===== src/Terminal/Sanitize/Escape.antt =====
-- Where control sequences end in well-formed text.
use zyris_protocol.Prelude.{
  sym, drop-drop, ℕ, zero, suc, ◌+◌, ◌-◌, ◌<◌, ◌≡◌, sym, ap, ◌∙◌, subst, inl, inr, ◌&&◌, ◌||◌,
  Option, none, some, [], ◌∷◌, arith, ltb, leb, ◌==◌, if◌then◌else◌, Bool-cases, Bytes, drop,
  drop-drop, drop_cong,
}
use zyris_protocol.Terminal.Sanitize.{scan_csi, scan_osc, scan_kind, scan_escape}
use zyris_protocol.Terminal.Buffer.Tail.{IsContinuation}

-- `n` continuation bytes, and then none.
abbrev pub Follow : ℕ → Bytes → Type 0
Follow zero [] = Unit {0}
Follow zero (c ∷ rest) = ¬ IsContinuation c
Follow (suc n) [] = ⊥
Follow (suc n) (c ∷ rest) = IsContinuation c × Follow n rest

abbrev pub continuations : ℕ → ℕ
continuations c = if ltb c 0xC0 then 0 else if ltb c 0xE0 then 1 else if ltb c 0xF0 then 2 else 3

-- Behind each byte that is no continuation stand the continuation bytes that it asks for. Every
-- Rust string is so, and every suffix of one.
abbrev pub IsWellFormed : Bytes → Type 0
IsWellFormed [] = Unit {0}
IsWellFormed (c ∷ rest) = (¬ IsContinuation c → Follow (continuations c) rest) × IsWellFormed rest

pub drop-IsWellFormed : (n : ℕ) (b : Bytes) → IsWellFormed b → IsWellFormed (drop n b)
drop-IsWellFormed zero b w = w
drop-IsWellFormed (suc n) [] w = w
drop-IsWellFormed (suc n) (c ∷ rest) w = drop-IsWellFormed n rest w.1

-- The sequence ends behind where it began, at the boundary of a character.
abbrev pub Ends : ℕ → Bytes → Option ℕ → Type 0
Ends j b none = Unit {0}
Ends j b (some e) = (j < e) × Follow 0 (drop (e - j) b)

Ends-cons : (j c : ℕ) (b : Bytes) (r : Option ℕ) → Ends (j + 1) b r → Ends j (c ∷ b) r
Ends-cons j c b none h = tt
Ends-cons j c b (some e) h = (
  omega (arith, h.0),
  subst (Follow 0) (drop_cong {n = suc (e - (j + 1))} (c ∷ b) (omega (arith, h.0))) h.1,
)

-- A sequence that ends behind its first byte.
Ends-here : (j c : ℕ) (b : Bytes) → Follow 0 b → Ends j (c ∷ b) (some (j + 1))
Ends-here j c b h = (omega arith, subst (Follow 0) (drop_cong {n = 1} (c ∷ b) (omega arith)) h)

Ends-two : (j c d : ℕ) (b : Bytes) → Follow 0 b → Ends j (c ∷ d ∷ b) (some (j + 2))
Ends-two j c d b h = (omega arith, subst (Follow 0) (drop_cong {n = 2} (c ∷ d ∷ b) (omega arith)) h)

pub ascii-Follow : (c : ℕ) (b : Bytes) → c < 0x80 → IsWellFormed (c ∷ b) → Follow 0 b
ascii-Follow c b h w =
    subst (λ k. Follow k b) {x = continuations c} {y = 0} (ground arith) (w.0 (λ k. omega arith))

scan_csi-Ends : (j : ℕ) (b : Bytes) → IsWellFormed b → Ends j b (scan_csi j b)
unfolding scan_csi
scan_csi-Ends j [] w = tt
scan_csi-Ends j (c ∷ rest) w = elim (Bool-cases (leb 0x40 c && leb c 0x7E)) [
  | inl final ↦ rw final (Ends-here j c rest (ascii-Follow c rest (ground arith) w))
  | inr more ↦ rw more (Ends-cons j c rest _ (scan_csi-Ends (j + 1) rest w.1))
]

scan_osc-Ends : (j : ℕ) (b : Bytes) → IsWellFormed b → Ends j b (scan_osc j b)
unfolding scan_osc
scan_osc-Ends j [] w = tt
scan_osc-Ends j (c ∷ []) w = elim (Bool-cases (c == 0x07)) [
  | inl bell ↦ rw bell (Ends-here j c [] tt)
  | inr _ ↦ ground arith
]
scan_osc-Ends j (c ∷ d ∷ rest) w = elim (Bool-cases (c == 0x07)) [
  | inl bell ↦ rw bell (Ends-here j c (d ∷ rest) (ascii-Follow c (d ∷ rest) (ground arith) w))
  | inr silent ↦ elim (Bool-cases (c == 0x1B)) [
    | inl escape ↦ elim (Bool-cases (d == b'\\')) [
      | inl closed ↦
          rw (silent, escape, closed) (Ends-two j c d rest (ascii-Follow d rest (ground arith) w.1))
      | inr other ↦
          rw (silent, escape, other)
            (Ends-here j c (d ∷ rest) (ascii-Follow c (d ∷ rest) (ground arith) w))
    ]
    | inr inside ↦
        rw (silent, inside) (Ends-cons j c (d ∷ rest) _ (scan_osc-Ends (j + 1) (d ∷ rest) w.1))
  ]
]

scan_kind-Ends :
    (j kind : ℕ) (rest : Bytes)
    → kind < 0x80
    → IsWellFormed (kind ∷ rest)
    → Ends j (kind ∷ rest) (scan_kind j (kind ∷ rest))
unfolding scan_kind
scan_kind-Ends j kind rest h w =
    let csi = Ends-cons j kind rest _ (scan_csi-Ends (j + 1) rest w.1) in
    let osc = Ends-cons j kind rest _ (scan_osc-Ends (j + 1) rest w.1) in
    let short = Ends-here j kind rest (ascii-Follow kind rest h w) in
    elim (Bool-cases (kind == b'[')) [
      | inl c ↦ rw c csi
      | inr n ↦
          elim (Bool-cases
            (kind == b']' || kind == b'P' || kind == b'X' || kind == b'^' || kind == b'_')) [
              | inl o ↦ rw (n, o) osc
              | inr m ↦ rw (n, m) short
            ]
    ]

pub drop_next :
    (i : ℕ) (b : Bytes) {c : ℕ} {rest : Bytes} → drop i b ≡ c ∷ rest → drop (i + 1) b ≡ rest
drop_next i b h = sym (drop-drop 1 i b) ∙ ap (drop 1) h

-- An escape sequence in well-formed text ends behind the byte that follows its ESC and at the
-- boundary of a character, if that byte is ASCII.
pub scan_escape-Ends :
    (b : Bytes) (i : ℕ) {c kind : ℕ} {rest : Bytes}
    → drop i b ≡ c ∷ kind ∷ rest
    → kind < 0x80
    → IsWellFormed (kind ∷ rest)
    → (e : ℕ) → scan_escape b i ≡ some e
    → (i + 1 < e) × Follow 0 (drop e b)
unfolding scan_escape
scan_escape-Ends b i {kind = kind} {rest = rest} at h w e found =
    let next = drop_next i b at in
    let ends : Ends (i + 1) (kind ∷ rest) (some e) =
      subst (Ends (i + 1) (kind ∷ rest)) (ap (scan_kind (i + 1)) (sym next) ∙ found)
        (scan_kind-Ends (i + 1) kind rest h w) in
    (
      ends.0,
      subst (Follow 0)
          (ap (drop (e - (i + 1))) (sym next)
            ∙ drop-drop (e - (i + 1)) (i + 1) b
            ∙ drop_cong {m = e} b (omega (arith, ends.0)))
          ends.1,
    )

-- Whatever follows an ESC, its sequence ends behind the next byte.
abbrev Later : ℕ → Option ℕ → Type 0
Later j none = Unit {0}
Later j (some e) = j < e

scan_csi-Later : (j : ℕ) (b : Bytes) → Later j (scan_csi j b)
unfolding scan_csi
scan_csi-Later j [] = tt
scan_csi-Later j (c ∷ b) = ground (arith, scan_csi-Later (j + 1) b)

scan_osc-Later : (j : ℕ) (b : Bytes) → Later j (scan_osc j b)
unfolding scan_osc
scan_osc-Later j [] = tt
scan_osc-Later j (c ∷ []) = ground (arith)
scan_osc-Later j (c ∷ d ∷ b) = ground (arith, scan_osc-Later (j + 1) (d ∷ b))

scan_kind-Later : (j : ℕ) (b : Bytes) → Later j (scan_kind j b)
unfolding scan_kind
scan_kind-Later j [] = tt
scan_kind-Later j (c ∷ b) = ground (arith, scan_osc-Later (j + 1) b, scan_csi-Later (j + 1) b)

pub scan_escape-lt : (b : Bytes) (i : ℕ) (e : ℕ) → scan_escape b i ≡ some e → i + 1 < e
unfolding scan_escape
scan_escape-lt b i e found = rw found at (scan_kind-Later (i + 1) (drop (i + 1) b))
