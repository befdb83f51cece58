-- ===== src/Terminal/Sanitize/Clean.antt =====
-- What `strip_controls` leaves, that it ends, and when it panics.
use zyris_protocol.Prelude.{
  ℕ, zero, suc, ◌+◌, ◌-◌, ◌≤◌, ◌<◌, ◌≡◌, refl, sym, ap, subst, ◌≢◌, ◌⊎◌, inl, inr, some, [], ◌∷◌,
  ◌++◌, arith, Option-cases, Bytes, Text, length, take, drop, length-drop,
}
use zyris_protocol.Terminal.Buffer.Tail.{IsContinuation}
use zyris_protocol.Terminal.Sanitize.Escape.{
  Follow, continuations, IsWellFormed, drop-IsWellFormed, scan_escape-lt,
}
use zyris_protocol.Terminal.Sanitize.{
  scan_escape, char_width, Stripped, done, panicked, out_of_fuel, Round, skip, emit, stop, panic,
  round, round_escape, round_return, round_char, strip_from, strip_controls, strip_at, strip_round,
}

-- The only control bytes that may be left are the newline and the tab.
abbrev pub IsPlain : ℕ → Type 0
IsPlain c = (c ≡ b'\n') ⊎ (c ≡ b'\t') ⊎ ((0x20 ≤ c) × (c ≢ 0x7F))

abbrev pub All {ℓ} : (ℕ → Type ℓ) → Bytes → Type ℓ
All P [] = Unit
All P (c ∷ cs) = P c × All P cs

pub All-append : (P : ℕ → Type 0) (xs ys : Bytes) → All P xs → All P ys → All P (xs ++ ys)
All-append P [] ys h k = k
All-append P (x ∷ xs) ys h k = (h.0, All-append P xs ys h.1 k)

take-Follow : (n : ℕ) (rest : Bytes) → Follow n rest → All IsPlain (take n rest)
take-Follow zero rest h = tt
take-Follow (suc n) [] h = elim h [ ]
take-Follow (suc n) (c ∷ rest) h = (ground arith, take-Follow n rest h.1)

pub drop-Follow : (n : ℕ) (rest : Bytes) → Follow n rest → Follow 0 (drop n rest)
drop-Follow zero rest h = h
drop-Follow (suc n) [] h = elim h [ ]
drop-Follow (suc n) (c ∷ rest) h = drop-Follow n rest h.1

-- A byte that has a width leads the character that its continuations belong to.
pub char_width-continuations :
    (c w : ℕ) → char_width c ≡ some w → (w ≡ suc (continuations c)) × ¬ IsContinuation c
unfolding char_width
char_width-continuations c w h = ground arith

-- What a round may do in well-formed text: it moves on, and it writes plain bytes.
abbrev Moves : ℕ → Round → Type 0
Moves i (skip next) = i < next
Moves i (emit bytes next) = (i < next) × All IsPlain bytes
Moves i _ = Unit {0}

round_escape-Moves : (b : Bytes) (i : ℕ) → Moves i (round_escape b i)
unfolding round_escape
round_escape-Moves b i = elim (Option-cases (scan_escape b i)) [
  | inl e ↦ rw (e, round_escape) tt
  | inr (k, e) ↦ rw (e, round_escape) (omega (arith, scan_escape-lt b i k e))
]

round_return-Moves : (i : ℕ) (rest : Bytes) → Moves i (round_return i rest)
unfolding round_return
round_return-Moves i [] = omega arith
round_return-Moves i (d ∷ rest) = ground arith

round_char-Moves :
    (i c : ℕ) (rest : Bytes)
    → IsWellFormed (c ∷ rest)
    → 0x20 ≤ c
    → c ≢ 0x7F
    → Moves i (round_char i c rest)
unfolding round_char
round_char-Moves i c rest wf h k = elim (Option-cases (char_width c)) [
  | inl e ↦ rw (e, round_char) tt
  | inr (w, e) ↦
      let (size, leads) = char_width-continuations c w e in
      rw (e, round_char, size)
        (omega arith, (inr (inr (h, k)), take-Follow (continuations c) rest (wf.0 leads)))
]

round-Moves :
    (b : Bytes) (i c : ℕ) (rest : Bytes) → IsWellFormed (c ∷ rest) → Moves i (round b i c rest)
unfolding round
round-Moves b i c rest wf =
    ground (arith, round_escape-Moves b i, round_return-Moves i rest, round_char-Moves i c rest wf)

-- With fuel for each byte that is left the loop ends, and leaves plain bytes only.
abbrev pub Leaves : Stripped → Type 0
Leaves (done out) = All IsPlain out
Leaves panicked = Unit {0}
Leaves out_of_fuel = ⊥

strip_round-Leaves :
    (b : Bytes) (i : ℕ) (loop : ℕ → Text → Stripped) (out : Text)
    → All IsPlain out
    → ((next : ℕ) (more : Text) → i < next → All IsPlain more → Leaves (loop next more))
    → (r : Round) → Moves i r
    → Leaves (strip_round loop out r)
unfolding strip_round
strip_round-Leaves b i loop out h rec (skip next) m = rec next out m h
strip_round-Leaves b i loop out h rec (emit bytes next) m =
    rec next (out ++ bytes) m.0 (All-append IsPlain out bytes h m.1)
strip_round-Leaves b i loop out h rec stop m = h
strip_round-Leaves b i loop out h rec panic m = tt

strip_at-Leaves :
    (b : Bytes) (i : ℕ) (loop : ℕ → Text → Stripped) (out : Text) (at : Bytes)
    → at ≡ drop i b
    → IsWellFormed b
    → All IsPlain out
    → ((next : ℕ) (more : Text)
        → length b - next < length b - i
        → All IsPlain more
        → Leaves (loop next more))
    → Leaves (strip_at loop b i out at)
unfolding strip_at
strip_at-Leaves b i loop out [] e wf h rec = h
strip_at-Leaves b i loop out (c ∷ rest) e wf h rec =
    strip_round-Leaves b i loop out h
      (λ next more m. rec next more (omega (arith, ap length e, length-drop i b)))
      (round b i c rest)
      (round-Moves b i c rest (subst IsWellFormed (sym e) (drop-IsWellFormed i b wf)))

strip_from-Leaves :
    (fuel : ℕ) (b : Bytes) (i : ℕ) (out : Text)
    → length b - i < fuel
    → IsWellFormed b
    → All IsPlain out
    → Leaves (strip_from fuel b i out)
unfolding strip_from
strip_from-Leaves zero b i out f wf h = absurd (omega arith)
strip_from-Leaves (suc fuel) b i out f wf h =
    strip_at-Leaves b i (strip_from fuel b) out (drop i b) refl wf h
      λ next more m. strip_from-Leaves fuel b next more (omega arith) wf

-- The loop ends on every well-formed text, and what it leaves holds no control byte but newlines
-- and tabs: no ESC survives.
pub strip_controls-Leaves : (s : Text) → IsWellFormed s → Leaves (strip_controls s)
unfolding strip_controls
strip_controls-Leaves s wf = strip_from-Leaves (length s + 1) s 0 [] (omega arith) wf tt
