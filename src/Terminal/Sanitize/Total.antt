-- ===== src/Terminal/Sanitize/Total.antt =====
-- `strip_controls` completes where no ESC stands before a character of several bytes.
use zyris_protocol.Prelude.{
  ℕ, zero, suc, ◌+◌, ◌<◌, ◌≡◌, refl, sym, ap, ◌∙◌, subst, inl, inr, none, [], ◌∷◌, ◌++◌, arith,
  ◌==◌, Bool-cases, Option-cases, Bytes, Text, length, drop, drop-drop, drop_all, drop_cong,
}
use zyris_protocol.Terminal.Buffer.Tail.{IsContinuation}
use zyris_protocol.Terminal.Sanitize.Escape.{
  Follow, continuations, IsWellFormed, drop-IsWellFormed, scan_escape-Ends, drop_next, ascii-Follow,
}
use zyris_protocol.Terminal.Sanitize.Clean.{
  All, IsPlain, Leaves, strip_controls-Leaves, drop-Follow, char_width-continuations,
}
use zyris_protocol.Terminal.Sanitize.{
  scan_escape, scan_kind, char_width, Stripped, done, panicked, out_of_fuel, Round, skip, emit,
  stop, panic, round, round_escape, round_return, round_char, strip_from, strip_controls, strip_at,
  strip_round,
}

-- Every ESC is followed by ASCII, or by nothing.
abbrev pub EscapesAscii : Bytes → Type 0
EscapesAscii [] = Unit {0}
EscapesAscii (c ∷ []) = Unit {0}
EscapesAscii (c ∷ d ∷ rest) = (c ≡ 0x1B → d < 0x80) × EscapesAscii (d ∷ rest)

drop-EscapesAscii : (n : ℕ) (b : Bytes) → EscapesAscii b → EscapesAscii (drop n b)
drop-EscapesAscii zero b h = h
drop-EscapesAscii (suc n) [] h = h
drop-EscapesAscii (suc n) (c ∷ []) h = subst EscapesAscii (sym (drop_all n [] (omega arith))) tt
drop-EscapesAscii (suc n) (c ∷ d ∷ rest) h = drop-EscapesAscii n (d ∷ rest) h.1

-- A round that starts at the boundary of a character stops, or moves to another boundary.
abbrev Stays : Bytes → Round → Type 0
Stays b (skip next) = Follow 0 (drop next b)
Stays b (emit _ next) = Follow 0 (drop next b)
Stays b stop = Unit
Stays b panic = ⊥

module _ (b : Bytes) (i c : ℕ) (rest : Bytes) (at : drop i b ≡ c ∷ rest)
    (wf : IsWellFormed (c ∷ rest)) where
  next-Follow : c < 0x80 → Follow 0 (drop (i + 1) b)
  next-Follow h = subst (Follow 0) (sym (drop_next i b at)) (ascii-Follow c rest h wf)

  round_char-Stays : ¬ IsContinuation c → Stays b (round_char i c rest)
  unfolding round_char
  round_char-Stays h = elim (Option-cases (char_width c)) [
    | inl e ↦ absurd (h (unfold char_width in ground arith))
    | inr (w, e) ↦
        let (size, leads) = char_width-continuations c w e in
        rw (e, round_char)
          (subst (Follow 0)
            (ap (drop (continuations c)) (sym (drop_next i b at))
              ∙ drop-drop (continuations c) (i + 1) b
              ∙ drop_cong {m = i + w} b (omega (arith, size)))
            (drop-Follow (continuations c) rest (wf.0 leads)))
  ]

scan_none : (b : Bytes) (i : ℕ) {c : ℕ} → drop i b ≡ c ∷ [] → scan_escape b i ≡ none
unfolding scan_escape scan_kind
scan_none b i at = rw (drop_next i b at) refl

return-Stays :
    (b : Bytes) (i c : ℕ) (rest : Bytes)
    → drop i b ≡ c ∷ rest
    → IsWellFormed (c ∷ rest)
    → c < 0x80
    → Stays b (round_return i rest)
unfolding round_return
return-Stays b i c [] at wf h = next-Follow b i c [] at wf h
return-Stays b i c (d ∷ rest) at wf h = elim (Bool-cases (d == b'\n')) [
  | inl newline ↦ rw newline (
      subst (Follow 0) (drop_cong {n = i + 1 + 1} b (omega arith))
        (next-Follow b (i + 1) d rest (drop_next i b at) wf.1 (ground arith)))
  | inr bare ↦ rw bare (next-Follow b i c (d ∷ rest) at wf h)
]

escape-Stays :
    (b : Bytes) (i c : ℕ) (rest : Bytes)
    → drop i b ≡ c ∷ rest
    → IsWellFormed (c ∷ rest)
    → EscapesAscii (c ∷ rest)
    → c ≡ 0x1B
    → Stays b (round_escape b i)
unfolding round_escape
escape-Stays b i c [] at wf h e = rw (scan_none b i at, round_escape) tt
escape-Stays b i c (d ∷ rest) at wf h e = elim (Option-cases (scan_escape b i)) [
  | inl n ↦ rw (n, round_escape) tt
  | inr (k, found) ↦ rw (found, round_escape) (scan_escape-Ends b i at (h.0 e) wf.1 k found).1
]

round-Stays :
    (b : Bytes) (i c : ℕ) (rest : Bytes)
    → drop i b ≡ c ∷ rest
    → IsWellFormed (c ∷ rest)
    → EscapesAscii (c ∷ rest)
    → ¬ IsContinuation c
    → Stays b (round b i c rest)
unfolding round
round-Stays b i c rest at wf h k = ground (
  arith,
  escape-Stays b i c rest at wf h,
  return-Stays b i c rest at wf,
  next-Follow b i c rest at wf,
  round_char-Stays b i c rest at wf k,
)

-- The whole text is read, and what is left is plain.
abbrev pub Completes : Stripped → Type 0
Completes (done out) = All IsPlain out
Completes panicked = ⊥
Completes out_of_fuel = ⊥

abbrev NotPanicked : Stripped → Type 0
NotPanicked panicked = ⊥
NotPanicked _ = Unit {0}

strip_round-NotPanicked :
    (b : Bytes) (loop : ℕ → Text → Stripped) (out : Text)
    → ((next : ℕ) (more : Text) → Follow 0 (drop next b) → NotPanicked (loop next more))
    → (r : Round) → Stays b r
    → NotPanicked (strip_round loop out r)
unfolding strip_round
strip_round-NotPanicked b loop out rec (skip next) s = rec next out s
strip_round-NotPanicked b loop out rec (emit bytes next) s = rec next (out ++ bytes) s
strip_round-NotPanicked b loop out rec stop s = tt
strip_round-NotPanicked b loop out rec panic s = s

strip_at-NotPanicked :
    (b : Bytes) (i : ℕ) (loop : ℕ → Text → Stripped) (out : Text) (at : Bytes)
    → drop i b ≡ at
    → IsWellFormed b
    → EscapesAscii b
    → Follow 0 at
    → ((next : ℕ) (more : Text) → Follow 0 (drop next b) → NotPanicked (loop next more))
    → NotPanicked (strip_at loop b i out at)
unfolding strip_at
strip_at-NotPanicked b i loop out [] e wf h f rec = tt
strip_at-NotPanicked b i loop out (c ∷ rest) e wf h f rec =
    strip_round-NotPanicked b loop out rec (round b i c rest) (
      round-Stays b i c rest e (subst IsWellFormed e (drop-IsWellFormed i b wf))
        (subst EscapesAscii e (drop-EscapesAscii i b h)) f)

strip_from-NotPanicked :
    (fuel : ℕ) (b : Bytes) (i : ℕ) (out : Text)
    → IsWellFormed b
    → EscapesAscii b
    → Follow 0 (drop i b)
    → NotPanicked (strip_from fuel b i out)
unfolding strip_from
strip_from-NotPanicked zero b i out wf h f = tt
strip_from-NotPanicked (suc fuel) b i out wf h f =
    strip_at-NotPanicked b i (strip_from fuel b) out (drop i b) refl wf h f
      λ next more g. strip_from-NotPanicked fuel b next more wf h g

completes : (r : Stripped) → Leaves r → NotPanicked r → Completes r
completes (done out) h k = h
completes panicked h k = k
completes out_of_fuel h k = h

-- If every ESC of a well-formed text is followed by ASCII or ends it, the text is stripped with no
-- panic, and no control byte but newlines and tabs is left.
pub strip_controls-Completes :
    (s : Text) → IsWellFormed s → Follow 0 s → EscapesAscii s → Completes (strip_controls s)
unfolding strip_controls
strip_controls-Completes s wf f h =
    completes (strip_controls s) (strip_controls-Leaves s wf)
      (strip_from-NotPanicked (length s + 1) s 0 [] wf h f)
