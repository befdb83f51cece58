-- ===== src/Terminal/Sanitize/Panic.antt =====
-- When `strip_controls` panics: it slices the string behind an ESC and one byte, which is inside a
-- character if that byte leads one of several bytes.
use zyris_protocol.Prelude.{
  ℕ, suc, ◌+◌, ◌≤◌, ◌<◌, ◌≡◌, refl, ap, ◌∙◌, some, [], ◌∷◌, ◌++◌, arith, Bytes, Text, length,
  length-append, drop,
}
use native.Mathlib.Nat.{zero-add}
use zyris_protocol.Terminal.Buffer.Tail.{IsContinuation}
use zyris_protocol.Terminal.Sanitize.Escape.{drop_next}
use zyris_protocol.Terminal.Sanitize.Clean.{All}
use zyris_protocol.Terminal.Sanitize.{
  scan_escape, scan_kind, char_width, panicked, round, round_escape, round_char, strip_from,
  strip_controls, strip_at, strip_round,
}

abbrev pub IsPrintable : ℕ → Type 0
IsPrintable c = (0x20 ≤ c) × (c < 0x7F)

-- A printable byte is passed on.
strip-printable :
    (fuel : ℕ) (b : Bytes) (i : ℕ) (out : Text) (c : ℕ) (rest : Bytes)
    → drop i b ≡ c ∷ rest
    → IsPrintable c
    → strip_from (suc fuel) b i out ≡ strip_from fuel b (i + 1) (out ++ (c ∷ []))
unfolding strip_from strip_at strip_round round round_char char_width
strip-printable fuel b i out c rest e p = rw e (ground arith)

-- An ESC before a character of several bytes: its sequence is taken to end inside that character,
scan_escape-wide :
    (b : Bytes) (i kind : ℕ) (rest : Bytes)
    → drop i b ≡ 0x1B ∷ kind ∷ rest
    → 0xC0 ≤ kind
    → scan_escape b i ≡ some (i + 1 + 1)
unfolding scan_escape scan_kind
scan_escape-wide b i kind rest e k = rw (drop_next i b e) (ground arith)

strip-escape :
    (fuel : ℕ) (b : Bytes) (i : ℕ) (out : Text) (kind : ℕ) (rest : Bytes)
    → drop i b ≡ 0x1B ∷ kind ∷ rest
    → 0xC0 ≤ kind
    → strip_from (suc fuel) b i out ≡ strip_from fuel b (i + 1 + 1) out
unfolding strip_from strip_at strip_round round round_escape
strip-escape fuel b i out kind rest e k =
    rw (e, scan_escape-wide b i kind rest e k, round_escape) refl

-- where the next round slices the string.
strip-continuation :
    (fuel : ℕ) (b : Bytes) (i : ℕ) (out : Text) (d : ℕ) (rest : Bytes)
    → drop i b ≡ d ∷ rest
    → IsContinuation d
    → strip_from (suc fuel) b i out ≡ panicked
unfolding strip_from strip_at strip_round round round_char char_width
strip-continuation fuel b i out d rest e c = rw e (ground arith)

strip_from-panicked :
    (before : Bytes) (fuel : ℕ) (b : Bytes) (i : ℕ) (out : Text) (kind d : ℕ) (rest : Bytes)
    → drop i b ≡ before ++ (0x1B ∷ kind ∷ d ∷ rest)
    → All IsPrintable before
    → 0xC0 ≤ kind
    → IsContinuation d
    → (n : ℕ) → n ≡ length before + suc (suc fuel)
    → strip_from n b i out ≡ panicked
strip_from-panicked [] fuel b i out kind d rest e p k c n f =
    ap (λ m. strip_from m b i out) (f ∙ zero-add (suc (suc fuel)))
    ∙ strip-escape (suc fuel) b i out kind (d ∷ rest) e k
    ∙ strip-continuation fuel b (i + 1 + 1) out d rest (drop_next (i + 1) b (drop_next i b e)) c
strip_from-panicked (x ∷ before) fuel b i out kind d rest e p k c n f =
    let m = length before + suc (suc fuel) in
    let size : n ≡ suc m = omega arith in
    ap (λ m. strip_from m b i out) size
    ∙ strip-printable m b i out x (before ++ (0x1B ∷ kind ∷ d ∷ rest)) e p.0
    ∙ strip_from-panicked before fuel b (i + 1) (out ++ (x ∷ [])) kind d rest (drop_next i b e) p.1
        k c m refl

-- A text panics the read if its first ESC stands before a character of several bytes, here behind
-- printable ASCII.
pub strip_controls-panicked :
    (before : Bytes) (kind d : ℕ) (rest : Bytes)
    → All IsPrintable before
    → 0xC0 ≤ kind
    → IsContinuation d
    → strip_controls (before ++ (0x1B ∷ kind ∷ d ∷ rest)) ≡ panicked
unfolding strip_controls
strip_controls-panicked before kind d rest p k c =
    let b = before ++ (0x1B ∷ kind ∷ d ∷ rest) in
    strip_from-panicked before (length rest + 2) b 0 [] kind d rest refl p k c (length b + 1)
      (omega (arith, length-append before (0x1B ∷ kind ∷ d ∷ rest)))
