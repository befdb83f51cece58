-- ===== src/Terminal/Buffer/Tail.antt =====
-- What `trim_incomplete_tail` holds back.
use zyris_protocol.Prelude.{
  ℕ, suc, ◌+◌, ◌≤◌, ◌<◌, min, ◌≡◌, refl, [], ◌∷◌, ◌++◌, arith, Bytes, length, length-append,
}
use zyris_protocol.Terminal.Buffer.{trim_back, reverse_onto, trim_incomplete_tail}

abbrev pub IsContinuation : ℕ → Type 0
IsContinuation c = (0x80 ≤ c) × (c < 0xC0)

-- The bytes of one character, by the form of UTF-8.
pub data IsChar : Bytes → Type 0 where
  one : {c : ℕ} → c < 0x80 → IsChar (c ∷ [])
  two : {c d : ℕ} → 0xC0 ≤ c → c < 0xE0 → IsContinuation d → IsChar (c ∷ d ∷ [])
  three :
      {c d e : ℕ}
      → 0xE0 ≤ c
      → c < 0xF0
      → IsContinuation d
      → IsContinuation e
      → IsChar (c ∷ d ∷ e ∷ [])
  four :
      {c d e f : ℕ}
      → 0xF0 ≤ c
      → IsContinuation d
      → IsContinuation e
      → IsContinuation f
      → IsChar (c ∷ d ∷ e ∷ f ∷ [])

-- A character of which at least one byte has arrived, and at least one has not.
pub data IsPartial : Bytes → Type 0 where
  lead : {c : ℕ} → 0xC0 ≤ c → IsPartial (c ∷ [])
  lead_one : {c d : ℕ} → 0xE0 ≤ c → IsContinuation d → IsPartial (c ∷ d ∷ [])
  lead_two :
      {c d e : ℕ} → 0xF0 ≤ c → IsContinuation d → IsContinuation e → IsPartial (c ∷ d ∷ e ∷ [])

reverse_onto-append :
    (xs ys acc : Bytes) → reverse_onto (xs ++ ys) acc ≡ reverse_onto ys (reverse_onto xs acc)
unfolding reverse_onto
reverse_onto-append [] ys acc = refl
reverse_onto-append (x ∷ xs) ys acc = reverse_onto-append xs ys (x ∷ acc)

-- The loop over what follows `before`, with as many rounds as there are bytes, and at most three.
trim_lem :
    (before end : Bytes) (rounds : ℕ)
    → min 3 (length before + length end) ≡ rounds
    → trim_incomplete_tail (before ++ end)
      ≡ trim_back rounds 1 (length before + length end) (reverse_onto end (reverse_onto before []))
unfolding trim_incomplete_tail
trim_lem before end rounds h =
    rw (length-append before end, reverse_onto-append before end [], h) refl

-- After a whole character nothing is held back, whatever stands before it.
pub trim_incomplete_tail-IsChar :
    (before : Bytes) {end : Bytes}
    → IsChar end
    → trim_incomplete_tail (before ++ end) ≡ length (before ++ end)
trim_incomplete_tail-IsChar before (one {c} h) =
    rw (trim_lem before (c ∷ []) (suc (min 2 (length before))) (omega arith), length-append)
      (unfold trim_back reverse_onto in ground arith)
trim_incomplete_tail-IsChar before (two {c} {d} h k m) =
    rw
      (
        trim_lem before (c ∷ d ∷ []) (suc (suc (min 1 (length before)))) (omega arith),
        length-append,
      )
      (unfold trim_back reverse_onto in ground arith)
trim_incomplete_tail-IsChar before (three {c} {d} {e} h k m n) =
    rw (trim_lem before (c ∷ d ∷ e ∷ []) 3 (omega arith), length-append)
      (unfold trim_back reverse_onto in ground arith)
trim_incomplete_tail-IsChar before (four {c} {d} {e} {f} h k m n) =
    rw (trim_lem before (c ∷ d ∷ e ∷ f ∷ []) 3 (omega arith), length-append)
      (unfold trim_back reverse_onto in ground arith)

-- Of a character that has arrived in part, exactly that part is held back.
pub trim_incomplete_tail-IsPartial :
    (before : Bytes) {end : Bytes}
    → IsPartial end
    → trim_incomplete_tail (before ++ end) ≡ length before
trim_incomplete_tail-IsPartial before (lead {c} h) =
    rw (trim_lem before (c ∷ []) (suc (min 2 (length before))) (omega arith))
      (unfold trim_back reverse_onto in ground arith)
trim_incomplete_tail-IsPartial before (lead_one {c} {d} h m) =
    rw (trim_lem before (c ∷ d ∷ []) (suc (suc (min 1 (length before)))) (omega arith))
      (unfold trim_back reverse_onto in ground arith)
trim_incomplete_tail-IsPartial before (lead_two {c} {d} {e} h m n) =
    rw (trim_lem before (c ∷ d ∷ e ∷ []) 3 (omega arith))
      (unfold trim_back reverse_onto in ground arith)
