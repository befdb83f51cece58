-- ===== src/Terminal/Exec/Tails.antt =====
-- crates/zyris-capkit/src/terminal/mod.rs: the tails that a poll keeps of its output.
use zyris_protocol.Prelude.{
  ℕ, ◌-◌, ◌≤◌, ◌<◌, max, ◌≡◌, refl, sym, ap, ◌∙◌, [], ◌∷◌, ◌++◌, arith, leb, length, length-append,
  take, drop, take-append-drop, length-drop, drop-append, drop-drop, take-append, drop_same,
  take_all, drop_cong, take_cong, if-cases,
}
use mathlib.Core.List.{reverse, reverse-cons, reverse-append, reverse-reverse, append-nil}
use zyris_protocol.Terminal.Exec.{Chars, take_tail, tail_chars, push_capped, truncation_mark}

length-reverse : (xs : Chars) → length (reverse xs) ≡ length xs
length-reverse [] = refl
length-reverse (x ∷ xs) =
    ap length (reverse-cons x xs)
    ∙ omega (arith, length-append (reverse xs) (x ∷ []), length-reverse xs)

-- The tail is what lies behind all but the last `max` characters.
pub take_tail_lem : (text : Chars) (max : ℕ) → take_tail text max ≡ drop (length text - max) text
unfolding take_tail
take_tail_lem text max =
    if-cases (λ t. t ≡ drop (length text - max) text) (leb (length text) max)
      (λ short. drop_cong {n = 0} text (ground arith))
      (λ long.
        ap reverse (
          front (drop (length text - max) text) (take (length text - max) text)
            (ground (arith, length-drop (length text - max) text)) text
            (sym (take-append-drop (length text - max) text)))
        ∙ reverse-reverse _)
  where
    front :
        (b a : Chars) → length b ≡ max → (t : Chars) → t ≡ a ++ b → take max (reverse t) ≡ reverse b
    front b a long t e =
        ap (λ u. take max (reverse u)) e
        ∙ ap (take max) (reverse-append a b)
        ∙ take-append max (reverse b) (reverse a)
        ∙ ap (λ u. u ++ take (max - length (reverse b)) (reverse a))
            (take_all max (reverse b) (omega (arith, length-reverse b, long)))
        ∙ ap (λ u. reverse b ++ u)
            (take_cong {m = 0} (reverse a) (omega (arith, length-reverse b, long)))
        ∙ append-nil (reverse b)

-- A tail of a tail and more is a tail of all.
pub take_tail-append :
    (a b : Chars) (cap : ℕ) → take_tail (take_tail a cap ++ b) cap ≡ take_tail (a ++ b) cap
take_tail-append a b cap =
    take_tail_lem (take_tail a cap ++ b) cap
    ∙ ap (λ t. drop (length (t ++ b) - cap) (t ++ b)) (take_tail_lem a cap)
    ∙ both (length a - cap) (omega arith)
    ∙ sym (take_tail_lem (a ++ b) cap)
  where
    whole : (k : ℕ) → k ≡ length a - cap → drop k (a ++ b) ≡ drop k a ++ b
    whole k e = drop-append k a b ∙ ap (λ t. drop k a ++ t) (drop_cong {m = 0} b (omega (arith, e)))

    both :
        (k : ℕ)
        → k ≡ length a - cap
        → drop (length (drop k a ++ b) - cap) (drop k a ++ b)
          ≡ drop (length (a ++ b) - cap) (a ++ b)
    both k e =
        ap (drop (length (drop k a ++ b) - cap)) (sym (whole k e))
        ∙ drop-drop (length (drop k a ++ b) - cap) k (a ++ b)
        ∙ drop_same _ _ (a ++ b)
            (omega (arith, e, length-append (drop k a) b, length-append a b, length-drop k a))

pub push_capped-take_tail :
    (a b : Chars) (cap : ℕ) → (push_capped a b cap).0 ≡ take_tail (a ++ b) cap
unfolding push_capped take_tail
push_capped-take_tail a b cap = ground arith

-- A shorter tail of a tail is a tail of all, and it is cut when all is longer.
pub take_tail-shorter :
    (a : Chars) (max cap : ℕ) → max ≤ cap → take_tail (take_tail a cap) max ≡ take_tail a max
take_tail-shorter a max cap h =
    take_tail_lem (take_tail a cap) max
    ∙ ap (λ t. drop (length t - max) t) (take_tail_lem a cap)
    ∙ drop-drop (length (drop (length a - cap) a) - max) (length a - cap) a
    ∙ drop_same _ _ a (omega (arith, length-drop (length a - cap) a, h))
    ∙ sym (take_tail_lem a max)

pub tail_chars_short : (a : Chars) (max : ℕ) → length a ≤ max → tail_chars a max ≡ a
unfolding tail_chars
tail_chars_short a max h = ground arith

pub tail_chars_long :
    (a : Chars) (max : ℕ) → max < length a → tail_chars a max ≡ truncation_mark ++ take_tail a max
unfolding tail_chars
tail_chars_long a max h = ground arith

pub take_tail_short : (a : Chars) (max : ℕ) → length a ≤ max → take_tail a max ≡ a
unfolding take_tail
take_tail_short a max h = ground arith
