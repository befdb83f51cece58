-- ===== src/Terminal/Poll/Ends.antt =====
-- crates/zyris-capkit/src/terminal/mod.rs: texts whose last 40,000 characters are the same.
use zyris_protocol.Prelude.{
  ℕ, suc, ◌-◌, ◌≤◌, ◌<◌, min, max, ◌≡◌, refl, sym, ap, ◌∙◌, subst, inl, inr, not, ◌&&◌, [], ◌∷◌,
  ◌++◌, arith, ltb, leb, ◌==◌, if◌then◌else◌, ltb→lt, leb→le, Bool-cases, length, length-append,
  take, drop, take-append-drop, length-drop, drop-append, drop_same, drop_all, if-cases,
}
use zyris_protocol.Terminal.Exec.{Chars, push_capped, take_tail, tail_chars, truncation_mark}
use zyris_protocol.Terminal.Poll.{
  ExecOutput, body_of, ends_with_newline, poll_accumulated_cap, poll_max_output_chars,
}
use zyris_protocol.Terminal.Exec.Tails.{
  take_tail_lem, take_tail_short, take_tail-append, take_tail-shorter, push_capped-take_tail,
  tail_chars_long,
}
use mathlib.Core.List.{append_assoc}

-- Neither text, or both, have more.
pub record SameEnd (a b : Chars) : Type 0 where
  pub tails : take_tail a poll_max_output_chars ≡ take_tail b poll_max_output_chars
  pub lengths :
      min (length a) (suc poll_max_output_chars) ≡ min (length b) (suc poll_max_output_chars)

pub SameEnd-same : (a b : Chars) → a ≡ b → SameEnd a b
SameEnd-same a b e = record {
  tails = ap (λ t. take_tail t poll_max_output_chars) e;
  lengths = ap (λ t. min (length t) (suc poll_max_output_chars)) e;
}

pub SameEnd-trans : (a b c : Chars) → SameEnd a b → SameEnd b c → SameEnd a c
SameEnd-trans a b c h k = record { tails = h.tails ∙ k.tails; lengths = h.lengths ∙ k.lengths }

pub SameEnd-append : (a b c : Chars) → SameEnd a b → SameEnd (a ++ c) (b ++ c)
SameEnd-append a b c h = record {
  tails =
      sym (take_tail-append a c poll_max_output_chars)
      ∙ ap (λ t. take_tail (t ++ c) poll_max_output_chars) h.tails
      ∙ take_tail-append b c poll_max_output_chars;
  lengths = omega (arith, length-append a c, length-append b c, h.lengths);
}

pub SameEnd-push_capped : (a b : Chars) → SameEnd (push_capped a b poll_accumulated_cap).0 (a ++ b)
SameEnd-push_capped a b =
    subst (λ t. SameEnd t (a ++ b)) (sym (push_capped-take_tail a b poll_accumulated_cap))
      (cut (a ++ b))
  where
    cut : (x : Chars) → SameEnd (take_tail x poll_accumulated_cap) x
    cut x = record {
      tails = take_tail-shorter x poll_max_output_chars poll_accumulated_cap (omega arith);
      lengths = omega (
        arith,
        ap length (take_tail_lem x poll_accumulated_cap),
        length-drop (length x - poll_accumulated_cap) x,
      );
    }

-- What a text for the caller shows is in its last characters.
pub tail_chars-SameEnd :
    (a b : Chars) (most : ℕ)
    → most ≤ poll_max_output_chars
    → SameEnd a b
    → tail_chars a most ≡ tail_chars b most
tail_chars-SameEnd a b most h s = elim (Bool-cases (leb (length a) most)) [
  | inl short ↦ within (leb→le (length a) most short)
  | inr long ↦ over (ground (arith, long))
]
  where
    within : length a ≤ most → tail_chars a most ≡ tail_chars b most
    within k =
        ap (λ t. tail_chars t most)
          (sym (take_tail_short a poll_max_output_chars (omega (arith, h, k)))
            ∙ s.tails
            ∙ take_tail_short b poll_max_output_chars (omega (arith, h, k, s.lengths)))

    over : most < length a → tail_chars a most ≡ tail_chars b most
    over k =
        tail_chars_long a most k
        ∙ ap (λ t. truncation_mark ++ t)
            (sym (take_tail-shorter a most poll_max_output_chars h)
              ∙ ap (λ t. take_tail t most) s.tails
              ∙ take_tail-shorter b most poll_max_output_chars h)
        ∙ sym (tail_chars_long b most (omega (arith, h, k, s.lengths)))

-- A text with a line feed at its end, unless it is empty.
unfoldable pub ended_line : Chars → Chars
ended_line [] = []
ended_line (c ∷ []) = if c == 10 then c ∷ [] else c ∷ 10 ∷ []
ended_line (c ∷ d ∷ cs) = c ∷ ended_line (d ∷ cs)

finish : Chars → Chars
finish body =
    if ltb 0 (length body) && not (ends_with_newline body) then body ++ (10 ∷ []) else body

finish_lem : (x : Chars) → finish x ≡ ended_line x
unfolding finish ended_line ends_with_newline
finish_lem [] = ground arith
finish_lem (c ∷ []) = ground arith
finish_lem (c ∷ d ∷ cs) = ground (arith, finish_lem (d ∷ cs))

ended_line-append : (p q : Chars) → 0 < length q → ended_line (p ++ q) ≡ p ++ ended_line q
unfolding ended_line
ended_line-append [] q h = refl
ended_line-append (c ∷ []) [] h = absurd (omega arith)
ended_line-append (c ∷ []) (d ∷ q) h = refl
ended_line-append (c ∷ d ∷ p) q h = ap (λ t. c ∷ t) (ended_line-append (d ∷ p) q h)

length-ended_line : (x : Chars) → length x ≤ length (ended_line x)
unfolding ended_line
length-ended_line [] = omega arith
length-ended_line (c ∷ []) = ground arith
length-ended_line (c ∷ d ∷ cs) = omega (arith, length-ended_line (d ∷ cs))

-- What stands before so many characters is not in the tail.
take_tail-behind :
    (y x : Chars) (max : ℕ) → max ≤ length x → take_tail (y ++ x) max ≡ take_tail x max
take_tail-behind y x max h =
    take_tail_lem (y ++ x) max
    ∙ drop-append (length (y ++ x) - max) y x
    ∙ ap (λ t. t ++ drop (length (y ++ x) - max - length y) x)
        (drop_all (length (y ++ x) - max) y (omega (arith, length-append y x, h)))
    ∙ drop_same _ _ x (omega (arith, length-append y x, h))
    ∙ sym (take_tail_lem x max)

-- The cut of one attempt's output is not seen, if its heading is there.
pub SameEnd-body_of :
    (a : Chars) (out : ExecOutput)
    → 0 < length a
    → SameEnd (a ++ body_of out) (a ++ ended_line (out.stdout ++ out.stderr))
unfolding body_of finish
SameEnd-body_of a out h =
    if-cases (λ x. SameEnd (a ++ finish x) (a ++ ended_line (out.stdout ++ out.stderr)))
      (ltb poll_max_output_chars (length (out.stdout ++ out.stderr)))
      (λ long. cut (out.stdout ++ out.stderr) (ltb→lt _ _ long))
      (λ short. SameEnd-same _ _ (ap (λ t. a ++ t) (finish_lem (out.stdout ++ out.stderr))))
  where
    behind : (y x : Chars) → poll_max_output_chars ≤ length x → SameEnd (a ++ x) (a ++ (y ++ x))
    behind y x k = record {
      tails =
          take_tail-behind a x poll_max_output_chars k
          ∙ sym (take_tail-behind (a ++ y) x poll_max_output_chars k)
          ∙ ap (λ t. take_tail t poll_max_output_chars) (append_assoc a y x);
      lengths = omega (arith, length-append a x, length-append a (y ++ x), length-append y x, k, h);
    }

    cut :
        (f : Chars)
        → poll_max_output_chars < length f
        → SameEnd (a ++ finish (take_tail f poll_max_output_chars)) (a ++ ended_line f)
    cut f k =
        let n = length f - poll_max_output_chars in
        let q = take_tail f poll_max_output_chars in
        let full : length q ≡ poll_max_output_chars =
          ap length (take_tail_lem f poll_max_output_chars) ∙ length-drop n f ∙ omega (arith, k) in
        SameEnd-trans (a ++ finish q) (a ++ ended_line q) (a ++ ended_line f)
          (SameEnd-same _ _ (ap (λ t. a ++ t) (finish_lem q)))
          (SameEnd-trans (a ++ ended_line q) (a ++ (take n f ++ ended_line q)) (a ++ ended_line f)
            (behind (take n f) (ended_line q) (omega (arith, length-ended_line q, full)))
            (SameEnd-same _ _ (
              ap (λ t. a ++ t)
                (sym (ended_line-append (take n f) q (omega (arith, full)))
                  ∙ ap ended_line (
                      ap (λ t. take n f ++ t) (take_tail_lem f poll_max_output_chars)
                      ∙ take-append-drop n f)))))
