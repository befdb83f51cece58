-- ===== src/Terminal/Poll/Printed.antt =====
-- crates/zyris-capkit/src/terminal/mod.rs: all that the attempts of a poll print, against what it keeps.
use zyris_protocol.Prelude.{
  ℕ, zero, suc, ◌+◌, ◌-◌, ◌/◌, ◌<◌, min, ◌≡◌, refl, sym, ap, ◌∙◌, subst, Bool, true, false, Option,
  none, some, List, [], ◌∷◌, ◌++◌, arith, leb, if◌then◌else◌, codes, length, length-append,
  length-drop, if-cases,
}
use zyris_protocol.Prelude.Int.{ℤ}
use zyris_protocol.Terminal.Exec.{Chars, push_capped}
use zyris_protocol.Terminal.Poll.{
  poll_loop, ExecOutput, Attempt, ran, broken, Polling, Condition, keep_attempt, heading, body_of,
  poll_accumulated_cap,
}
use zyris_protocol.Terminal.Exec.Tails.{take_tail_lem, push_capped-take_tail}
use zyris_protocol.Terminal.Poll.Ends.{
  SameEnd, SameEnd-same, SameEnd-trans, SameEnd-append, SameEnd-push_capped, SameEnd-body_of,
  ended_line,
}
use mathlib.Core.List.{append-nil, append_assoc}

joined : List Chars → Chars
joined [] = []
joined (t ∷ ts) = t ++ joined ts

-- The title of the n-th attempt, which ended at that millisecond.
unfoldable pub title : (ℕ → Chars) → (ℤ → Chars) → ℕ → ℕ → ExecOutput → Chars
unfolding joined
title digits signed n end out = joined (
    codes "--- attempt "
    ∷ digits n
    ∷ codes "  t="
    ∷ digits (end / 1000)
    ∷ codes "s  exit "
    ∷ signed out.exit_code
    ∷ (if out.timed_out then codes "  timed out ---" else codes " ---")
    ∷ (10 ∷ [])
    ∷ [])

-- All that so many attempts print from the time `now` on, when `before` were made: each its title,
-- its whole standard output, then its whole standard error, and a line feed if there is none.
unfoldable pub transcript :
    (ℕ → Chars) → (ℤ → Chars) → ℕ → ℕ → (ℕ → ℕ → Attempt) → ℕ → ℕ → ℕ → Chars
unfolding title ended_line
transcript digits signed interval budget run zero now before = []
transcript digits signed interval budget run (suc attempts) now before =
    elim (run (before + 1) (budget - now)) [
      | broken ↦ []
      | ran out took ↦
          let end = now + took in
          title digits signed (before + 1) end out
          ++ (ended_line (out.stdout ++ out.stderr)
              ++ transcript digits signed interval budget run attempts
                  (end + min interval (budget - end)) (before + 1))
    ]

module _ (digits : ℕ → Chars) (signed : ℤ → Chars) where
  heading_lem :
      (n end : ℕ) (out : ExecOutput)
      → heading digits signed n end out ≡ title digits signed n end out
  unfolding heading title
  heading_lem n end out =
      ap
        (λ t.
          codes "--- attempt "
          ++ (digits n
              ++ (codes "  t="
                  ++ (digits (end / 1000) ++ (codes "s  exit " ++ (signed out.exit_code ++ t))))))
        (last out.timed_out)
    where
      last :
          (b : Bool)
          → (if b then codes "  timed out" else []) ++ (codes " ---" ++ (10 ∷ []))
            ≡ (if b then codes "  timed out ---" else codes " ---") ++ ((10 ∷ []) ++ [])
      last true = refl
      last false = refl

  -- What is kept of an attempt ends as all that it prints, behind what was kept before.
  keep_attempt-SameEnd :
      (condition : Condition) (p : Polling) (out : ExecOutput) (took : ℕ)
      → SameEnd (keep_attempt digits signed condition p out took).accumulated (
          p.accumulated
          ++ (title digits signed (p.attempts + 1) (p.now + took) out
              ++ ended_line (out.stdout ++ out.stderr)))
  unfolding keep_attempt
  keep_attempt-SameEnd condition p out took =
      subst
        (λ h.
          SameEnd (keep_attempt digits signed condition p out took).accumulated
            (p.accumulated ++ (h ++ ended_line (out.stdout ++ out.stderr))))
        (heading_lem (p.attempts + 1) (p.now + took) out)
        (behind p.accumulated (heading digits signed (p.attempts + 1) (p.now + took) out)
          (omega arith))
    where
      behind :
          (a h : Chars)
          → 0 < length h
          → SameEnd
              (push_capped
                (push_capped a h poll_accumulated_cap).0
                (body_of out)
                poll_accumulated_cap).0
              (a ++ (h ++ ended_line (out.stdout ++ out.stderr)))
      behind a h one =
          let headed = (push_capped a h poll_accumulated_cap).0 in
          let line = ended_line (out.stdout ++ out.stderr) in
          let some_there : 0 < length headed = omega (
            arith,
            ap length (push_capped-take_tail a h poll_accumulated_cap),
            ap length (take_tail_lem (a ++ h) poll_accumulated_cap),
            length-drop (length (a ++ h) - poll_accumulated_cap) (a ++ h),
            length-append a h,
            one,
          ) in
          SameEnd-trans _ (headed ++ body_of out) _ (SameEnd-push_capped headed (body_of out)) (
            SameEnd-trans _ (headed ++ line) _ (SameEnd-body_of headed out some_there) (
              SameEnd-trans _ ((a ++ h) ++ line) _
                (SameEnd-append headed (a ++ h) line (SameEnd-push_capped a h))
                (SameEnd-same _ _ (append_assoc a h line))))

  module _ (condition : Condition) (interval budget : ℕ) (run : ℕ → ℕ → Attempt) where
    -- The attempts that a loop makes from `p` on, and what they add.
    unfoldable pub Printed : Polling → Option (Option Polling) → Type 0
    Printed p none = Unit {0}
    Printed p (some none) = Unit {0}
    Printed p (some (some q)) =
        (k : ℕ) × ((q.attempts ≡ p.attempts + k)
          × SameEnd q.accumulated
              (p.accumulated ++ transcript digits signed interval budget run k p.now p.attempts))

    transcript-suc :
        (k now before took : ℕ) (out : ExecOutput)
        → run (before + 1) (budget - now) ≡ ran out took
        → transcript digits signed interval budget run (suc k) now before
          ≡ title digits signed (before + 1) (now + took) out
            ++ (ended_line (out.stdout ++ out.stderr)
                ++ transcript digits signed interval budget run k
                    (now + took + min interval (budget - (now + took)))
                    (before + 1))
    unfolding transcript
    transcript-suc k now before took out e =
        ap
          (λ a. elim a as (λ _. Chars) [
            | broken ↦ []
            | ran out took ↦
                let end = now + took in
                title digits signed (before + 1) end out
                ++ (ended_line (out.stdout ++ out.stderr)
                    ++ transcript digits signed interval budget run k
                        (end + min interval (budget - end)) (before + 1))
          ])
          e

    -- One attempt, and those behind it.
    later :
        (p : Polling) (out : ExecOutput) (took k : ℕ) (b : Chars)
        → run (p.attempts + 1) (budget - p.now) ≡ ran out took
        → SameEnd b (
            (keep_attempt digits signed condition p out took).accumulated
            ++ transcript digits signed interval budget run k
                (p.now + took + min interval (budget - (p.now + took)))
                (p.attempts + 1))
        → SameEnd b
            (p.accumulated ++ transcript digits signed interval budget run (suc k) p.now p.attempts)
    later p out took k b e h =
        let t = title digits signed (p.attempts + 1) (p.now + took) out in
        let line = ended_line (out.stdout ++ out.stderr) in
        let rest =
          transcript digits signed interval budget run k
            (p.now + took + min interval (budget - (p.now + took))) (p.attempts + 1) in
        SameEnd-trans b _ _ h (
          SameEnd-trans _ ((p.accumulated ++ (t ++ line)) ++ rest) _
            (SameEnd-append _ (p.accumulated ++ (t ++ line)) rest
              (keep_attempt-SameEnd condition p out took))
            (SameEnd-same _ _ (
              append_assoc p.accumulated (t ++ line) rest
              ∙ ap (λ u. p.accumulated ++ u)
                  (append_assoc t line rest ∙ sym (transcript-suc k p.now p.attempts took out e)))))

    ended :
        (p : Polling) (out : ExecOutput) (took : ℕ)
        → run (p.attempts + 1) (budget - p.now) ≡ ran out took
        → Printed p (some (some (keep_attempt digits signed condition p out took)))
    unfolding Printed transcript keep_attempt
    ended p out took e = (
      1,
      (
        refl,
        later p out took 0 _ e (
            SameEnd-same _ _
              (sym (append-nil (keep_attempt digits signed condition p out took).accumulated))),
      ),
    )

    unfoldable next_of : Polling → ExecOutput → ℕ → Polling
    unfolding keep_attempt
    next_of p out took =
        let q = keep_attempt digits signed condition p out took in
        record q { now = q.now + min interval (budget - q.now) }

    onward :
        (p : Polling) (out : ExecOutput) (took : ℕ) (o : Option (Option Polling))
        → run (p.attempts + 1) (budget - p.now) ≡ ran out took
        → Printed (next_of p out took) o
        → Printed p o
    unfolding Printed next_of keep_attempt
    onward p out took none e h = tt
    onward p out took (some none) e h = tt
    onward p out took (some (some q)) e (k, (a, h)) =
        (suc k, (omega (arith, a), later p out took k q.accumulated e h))

    pub poll_loop-Printed :
        (fuel : ℕ) (p : Polling)
        → Printed p (poll_loop digits signed condition interval budget run fuel p)
    unfolding Printed poll_loop transcript next_of keep_attempt
    poll_loop-Printed zero p = tt
    poll_loop-Printed (suc fuel) p =
        if-cases (Printed p) (leb budget p.now)
          (λ spent. (0, (omega arith, SameEnd-same _ _ (sym (append-nil p.accumulated)))))
          (λ left. attempted (poll_loop-Printed fuel) (run (p.attempts + 1) (budget - p.now)) refl)
      where
        attempted :
            ((q : Polling)
              → Printed q (poll_loop digits signed condition interval budget run fuel q))
            → (a : Attempt) → run (p.attempts + 1) (budget - p.now) ≡ a
            → Printed p (elim a [
              | broken ↦ some none
              | ran out took ↦
                  let q = keep_attempt digits signed condition p out took in
                  let rest =
                    poll_loop digits signed condition interval budget run fuel
                      (next_of p out took) in
                  if q.met then some (some q) else if leb budget q.now then some (some q) else rest
            ])
        attempted on broken e = tt
        attempted on (ran out took) e =
            if-cases (Printed p) (keep_attempt digits signed condition p out took).met
              (λ m. ended p out took e)
              (λ unmet.
                if-cases (Printed p) (leb budget (p.now + took)) (λ spent. ended p out took e)
                  (λ over.
                    onward p out took
                      (poll_loop digits signed condition interval budget run fuel
                        (next_of p out took))
                      e (on (next_of p out took))))
