-- ===== src/Terminal/Poll/Budget.antt =====
-- crates/zyris-capkit/src/terminal/mod.rs: a poll ends.
use zyris_protocol.Prelude.{
  ℕ, zero, suc, ◌+◌, ◌-◌, ◌/◌, ◌≤◌, ◌<◌, min, ◌≡◌, refl, ◌≢◌, Bool, false, Option, none, some,
  arith, leb, if◌then◌else◌, leb→le, if-cases,
}
use zyris_protocol.Prelude.Int.{ℤ}
use zyris_protocol.Terminal.Exec.{
  Chars, Launched, neither, both, empty_argv, launches, checked_launch,
}
use zyris_protocol.Terminal.Poll.{
  poll_loop, ExecOutput, Attempt, ran, broken, Polling, Condition, PollArgs, keep_attempt,
  interval_of, budget_of, max_chars_of, condition_of, poll_start, poll_end, poll, Polled, refused,
  failed, polled, clamp, or_default, poll_max_timeout_secs, poll_default_timeout_secs,
}

-- How a loop from `p` comes out: with an error, or after so many attempts.
unfoldable Ends : ℕ → Polling → Option (Option Polling) → Type 0
Ends budget p none = ⊥
Ends budget p (some none) = Unit {0}
Ends budget p (some (some q)) =
    (p.attempts ≤ q.attempts)
    × (q.attempts ≤ p.attempts + (budget - p.now + 999) / 1000)
    × (p.now < budget → p.attempts < q.attempts)

module _ (digits : ℕ → Chars) (signed : ℤ → Chars) (condition : Condition) (interval budget : ℕ)
    (run : ℕ → ℕ → Attempt) (slow : 1000 ≤ interval) where
  unfoldable next_round : Polling → ExecOutput → ℕ → Polling
  unfolding keep_attempt
  next_round p out took =
      let q = keep_attempt digits signed condition p out took in
      record q { now = q.now + min interval (budget - q.now) }

  met_now :
      (p : Polling) (out : ExecOutput) (took : ℕ)
      → p.now < budget
      → Ends budget p (some (some (keep_attempt digits signed condition p out took)))
  unfolding Ends keep_attempt
  met_now p out took h = (omega arith, omega (arith, h), λ k. omega arith)

  later :
      (p : Polling) (out : ExecOutput) (took : ℕ) (o : Option (Option Polling))
      → p.now < budget
      → p.now + took < budget
      → Ends budget (next_round p out took) o
      → Ends budget p o
  unfolding Ends next_round keep_attempt
  later p out took none h k e = e
  later p out took (some none) h k e = tt
  later p out took (some (some q)) h k (a, b, c) =
      (omega (arith, a), omega (arith, b, slow, h, k), λ l. omega (arith, a))

  poll_loop-Ends :
      (fuel : ℕ) (p : Polling)
      → budget < p.now + fuel
      → p.now ≤ budget
      → Ends budget p (poll_loop digits signed condition interval budget run fuel p)
  unfolding Ends poll_loop next_round keep_attempt
  poll_loop-Ends zero p h k = omega (arith, h, k)
  poll_loop-Ends (suc fuel) p h k =
      if-cases (Ends budget p) (leb budget p.now)
        (λ spent. (omega arith, omega arith, λ l. omega (arith, l, leb→le budget p.now spent)))
        (λ left.
          ran_or_broken (poll_loop-Ends fuel) (ground (arith, left))
            (run (p.attempts + 1) (budget - p.now)))
    where
      gt : (took : ℕ) → leb budget (p.now + took) ≡ false → p.now + took < budget
      gt took over = ground (arith, over)

      ran_or_broken :
          ((q : Polling)
            → budget < q.now + fuel
            → q.now ≤ budget
            → Ends budget q (poll_loop digits signed condition interval budget run fuel q))
          → p.now < budget
          → (a : Attempt)
          → Ends budget p (elim a [
            | broken ↦ some none
            | ran out took ↦
                let q = keep_attempt digits signed condition p out took in
                let rest =
                  poll_loop digits signed condition interval budget run fuel
                    (next_round p out took) in
                if q.met then some (some q) else if leb budget q.now then some (some q) else rest
          ])
      ran_or_broken on l broken = tt
      ran_or_broken on l (ran out took) =
          if-cases (Ends budget p) (keep_attempt digits signed condition p out took).met
            (λ m. met_now p out took l)
            (λ unmet.
              if-cases (Ends budget p) (leb budget (p.now + took)) (λ spent. met_now p out took l)
                (λ over. later p out took _ l (ground (arith, over)) (
                  on (next_round p out took) (omega (arith, h, slow, gt took over))
                    (omega (arith, gt took over)))))

-- The window that a poll may spend, in seconds.
unfoldable pub window_of : PollArgs → ℕ
window_of a = clamp 1 poll_max_timeout_secs (or_default poll_default_timeout_secs a.timeout_secs)

-- How a poll whose arguments give `head` comes out: refused with what the head says, or with an
-- attempt's error, or with a result of at least one attempt and at most one for each second.
unfoldable pub IsConcluded : ℕ → Launched → Option Polled → Type 0
IsConcluded window head none = ⊥
IsConcluded window head (some (refused why)) = (why ≡ head) × (head ≢ launches)
IsConcluded window head (some failed) = head ≡ launches
IsConcluded window head (some (polled r)) =
    (head ≡ launches) × (1 ≤ r.attempts) × (r.attempts ≤ window) × (window ≤ 600)

-- A poll comes to an end, whatever its attempts do and however long they take: it is refused as the
-- head of exec refuses, or fails with an attempt, or gives a result of at least one attempt and of
-- at most one for each second of its window, which is at most 600.
pub poll-IsConcluded :
    (space : ℕ → Bool) (digits : ℕ → Chars) (signed : ℤ → Chars) (run : ℕ → ℕ → Attempt)
    (a : PollArgs)
    → IsConcluded
        (window_of a)
        (checked_launch space a.command a.argv)
        (poll space digits signed run a)
unfolding IsConcluded poll window_of interval_of budget_of Ends poll_start poll_end
poll-IsConcluded space digits signed run a = answered (checked_launch space a.command a.argv)
  where
    looped : Option (Option Polling)
    looped =
        poll_loop digits signed (condition_of a) (interval_of a) (budget_of a) run
          (suc (budget_of a)) poll_start

    ended :
        (o : Option (Option Polling))
        → Ends (budget_of a) poll_start o
        → IsConcluded (window_of a) launches (elim o [
          | none ↦ none
          | some none ↦ some failed
          | some (some p) ↦ some (polled (poll_end (max_chars_of a) p))
        ])
    ended none e = e
    ended (some none) e = refl
    ended (some (some q)) (more, few, one) =
        (refl, one (omega arith), omega (arith, few), omega arith)

    answered :
        (head : Launched)
        → IsConcluded (window_of a) head (elim head [
          | neither ↦ some (refused neither)
          | both ↦ some (refused both)
          | empty_argv ↦ some (refused empty_argv)
          | launches ↦ elim looped [
            | none ↦ none
            | some none ↦ some failed
            | some (some p) ↦ some (polled (poll_end (max_chars_of a) p))
          ]
        ])
    answered neither = (refl, ground arith)
    answered both = (refl, ground arith)
    answered empty_argv = (refl, ground arith)
    answered launches = ended looped (
        poll_loop-Ends digits signed (condition_of a) (interval_of a) (budget_of a) run
          (omega arith) (suc (budget_of a)) poll_start (omega arith) (omega arith))
