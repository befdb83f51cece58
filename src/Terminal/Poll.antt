-- ===== src/Terminal/Poll.antt =====
-- crates/zyris-capkit/src/terminal/mod.rs: poll, which runs a command until a condition is met or its
-- time is spent. Times are milliseconds. What an attempt gives and how long it takes is a parameter,
-- and so is the text of a number.
pub mod Ends
pub mod Printed
pub mod Output
pub mod Budget
use zyris_protocol.Prelude.{
  ℕ, zero, suc, ◌+◌, ◌-◌, ◌*◌, ◌/◌, min, max, Bool, true, false, not, ◌&&◌, ◌||◌, Option, none,
  some, List, [], ◌∷◌, ◌++◌, ltb, leb, ◌==◌, if◌then◌else◌, codes, length,
}
use zyris_protocol.Prelude.Int.{ℤ, pos, negsuc, int_eq}
use zyris_protocol.Terminal.Exec.{
  Chars, take_tail, tail_chars, push_capped, Launched, launches, neither, both, empty_argv,
  checked_launch,
}

abbrev pub poll_accumulated_cap : ℕ
poll_accumulated_cap = 200000

abbrev pub poll_max_output_chars : ℕ
poll_max_output_chars = 40000

abbrev pub poll_attempt_output_chars : ℕ
poll_attempt_output_chars = 40000

abbrev pub poll_default_output_chars : ℕ
poll_default_output_chars = 4000

abbrev pub poll_default_interval_secs : ℕ
poll_default_interval_secs = 5

abbrev pub poll_max_interval_secs : ℕ
poll_max_interval_secs = 10

abbrev pub poll_default_timeout_secs : ℕ
poll_default_timeout_secs = 300

abbrev pub poll_max_timeout_secs : ℕ
poll_max_timeout_secs = 600

pub record ExecOutput : Type 0 where
  pub exit_code : ℤ
  pub stdout : Chars
  pub stderr : Chars
  pub timed_out : Bool

-- An attempt: what it gives and how long it takes, or an error.
pub data Attempt : Type 0 where
  ran : ExecOutput → ℕ → Attempt
  broken : Attempt

unfoldable pub starts_with : Chars → Chars → Bool
starts_with cs [] = true
starts_with [] (n ∷ ns) = false
starts_with (c ∷ cs) (n ∷ ns) = c == n && starts_with cs ns

-- `str::contains`.
unfoldable pub contains : Chars → Chars → Bool
unfolding starts_with
contains [] needle = starts_with [] needle
contains (c ∷ cs) needle = starts_with (c ∷ cs) needle || contains cs needle

unfoldable pub ends_with_newline : Chars → Bool
ends_with_newline [] = false
ends_with_newline (c ∷ []) = c == 10
ends_with_newline (c ∷ d ∷ cs) = ends_with_newline (d ∷ cs)

-- `u64::clamp`.
abbrev pub clamp : ℕ → ℕ → ℕ → ℕ
clamp lo hi n = max lo (min n hi)

pub record Polling : Type 0 where
  pub now : ℕ
  pub attempts : ℕ
  pub accumulated : Chars
  pub dropped : Bool
  pub last_completed : Option ℤ
  pub timed_out : Bool
  pub met : Bool

pub record PollResult : Type 0 where
  pub met : Bool
  pub attempts : ℕ
  pub elapsed_ms : ℕ
  pub exit_code : ℤ
  pub timed_out : Bool
  pub output : Chars
  pub output_truncated : Bool

pub record Condition : Type 0 where
  pub success_exit : ℤ
  pub needle : Option Chars

-- The condition, on the whole output of an attempt.
unfoldable pub is_met : Condition → ExecOutput → Bool
unfolding contains
is_met condition out =
    (not out.timed_out && int_eq out.exit_code condition.success_exit)
    || elim condition.needle [ none ↦ false | some n ↦ contains (out.stdout ++ out.stderr) n ]

-- What an attempt adds to the output, behind its heading.
unfoldable pub body_of : ExecOutput → Chars
unfolding take_tail ends_with_newline
body_of out =
    let full = out.stdout ++ out.stderr in
    let body =
      if ltb poll_attempt_output_chars (length full)
      then take_tail full poll_attempt_output_chars
      else full in
    if ltb 0 (length body) && not (ends_with_newline body) then body ++ (10 ∷ []) else body

module _ (digits : ℕ → Chars) (signed : ℤ → Chars) where
  unfoldable pub heading : ℕ → ℕ → ExecOutput → Chars
  heading attempts now out =
      codes "--- attempt "
      ++ (digits attempts
          ++ (codes "  t="
              ++ (digits (now / 1000)
                  ++ (codes "s  exit "
                      ++ (signed out.exit_code
                          ++ ((if out.timed_out then codes "  timed out" else [])
                              ++ (codes " ---" ++ (10 ∷ []))))))))

  -- What a poll keeps of an attempt that ended.
  unfoldable pub keep_attempt : Condition → Polling → ExecOutput → ℕ → Polling
  unfolding push_capped body_of heading is_met
  keep_attempt condition p out took =
      let now = p.now + took in
      let headed =
        push_capped p.accumulated (heading (p.attempts + 1) now out) poll_accumulated_cap in
      let bodied = push_capped headed.0 (body_of out) poll_accumulated_cap in
      record {
        now = now;
        attempts = p.attempts + 1;
        accumulated = bodied.0;
        dropped =
            p.dropped
            || headed.1
            || ltb poll_attempt_output_chars (length (out.stdout ++ out.stderr))
            || bodied.1;
        last_completed = if out.timed_out then p.last_completed else some out.exit_code;
        timed_out = out.timed_out;
        met = is_met condition out;
      }

  -- The loop, with `run` from the number of an attempt and the time left; `none` inside is an error of
  -- an attempt, outside that the fuel ran out.
  module _ (condition : Condition) (interval budget : ℕ) (run : ℕ → ℕ → Attempt) where
    unfoldable pub poll_loop : ℕ → Polling → Option (Option Polling)
    unfolding keep_attempt
    poll_loop zero p = none
    poll_loop (suc fuel) p =
        if leb budget p.now then some (some p) else elim (run (p.attempts + 1) (budget - p.now)) [
          | broken ↦ some none
          | ran out took ↦
              let q = keep_attempt condition p out took in
              let rest =
                poll_loop fuel (record q { now = q.now + min interval (budget - q.now) }) in
              if q.met then some (some q) else if leb budget q.now then some (some q) else rest
        ]

pub record PollArgs : Type 0 where
  pub command : Option Chars
  pub argv : Option (List Chars)
  pub interval_secs : Option ℕ
  pub timeout_secs : Option ℕ
  pub success_exit_code : Option ℤ
  pub success_output_contains : Option Chars
  pub max_output_chars : Option ℕ

abbrev pub or_default : ℕ → Option ℕ → ℕ
or_default n none = n
or_default n (some m) = m

unfoldable pub interval_of : PollArgs → ℕ
interval_of a =
    clamp 1 poll_max_interval_secs (or_default poll_default_interval_secs a.interval_secs) * 1000

unfoldable pub budget_of : PollArgs → ℕ
budget_of a =
    clamp 1 poll_max_timeout_secs (or_default poll_default_timeout_secs a.timeout_secs) * 1000

unfoldable pub max_chars_of : PollArgs → ℕ
max_chars_of a =
    clamp 200 poll_max_output_chars (or_default poll_default_output_chars a.max_output_chars)

-- `unwrap_or(0)` of the exit code, and `filter(|s| !s.is_empty())`.
unfoldable pub condition_of : PollArgs → Condition
condition_of a = record {
  success_exit = elim a.success_exit_code [ none ↦ pos 0 | some n ↦ n ];
  needle = elim a.success_output_contains [
    | none ↦ none
    | some [] ↦ none
    | some (c ∷ cs) ↦ some (c ∷ cs)
  ];
}

unfoldable pub poll_start : Polling
poll_start = record {
  now = 0;
  attempts = 0;
  accumulated = [];
  dropped = false;
  last_completed = none;
  timed_out = false;
  met = false;
}

-- The result, behind the loop.
unfoldable pub poll_end : ℕ → Polling → PollResult
unfolding tail_chars
poll_end max_chars p = record {
  met = p.met;
  attempts = p.attempts;
  elapsed_ms = p.now;
  exit_code = elim p.last_completed [ none ↦ negsuc 0 | some n ↦ n ];
  timed_out = p.timed_out;
  output = tail_chars p.accumulated max_chars;
  output_truncated = p.dropped || ltb max_chars (length p.accumulated);
}

-- A poll that is refused with the head's error, fails with an attempt's, or gives a result.
pub data Polled : Type 0 where
  refused : Launched → Polled
  failed : Polled
  polled : PollResult → Polled

-- Every round but the last takes time: the budget and one more is fuel enough.
unfoldable pub poll :
    (ℕ → Bool) → (ℕ → Chars) → (ℤ → Chars) → (ℕ → ℕ → Attempt) → PollArgs → Option Polled
unfolding checked_launch interval_of budget_of max_chars_of condition_of poll_start poll_end
    poll_loop
poll space digits signed run a =
    let looped =
      poll_loop digits signed (condition_of a) (interval_of a) (budget_of a) run (suc (budget_of a))
        poll_start in
    elim (checked_launch space a.command a.argv) [
      | neither ↦ some (refused neither)
      | both ↦ some (refused both)
      | empty_argv ↦ some (refused empty_argv)
      | launches ↦ elim looped [
        | none ↦ none
        | some none ↦ some failed
        | some (some p) ↦ some (polled (poll_end (max_chars_of a) p))
      ]
    ]
