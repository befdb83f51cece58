-- ===== src/Terminal/Poll/Output.antt =====
-- crates/zyris-capkit/src/terminal/mod.rs: the output of a poll, against all that its attempts print.
use zyris_protocol.Prelude.{ℕ, ◌≡◌, Option, none, some}
use zyris_protocol.Prelude.Int.{ℤ}
use zyris_protocol.Terminal.Exec.{Chars, tail_chars}
use zyris_protocol.Terminal.Poll.{
  Attempt, PollArgs, interval_of, budget_of, max_chars_of, Polled, refused, failed, polled,
}
use zyris_protocol.Terminal.Poll.Printed.{transcript, Printed}

-- The output of an outcome of a poll is the end of what its attempts print, as a text for the caller.
unfoldable Shows : (ℕ → Chars) → (ℤ → Chars) → (ℕ → ℕ → Attempt) → PollArgs → Option Polled → Type 0
Shows digits signed run a none = Unit {0}
Shows digits signed run a (some (refused why)) = Unit {0}
Shows digits signed run a (some failed) = Unit {0}
Shows digits signed run a (some (polled r)) =
    r.output
    ≡ tail_chars (transcript digits signed (interval_of a) (budget_of a) run r.attempts 0 0)
        (max_chars_of a)
