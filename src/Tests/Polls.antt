-- ===== src/Tests/Polls.antt =====
-- Polls on concrete inputs, for crates/zyris-capkit/src/terminal/mod.rs.
use zyris_protocol.Prelude.{
  ℕ, suc, ◌≡◌, refl, Bool, true, false, none, some, [], ◌∷◌, ◌++◌, ◌==◌, if◌then◌else◌, codes,
}
use zyris_protocol.Prelude.Int.{ℤ, pos, negsuc}
use zyris_protocol.Terminal.Exec.{Chars, no_output, drain_capped, neither, checked_launch}
use zyris_protocol.Terminal.Poll.{Attempt, ran, PollArgs, PollResult, poll, refused, max_chars_of}
use zyris_protocol.Terminal.Poll.Budget.{window_of, IsConcluded, poll-IsConcluded}
use zyris_protocol.Terminal.Poll.{max_chars_of}
use zyris_protocol.Terminal.Exec.Drain.{drain_capped_lem}

abbrev is_space : ℕ → Bool
is_space c = c == 32

-- Stand-ins for the texts of numbers.
abbrev digits : ℕ → Chars
digits n = n ∷ []

abbrev signed : ℤ → Chars
signed n = elim n [ pos k ↦ k ∷ [] | negsuc k ↦ 45 ∷ suc k ∷ [] ]

-- The first attempt fails, the next prints what is waited for and is killed.
abbrev attempt : ℕ → ℕ → Attempt
attempt n left =
    if n == 1
    then ran
        (record { exit_code = pos 1; stdout = codes "n"; stderr = codes "o"; timed_out = false })
        500
    else ran
        (record { exit_code = negsuc 0; stdout = codes "was up"; stderr = []; timed_out = true })
        700

abbrev waits : PollArgs
waits = record {
  command = some (codes "probe");
  argv = none;
  interval_secs = none;
  timeout_secs = none;
  success_exit_code = none;
  success_output_contains = some (codes "up");
  max_output_chars = none;
}

abbrev nothing_to_run : PollArgs
nothing_to_run = record waits { command = some (codes " ") }

result : PollResult
result = record {
  met = true;
  attempts = 2;
  elapsed_ms = 6200;
  exit_code = pos 1;
  timed_out = true;
  output =
      codes "--- attempt "
      ++ (1 ∷ [])
      ++ codes "  t="
      ++ (0 ∷ [])
      ++ codes "s  exit "
      ++ (1 ∷ [])
      ++ codes " ---"
      ++ (10 ∷ [])
      ++ codes "no"
      ++ (10 ∷ [])
      ++ codes "--- attempt "
      ++ (2 ∷ [])
      ++ codes "  t="
      ++ (6 ∷ [])
      ++ codes "s  exit "
      ++ (45 ∷ 1 ∷ [])
      ++ codes "  timed out"
      ++ codes " ---"
      ++ (10 ∷ [])
      ++ codes "was up"
      ++ (10 ∷ []);
  output_truncated = false;
}

poll-nothing_to_run : poll is_space digits signed attempt nothing_to_run ≡ some (refused neither)
unfolding poll
poll-nothing_to_run = refl

poll-IsConcluded_example :
    IsConcluded
      (window_of waits)
      (checked_launch is_space waits.command waits.argv)
      (poll is_space digits signed attempt waits)
poll-IsConcluded_example = poll-IsConcluded is_space digits signed attempt waits

drain_capped_lem_example :
    drain_capped 3 ((1 ∷ 2 ∷ []) ∷ (3 ∷ 4 ∷ []) ∷ []) no_output
    ≡ record { buf = 1 ∷ 2 ∷ 3 ∷ []; truncated = true }
drain_capped_lem_example = drain_capped_lem 3 ((1 ∷ 2 ∷ []) ∷ (3 ∷ 4 ∷ []) ∷ [])
