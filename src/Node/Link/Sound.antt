-- ===== src/Node/Link/Sound.antt =====
-- A link over its whole life: how long it waits, and what it tells.
use zyris_protocol.Prelude.{
  ℕ, ◌+◌, ◌*◌, ◌/◌, ◌%◌, ◌≤◌, ◌≡◌, refl, sym, subst, ◌≢◌, inl, inr, Bool, true, Option, none, some,
  List, [], ◌∷◌, arith, leb, if◌then◌else◌, Bool-cases, if-elim,
}
use native.Mathlib.Nat.{mul-le-mul_right}
use zyris_protocol.Core.Handshake.{ConnectionInfo}
use zyris_protocol.Node.Refusal.{ConnectError, is_fatal, asked, into_result}
use zyris_protocol.Node.Link.{
  stable_after, backoff_min, backoff_max, Stop, running, told, gone, Phase, resting, dialing,
  spawned, up, finished, Act, closed_by_us, Link, Dialed, connected, refused, Event, disconnect,
  let_go, began, woke, noticed, answered, lost, wait_closed, widen, jitter, heard, stopped, come_up,
  turn, settle, step, run, start,
}
use zyris_protocol.Node.Link.Stopping.{with_stop}
use zyris_protocol.Node.Refusal.{into_result-ending_of}

-- `wait_closed` is `Ok` only for a link that was told to stop, or let go; its error is one that no
-- retry can fix.
abbrev pub Answers : Stop → Option (Option ConnectError) → Type 0
Answers s none = Unit {0}
Answers s (some none) = s ≢ running
Answers s (some (some e)) = is_fatal e ≡ true

abbrev pub Shows : Option ConnectionInfo → Phase → Type 0
Shows c (spawned info) = c ≡ some info
Shows c (up info) = c ≡ some info
Shows c _ = Unit {0}

pub record IsSound (l : Link) : Type 0 where
  pub at_least : backoff_min ≤ l.backoff
  pub at_most : l.backoff ≤ backoff_max
  pub answers : Answers l.stop (wait_closed l)
  pub shows : Shows l.current l.phase

record InRange (b : ℕ) : Type 0 where
  pub low : backoff_min ≤ b
  pub high : b ≤ backoff_max

stopped-Answers :
    (s t : Stop) (w : Option (Option ConnectError)) → Answers s w → Answers (stopped s t) w
unfolding stopped
stopped-Answers s t none h = h
stopped-Answers running t (some none) h = absurd (h refl)
stopped-Answers told t (some none) h = h
stopped-Answers gone t (some none) h = h
stopped-Answers s t (some (some e)) h = h

widen-InRange : (b : ℕ) → InRange b → InRange (widen b)
unfolding widen
widen-InRange b h = ground arith

reset-InRange :
    (b elapsed : ℕ) → InRange b → InRange (if leb stable_after elapsed then backoff_min else b)
reset-InRange b elapsed h = ground arith

told≢running : told ≢ running
told≢running e = ground arith

gone≢running : gone ≢ running
gone≢running e = ground arith

in_range : {l : Link} → IsSound l → InRange l.backoff
in_range h = record { low = h.at_least; high = h.at_most }

jitter-InRange : (b hash : ℕ) → InRange b → (800 ≤ jitter b hash) × (jitter b hash ≤ 36000)
unfolding jitter
jitter-InRange b hash h = factored (800 + hash % 400) (omega arith) (omega arith)
  where
    factored : (k : ℕ) → 800 ≤ k → k ≤ 1200 → (800 ≤ b * k / 1000) × (b * k / 1000 ≤ 36000)
    factored k p q =
        (omega (arith, mul-le-mul_right k h.low, p), omega (arith, mul-le-mul_right k h.high, q))

heard-IsSound :
    (s : Stop) (p : Phase) (b b' : ℕ) (c : Option ConnectionInfo) (a a' : List Act)
    → IsSound (with_stop s p b c a)
    → InRange b'
    → IsSound (heard (with_stop s p b c a) (with_stop s (finished asked) b' c a'))
unfolding heard wait_closed into_result
heard-IsSound running p b b' c a a' h r = h
heard-IsSound told p b b' c a a' h r = record {
  at_least = r.low;
  at_most = r.high;
  answers = told≢running;
  shows = tt;
}
heard-IsSound gone p b b' c a a' h r = record {
  at_least = r.low;
  at_most = r.high;
  answers = gone≢running;
  shows = tt;
}

abbrev AreSound : Option Link → Type 0
AreSound none = Unit {0}
AreSound (some l) = IsSound l

start-AreSound : (d : Dialed) → AreSound (start d)
unfolding start wait_closed
start-AreSound (connected info) = record {
  at_least = omega arith;
  at_most = omega arith;
  answers = tt;
  shows = refl;
}
start-AreSound (refused error) =
    if-elim AreSound (is_fatal error) tt
      (record { at_least = omega arith; at_most = omega arith; answers = tt; shows = tt })

module _ (has_hook : Bool) where
  come_up-IsSound :
      (l : Link) (info : ConnectionInfo) → InRange l.backoff → IsSound (come_up has_hook l info)
  unfolding come_up wait_closed
  come_up-IsSound l info r = record {
    at_least = r.low;
    at_most = r.high;
    answers = tt;
    shows = refl;
  }

  turn-IsSound :
      (s : Stop) (p : Phase) (b : ℕ) (c held : Option ConnectionInfo) (a : List Act)
      → InRange b
      → IsSound (turn has_hook (with_stop s p b c a) held)
  unfolding turn wait_closed into_result
  turn-IsSound told p b c held a r = record {
    at_least = r.low;
    at_most = r.high;
    answers = told≢running;
    shows = tt;
  }
  turn-IsSound _ p b c none a r = record {
    at_least = r.low;
    at_most = r.high;
    answers = tt;
    shows = tt;
  }
  turn-IsSound s p b c (some i) a r = come_up-IsSound (with_stop s p b c a) i r

  settle-IsSound : (l : Link) (d : Dialed) → InRange l.backoff → IsSound (settle has_hook l d)
  unfolding settle wait_closed
  settle-IsSound l (connected info) r = come_up-IsSound l info r
  settle-IsSound l (refused error) r = elim (Bool-cases (is_fatal error)) [
    | inl fatal ↦ rw fatal (record {
      at_least = r.low;
      at_most = r.high;
      answers = subst (λ x. Answers l.stop (some x)) (sym (into_result-ending_of error)) fatal;
      shows = tt;
    })
    | inr passing ↦
        rw passing (record { at_least = r.low; at_most = r.high; answers = tt; shows = tt })
  ]

  step-IsSound :
      (e : Event) (s : Stop) (p : Phase) (b : ℕ) (c : Option ConnectionInfo) (a : List Act)
      → IsSound (with_stop s p b c a)
      → IsSound (step has_hook (with_stop s p b c a) e)
  unfolding step wait_closed
  step-IsSound disconnect s p b c a h = record {
    at_least = h.at_least;
    at_most = h.at_most;
    answers = stopped-Answers s told (wait_closed (with_stop s p b c a)) h.answers;
    shows = h.shows;
  }
  step-IsSound let_go s p b c a h = record {
    at_least = h.at_least;
    at_most = h.at_most;
    answers = stopped-Answers s gone (wait_closed (with_stop s p b c a)) h.answers;
    shows = h.shows;
  }
  step-IsSound began s (spawned i) b c a h = turn-IsSound s (spawned i) b c (some i) a (in_range h)
  step-IsSound woke s resting b c a h =
      turn-IsSound s resting (widen b) c none a (widen-InRange b (in_range h))
  step-IsSound noticed s resting b c a h =
      heard-IsSound s resting b (widen b) c a a h (widen-InRange b (in_range h))
  step-IsSound noticed s (up i) b c a h =
      heard-IsSound s (up i) b b c a (closed_by_us i ∷ a) h (in_range h)
  step-IsSound (answered d) s dialing b c a h =
      settle-IsSound (with_stop s dialing b c a) d (in_range h)
  step-IsSound (lost n) s (up i) b c a h =
      let r = reset-InRange b n (in_range h) in
      record { at_least = r.low; at_most = r.high; answers = tt; shows = tt }
  step-IsSound _ s p b c a h = h

  run-IsSound : (es : List Event) (l : Link) → IsSound l → IsSound (run has_hook l es)
  unfolding run
  run-IsSound [] l h = h
  run-IsSound (e ∷ es) l h =
      run-IsSound es (step has_hook l e)
        (step-IsSound e l.stop l.phase l.backoff l.current l.acts h)

  -- Whatever happens to a link that `start` gave: its back-off is from 1 s to 30 s, and the wait that
  -- is drawn from it, with its jitter, from 0.8 s to 36 s; it shows the connection that it is on, and
  -- tells who waits for its end that it was asked to stop only if it was, and an error only if no
  -- retry can fix it.
  pub run-start :
      (d : Dialed) (l : Link) (es : List Event)
      → start d ≡ some l
      → IsSound (run has_hook l es)
        × ((hash : ℕ)
            → (800 ≤ jitter (run has_hook l es).backoff hash)
              × (jitter (run has_hook l es).backoff hash ≤ 36000))
  run-start d l es h =
      let sound = run-IsSound es l (subst AreSound h (start-AreSound d)) in
      (sound, λ hash. jitter-InRange (run has_hook l es).backoff hash (in_range sound))
