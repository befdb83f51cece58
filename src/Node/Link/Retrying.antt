-- ===== src/Node/Link/Retrying.antt =====
-- A link that cannot reach its server goes on trying.
use zyris_protocol.Prelude.{
  ℕ, zero, suc, ◌+◌, ◌*◌, ◌^◌, ◌≤◌, ◌<◌, min, ◌≡◌, sym, ap, ◌∙◌, subst, inl, inr, Bool, Option,
  some, List, [], ◌∷◌, arith, ltb, ltb→lt, Bool-cases, length,
}
use zyris_protocol.Core.Handshake.{ConnectionInfo}
use zyris_protocol.Node.Refusal.{unreachable, TransportError, is_fatal}
use zyris_protocol.Node.Link.{
  backoff_max, running, resting, up, Act, dialed, Link, connected, refused, Event, woke, answered,
  widen, come_up, turn, settle, step, run,
}
use zyris_protocol.Node.Link.Stopping.{dials, with_stop}

min-widen : (x k : ℕ) → 1 ≤ k → min (min x backoff_max * k) backoff_max ≡ min (x * k) backoff_max
min-widen x zero h = absurd (omega arith)
min-widen x (suc k) h = elim (Bool-cases (ltb backoff_max x)) [
  | inl over ↦
      ap (λ y. min (y * suc k) backoff_max) (capped (ltb→lt backoff_max x over))
      ∙ past (ltb→lt backoff_max x over)
  | inr within ↦ ap (λ y. min (y * suc k) backoff_max) (ground arith)
]
  where
    capped : backoff_max < x → min x backoff_max ≡ backoff_max
    capped h = omega arith

    past : backoff_max < x → min (backoff_max * suc k) backoff_max ≡ min (x * suc k) backoff_max
    past h = omega arith

one_le_pow : (n : ℕ) → 1 ≤ 2 ^ n
one_le_pow zero = omega arith
one_le_pow (suc n) = omega (arith, one_le_pow n)

double : (b n : ℕ) → b * 2 * 2 ^ n ≡ b * 2 ^ suc n
double b n = spread (2 ^ n) ∙ ap (λ k. b * k) (omega arith)
  where
    spread : (k : ℕ) → b * 2 * k ≡ b * (2 * k)
    spread k = omega arith

-- One failed dial after another, each after its wait.
pub rounds : List TransportError → List Event
rounds [] = []
rounds (e ∷ es) = woke ∷ answered (refused (unreachable e)) ∷ rounds es

abbrev pub waiting : ℕ → Option ConnectionInfo → List Act → Link
waiting b c a = with_stop running resting b c a

dialed_times : ℕ → List Act → List Act
dialed_times zero a = a
dialed_times (suc n) a = dialed_times n (dialed ∷ a)

run-rounds_lem :
    (has_hook : Bool) (es : List TransportError) (b : ℕ) (c : Option ConnectionInfo) (a : List Act)
    → b ≤ backoff_max
    → run has_hook (waiting b c a) (rounds es)
      ≡ waiting (min (b * 2 ^ length es) backoff_max) c (dialed_times (length es) a)
unfolding run step turn settle rounds dialed_times widen is_fatal
run-rounds_lem has_hook [] b c a h = ap (λ k. waiting k c a) (omega arith)
run-rounds_lem has_hook (e ∷ es) b c a h =
    run-rounds_lem has_hook es (min (b * 2) backoff_max) c (dialed ∷ a) (omega arith)
    ∙ ap (λ k. waiting k c (dialed_times (length es) (dialed ∷ a)))
        (min-widen (b * 2) (2 ^ length es) (one_le_pow (length es))
          ∙ ap (λ k. min k backoff_max) (double b (length es)))

dials-dialed_times : (n : ℕ) (a : List Act) → dials (dialed_times n a) ≡ dials a + n
unfolding dials dialed_times
dials-dialed_times zero a = omega arith
dials-dialed_times (suc n) a = dials-dialed_times n (dialed ∷ a) ∙ omega arith

-- What comes of failed rounds, and of a dial that succeeds after them.
abbrev pub GoesOn : Bool → List TransportError → ConnectionInfo → Link → Type 0
GoesOn has_hook es info l =
    let r = run has_hook l (rounds es) in
    let next = run has_hook r (woke ∷ answered (connected info) ∷ []) in
    (r.phase ≡ resting)
    × (r.backoff ≡ min (l.backoff * 2 ^ length es) backoff_max)
    × (dials r.acts ≡ dials l.acts + length es)
    × (next.phase ≡ up info)
    × (next.current ≡ some info)

waiting-GoesOn :
    (has_hook : Bool) (b : ℕ) (c : Option ConnectionInfo) (a : List Act) (es : List TransportError)
    (info : ConnectionInfo)
    → b ≤ backoff_max
    → GoesOn has_hook es info (waiting b c a)
unfolding run step turn settle come_up
waiting-GoesOn has_hook b c a es info h =
    let e = run-rounds_lem has_hook es b c a h in
    (
      ap (λ l. l.phase) e,
      ap (λ l. l.backoff) e,
      ap (λ l. dials l.acts) e ∙ dials-dialed_times (length es) a,
      ap (λ l. (run has_hook l (woke ∷ answered (connected info) ∷ [])).phase) e,
      ap (λ l. (run has_hook l (woke ∷ answered (connected info) ∷ [])).current) e,
    )

-- A link goes on trying: one that waits and was not told to stop dials once for each wait, however
-- often it could not reach the server; the back-off, which each wait is drawn from, doubles each
-- time, up to 30 s; and the next dial that succeeds brings it up, with that connection shown.
pub run-rounds :
    (has_hook : Bool) (l : Link) (es : List TransportError) (info : ConnectionInfo)
    → l.phase ≡ resting
    → l.stop ≡ running
    → l.backoff ≤ backoff_max
    → GoesOn has_hook es info l
run-rounds has_hook l es info p s h =
    subst (λ k. GoesOn has_hook es info (with_stop l.stop k l.backoff l.current l.acts)) (sym p)
      (subst (λ k. GoesOn has_hook es info (with_stop k resting l.backoff l.current l.acts)) (sym s)
        (waiting-GoesOn has_hook l.backoff l.current l.acts es info h))
