-- ===== src/Node/Link/Stopping.antt =====
-- A link that is told to stop: it ends, and it dials no more.
use zyris_protocol.Prelude.{
  ℕ, suc, ◌≡◌, refl, sym, ap, ◌∙◌, subst, ◌≢◌, Bool, Option, List, [], ◌∷◌, arith, if-elim,
}
use zyris_protocol.Core.Handshake.{ConnectionInfo}
use zyris_protocol.Node.Refusal.{is_fatal}
use zyris_protocol.Node.Link.{
  Stop, running, told, gone, Phase, resting, dialing, spawned, up, finished, Act, dialed, Link,
  Dialed, connected, refused, Event, disconnect, let_go, began, woke, noticed, answered, lost,
  heard, stopped, come_up, turn, settle, step, run,
}

unfoldable pub dials : List Act → ℕ
dials [] = 0
dials (dialed ∷ acts) = suc (dials acts)
dials (_ ∷ acts) = dials acts

abbrev pub HasFinished : Phase → Type 0
HasFinished (finished e) = Unit {0}
HasFinished _ = ⊥

abbrev pub with_stop : Stop → Phase → ℕ → Option ConnectionInfo → List Act → Link
with_stop s p b c a = record { phase = p; backoff = b; stop = s; current = c; acts = a }

told-running : told ≢ running
told-running e = ground arith

record StaysTold (n : ℕ) (l : Link) : Type 0 where
  pub still : l.stop ≡ told
  pub same : dials l.acts ≡ n

module _ (has_hook : Bool) where
  come_up-StaysTold :
      (n : ℕ) (l : Link) (info : ConnectionInfo)
      → StaysTold n l
      → StaysTold n (come_up has_hook l info)
  unfolding come_up dials
  come_up-StaysTold n l info t = record {
    still = t.still;
    same = if-elim (λ x. dials x ≡ n) has_hook t.same t.same;
  }

  settle-StaysTold :
      (n : ℕ) (l : Link) (d : Dialed) → StaysTold n l → StaysTold n (settle has_hook l d)
  unfolding settle
  settle-StaysTold n l (connected info) t = come_up-StaysTold n l info t
  settle-StaysTold n l (refused error) t =
      if-elim (StaysTold n) (is_fatal error) (record { still = t.still; same = t.same })
        (record { still = t.still; same = t.same })

  step_told :
      (e : Event) (p : Phase) (b : ℕ) (c : Option ConnectionInfo) (a : List Act)
      → StaysTold (dials a) (step has_hook (with_stop told p b c a) e)
  unfolding step turn heard stopped dials
  step_told disconnect p b c a = record { still = refl; same = refl }
  step_told let_go p b c a = record { still = refl; same = refl }
  step_told began (spawned i) b c a = record { still = refl; same = refl }
  step_told woke resting b c a = record { still = refl; same = refl }
  step_told noticed resting b c a = record { still = refl; same = refl }
  step_told noticed (up i) b c a = record { still = refl; same = refl }
  step_told (answered d) dialing b c a =
      settle-StaysTold (dials a) (with_stop told dialing b c a) d
        (record { still = refl; same = refl })
  step_told (lost n) (up i) b c a = record { still = refl; same = refl }
  step_told _ _ b c a = record { still = refl; same = refl }

  run_told : (es : List Event) (n : ℕ) (l : Link) → StaysTold n l → StaysTold n (run has_hook l es)
  unfolding run
  run_told [] n l t = t
  run_told (e ∷ es) n l t = run_told es n (step has_hook l e) (
      subst (λ k. StaysTold k (step has_hook l e)) t.same
        (subst
          (λ s.
            StaysTold (dials l.acts)
              (step has_hook (with_stop s l.phase l.backoff l.current l.acts) e))
          (sym t.still) (step_told e l.phase l.backoff l.current l.acts)))

  step-HasFinished :
      (e : Event) (s : Stop) (p : Phase) (b : ℕ) (c : Option ConnectionInfo) (a : List Act)
      → HasFinished p
      → HasFinished (step has_hook (with_stop s p b c a) e).phase
  unfolding step
  step-HasFinished disconnect s (finished x) b c a h = tt
  step-HasFinished let_go s (finished x) b c a h = tt
  step-HasFinished began s (finished x) b c a h = tt
  step-HasFinished woke s (finished x) b c a h = tt
  step-HasFinished noticed s (finished x) b c a h = tt
  step-HasFinished (answered d) s (finished x) b c a h = tt
  step-HasFinished (lost n) s (finished x) b c a h = tt
  step-HasFinished e s _ b c a h = absurd h

  -- However the dial that it may be in comes out.
  began_answered_noticed :
      (s : Stop) (p : Phase) (b : ℕ) (c : Option ConnectionInfo) (a : List Act) (d : Dialed)
      → s ≢ running
      → HasFinished (run has_hook (with_stop s p b c a) (began ∷ answered d ∷ noticed ∷ [])).phase
  unfolding run step turn settle heard come_up
  began_answered_noticed running p b c a d n = absurd (n refl)
  began_answered_noticed told resting b c a d n = tt
  began_answered_noticed told (spawned i) b c a d n = tt
  began_answered_noticed told (up i) b c a d n = tt
  began_answered_noticed told dialing b c a (connected i) n = tt
  began_answered_noticed told dialing b c a (refused error) n =
      if-elim (λ l. HasFinished (step has_hook l noticed).phase) (is_fatal error) tt tt
  began_answered_noticed told (finished x) b c a d n = tt
  began_answered_noticed gone resting b c a d n = tt
  began_answered_noticed gone (spawned i) b c a d n = tt
  began_answered_noticed gone (up i) b c a d n = tt
  began_answered_noticed gone dialing b c a (connected i) n = tt
  began_answered_noticed gone dialing b c a (refused error) n =
      if-elim (λ l. HasFinished (step has_hook l noticed).phase) (is_fatal error) tt tt
  began_answered_noticed gone (finished x) b c a d n = tt

  run-HasFinished :
      (es : List Event) (l : Link) → HasFinished l.phase → HasFinished (run has_hook l es).phase
  unfolding run
  run-HasFinished [] l h = h
  run-HasFinished (e ∷ es) l h =
      run-HasFinished es (step has_hook l e)
        (step-HasFinished e l.stop l.phase l.backoff l.current l.acts h)

  -- After `disconnect` a link dials no more, whatever happens; and from wherever that leaves it, it
  -- is over for good once its task has run, the dial it may have begun has come out, either way,
  -- and it has looked at `stop`.
  pub run-disconnect :
      (l : Link) (es later : List Event) (d : Dialed)
      → l.stop ≡ running
      → let told_one = run has_hook (step has_hook l disconnect) es in
        (dials told_one.acts ≡ dials l.acts)
        × HasFinished (run has_hook told_one (began ∷ answered d ∷ noticed ∷ later)).phase
  unfolding run stopped
  run-disconnect l es later d r =
      let t =
        run_told es (dials l.acts) (step has_hook l disconnect)
          (record { still = ap (λ s. stopped s told) r; same = refl }) in
      let one = run has_hook (step has_hook l disconnect) es in
      (
        t.same,
        run-HasFinished later (run has_hook one (began ∷ answered d ∷ noticed ∷ [])) (
            began_answered_noticed one.stop one.phase one.backoff one.current one.acts d
              (λ e. absurd (told-running (sym t.still ∙ e)))),
      )
