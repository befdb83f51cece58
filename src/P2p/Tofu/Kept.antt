-- ===== src/P2p/Tofu/Kept.antt =====
-- A pin that is in the file stays there.
use zyris_protocol.Prelude.{
  ℕ, ◌+◌, ◌≤◌, ◌≡◌, refl, ap, subst, Bool, true, false, Option, none, some, List, [], ◌∷◌, arith,
  if◌then◌else◌, Text, text_eq, get_elem?, if-elim, Option-elim, Option-branches,
}
use zyris_protocol.Prelude.Named.{lookup_name}
use zyris_protocol.P2p.Tofu.{
  Entry, Ledger, changed, io_error, check, Order, Outcome, refusal, crashed_there, Stage, waiting,
  holding, writing, verified, over, Writer, Disk, Decision, publish, answer, decide, acquire,
  verify, put_in_place, done_with, holds, release, Event, goes, fails, dies, broken, at_stage,
  finish, decided, go, fail, die, step, run, opened,
}
use zyris_protocol.P2p.Tofu.Alone.{
  crit, criticals, Spares, FineStage, criticals-set, AllFine, quiet-AllFine, unlocked_criticals,
  at-FineStage, set-AllFine, set_alone,
}
use zyris_protocol.P2p.Tofu.Decided.{Keeps, decide-Keeps}

-- No lock is broken.
abbrev pub IsWhole : Event → Type 0
IsWhole broken = ⊥
IsWhole _ = Unit {0}

unfoldable pub AreWhole : List Event → Type 0
AreWhole [] = Unit {0}
AreWhole (x ∷ xs) = IsWhole x × AreWhole xs

unfoldable pub AllSpare : Text → List Order → Type 0
AllSpare slug [] = Unit {0}
AllSpare slug (order ∷ orders) = Spares slug order × AllSpare slug orders

-- One writer at most under the lock, each with what it needs, and the pin of the slug
-- once it is there.
record IsSafe (slug : Text) (e : Entry) (b : Bool) (d : Disk) : Type 0 where
  pub fine : AllFine slug d.lock d.file d.writers
  pub one : criticals d.writers ≤ 1
  pub kept : b ≡ true → lookup_name d.file slug ≡ some e

module _ (slug : Text) (e : Entry) (b : Bool) where
  -- A step that leaves the lock and the file, and lets no writer in.
  at_stage-IsSafe :
      (d : Disk) (k : ℕ) (w : Writer) (s : Stage)
      → IsSafe slug e b d
      → get_elem? d.writers k ≡ some w
      → FineStage w.order d.lock d.file s
      → crit s ≤ crit w.stage
      → IsSafe slug e b (at_stage d k w s)
  unfolding at_stage
  at_stage-IsSafe d k w s h at fine c = record {
    fine =
        set-AllFine slug d.writers k w s d.lock d.file h.fine
          (at-FineStage slug d.writers k w d.lock d.file h.fine at).0 fine;
    one = omega (arith, criticals-set d.writers k w s at, h.one);
    kept = h.kept;
  }

  -- The writer under the lock returns, with the file as it is or with what it was to publish.
  finish-IsSafe :
      (d : Disk) (k : ℕ) (w : Writer) (n : ℕ) (file : Ledger) (outcome : Outcome)
      → IsSafe slug e b d
      → get_elem? d.writers k ≡ some w
      → crit w.stage ≡ 1
      → (b ≡ true → lookup_name file slug ≡ some e)
      → IsSafe slug e b (finish (record d { file = file }) k w n outcome)
  unfolding finish at_stage
  finish-IsSafe d k w n file outcome h at c kept = record {
    fine =
        set_alone slug d.writers k w (over outcome) d.lock (release d.lock n) d.file file h.fine
          (omega (arith, h.one)) at (at-FineStage slug d.writers k w d.lock d.file h.fine at).0 tt;
    one = omega (arith, criticals-set d.writers k w (over outcome) at, h.one);
    kept = kept;
  }

  acquire-IsSafe :
      (d : Disk) (k : ℕ) (w : Writer)
      → IsSafe slug e b d
      → d.lock ≡ none
      → get_elem? d.writers k ≡ some w
      → IsSafe slug e b (
          at_stage
            (record d { lock = some d.next_nonce; next_nonce = d.next_nonce + 1 })
            k
            w
            (holding d.next_nonce))
  unfolding at_stage
  acquire-IsSafe d k w h unlocked at =
      let calm =
        unlocked_criticals slug d.writers d.file
          (subst (λ l. AllFine slug l d.file d.writers) unlocked h.fine) in
      record {
        fine =
            set-AllFine slug d.writers k w (holding d.next_nonce) (some d.next_nonce) d.file
              (quiet-AllFine slug d.writers d.lock (some d.next_nonce) d.file d.file calm h.fine)
              (at-FineStage slug d.writers k w d.lock d.file h.fine at).0 refl;
        one = omega (arith, criticals-set d.writers k w (holding d.next_nonce) at, calm);
        kept = h.kept;
      }

  decided-IsSafe :
      (d : Disk) (k : ℕ) (w : Writer) (n : ℕ) (o : Decision)
      → IsSafe slug e b d
      → get_elem? d.writers k ≡ some w
      → crit w.stage ≡ 1
      → d.lock ≡ some n
      → decide w.order d.file ≡ o
      → IsSafe slug e b (decided d k w n o)
  unfolding decided
  decided-IsSafe d k w n (publish ledger) h at c locked q =
      at_stage-IsSafe d k w (writing n ledger) h at (locked, q) (omega arith)
  decided-IsSafe d k w n (answer outcome) h at c locked q =
      finish-IsSafe d k w n d.file outcome h at c h.kept

  go-IsSafe :
      (d : Disk) (k : ℕ) (order : Order) (s : Stage)
      → let w : Writer = record { order = order; stage = s } in
        IsSafe slug e b d → get_elem? d.writers k ≡ some w → IsSafe slug e b (go d k w s)
  unfolding go acquire verify put_in_place
  go-IsSafe d k order waiting h at =
      let w : Writer = record { order = order; stage = waiting } in
      Option-branches (IsSafe slug e b) d.lock (λ unlocked. acquire-IsSafe d k w h unlocked at)
        (λ n locked. h)
  go-IsSafe d k order (holding n) h at =
      let w : Writer = record { order = order; stage = holding n } in
      decided-IsSafe d k w n (decide order d.file) h at refl
        (at-FineStage slug d.writers k w d.lock d.file h.fine at).1 refl
  go-IsSafe d k order (writing n ledger) h at =
      let w : Writer = record { order = order; stage = writing n ledger } in
      if-elim (IsSafe slug e b) (holds d.lock n)
        (at_stage-IsSafe d k w (verified n ledger) h at
          (at-FineStage slug d.writers k w d.lock d.file h.fine at).1 (omega arith))
        (finish-IsSafe d k w n d.file (refusal io_error) h at refl h.kept)
  go-IsSafe d k order (verified n ledger) h at =
      let w : Writer = record { order = order; stage = verified n ledger } in
      let (spares, (locked, q)) = at-FineStage slug d.writers k w d.lock d.file h.fine at in
      finish-IsSafe d k w n ledger (done_with order) h at refl
        (λ t. subst (Keeps slug e) q (decide-Keeps order d.file slug e spares (h.kept t)))
  go-IsSafe d k order (over outcome) h at = h

  fail-IsSafe :
      (d : Disk) (k : ℕ) (order : Order) (s : Stage)
      → let w : Writer = record { order = order; stage = s } in
        IsSafe slug e b d → get_elem? d.writers k ≡ some w → IsSafe slug e b (fail d k w s)
  unfolding fail
  fail-IsSafe d k order waiting h at =
      at_stage-IsSafe d k (record { order = order; stage = waiting }) (over (refusal io_error)) h at
        tt (omega arith)
  fail-IsSafe d k order (over outcome) h at = h
  fail-IsSafe d k order (holding n) h at =
      finish-IsSafe d k (record { order = order; stage = holding n }) n d.file (refusal io_error) h
        at refl h.kept
  fail-IsSafe d k order (writing n ledger) h at =
      finish-IsSafe d k (record { order = order; stage = writing n ledger }) n d.file
        (refusal io_error) h at refl h.kept
  fail-IsSafe d k order (verified n ledger) h at =
      finish-IsSafe d k (record { order = order; stage = verified n ledger }) n d.file
        (refusal io_error) h at refl h.kept

  die-IsSafe :
      (d : Disk) (k : ℕ) (order : Order) (s : Stage)
      → let w : Writer = record { order = order; stage = s } in
        IsSafe slug e b d → get_elem? d.writers k ≡ some w → IsSafe slug e b (die d k w s)
  unfolding die
  die-IsSafe d k order (over outcome) h at = h
  die-IsSafe d k order s h at =
      at_stage-IsSafe d k (record { order = order; stage = s }) (over crashed_there) h at tt
        (omega arith)

  step-IsSafe : (d : Disk) (x : Event) → IsWhole x → IsSafe slug e b d → IsSafe slug e b (step d x)
  unfolding step
  step-IsSafe d (goes k) whole h =
      Option-elim (IsSafe slug e b) (get_elem? d.writers k) h
        (λ w at. go-IsSafe d k w.order w.stage h at)
  step-IsSafe d (fails k) whole h =
      Option-elim (IsSafe slug e b) (get_elem? d.writers k) h
        (λ w at. fail-IsSafe d k w.order w.stage h at)
  step-IsSafe d (dies k) whole h =
      Option-elim (IsSafe slug e b) (get_elem? d.writers k) h
        (λ w at. die-IsSafe d k w.order w.stage h at)
  step-IsSafe d broken whole h = absurd whole

  run-IsSafe :
      (xs : List Event) (d : Disk) → AreWhole xs → IsSafe slug e b d → IsSafe slug e b (run d xs)
  unfolding run AreWhole
  run-IsSafe [] d whole h = h
  run-IsSafe (x ∷ xs) d (now, whole) h = run-IsSafe xs (step d x) whole (step-IsSafe d x now h)

opened-AllFine :
    (slug : Text) (file : Ledger) (orders : List Order)
    → AllSpare slug orders
    → AllFine slug none file (opened file orders).writers
unfolding opened AllFine AllSpare
opened-AllFine slug file [] h = tt
opened-AllFine slug file (order ∷ orders) (spares, h) =
    ((spares, tt), opened-AllFine slug file orders h)

criticals-opened :
    (file : Ledger) (orders : List Order) → criticals (opened file orders).writers ≡ 0
unfolding opened criticals
criticals-opened file [] = refl
criticals-opened file (order ∷ orders) = omega (arith, criticals-opened file orders)

-- Any number of writers on one file, in any order of their steps, some of which fail or die: as
-- long as none breaks a lock and none has the order to forget a slug, a key that is pinned for it
-- at any time stays pinned. Every later check takes that key and refuses each other one.
pub check-run :
    (file : Ledger) (orders : List Order) (before later : List Event) (slug : Text) (e : Entry)
    (endpoint_id : Text)
    → AllSpare slug orders
    → AreWhole before
    → AreWhole later
    → let d = run (opened file orders) before in
      lookup_name d.file slug ≡ some e
      → check (run d later).file slug endpoint_id ≡ (
          if text_eq e.endpoint_id endpoint_id
          then none
          else some (changed e.endpoint_id endpoint_id))
unfolding check opened
check-run file orders before later slug e endpoint_id spare whole whole' pinned_then =
    let d = run (opened file orders) before in
    let first = run-IsSafe slug e false before (opened file orders) whole (record {
      fine = opened-AllFine slug file orders spare;
      one = omega (arith, criticals-opened file orders);
      kept = λ t. absurd (ground arith);
    }) in
    let last =
      run-IsSafe slug e true later d whole'
        (record { fine = first.fine; one = first.one; kept = λ t. pinned_then }) in
    ap
      (λ (o : Option Entry). elim o [
        | none ↦ none
        | some entry ↦
            if text_eq entry.endpoint_id endpoint_id
            then none
            else some (changed entry.endpoint_id endpoint_id)
      ])
      (last.kept refl)
