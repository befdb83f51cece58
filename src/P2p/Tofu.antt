-- ===== src/P2p/Tofu.antt =====
-- crates/zyris-p2p/src/tofu.rs: the ledger of pinned keys, and the writers that share its file. An
-- endpoint id is in its canonical form, what `fingerprint::parse` makes of it; a nonce is a number,
-- new for each lock. A writer is a task of this process or of another.
pub mod Alone
pub mod Decided
pub mod Kept
use zyris_protocol.Prelude.{
  ℕ, ◌+◌, Bool, false, Option, none, some, List, [], ◌∷◌, map, ◌==◌, if◌then◌else◌, Text, text_eq,
  get_elem?, set,
}
use zyris_protocol.Prelude.Named.{lookup_name, insert_name, remove_name}

pub record Entry : Type 0 where
  pub endpoint_id : Text
  pub first_seen_ms : ℕ

abbrev pub Ledger : Type 0
Ledger = List (Text × Entry)

pub data TofuError : Type 0 where
  changed : Text → Text → TofuError
  refused : Text → TofuError
  io_error : TofuError

-- `TofuStore::check`: `none` is `Ok(())`.
unfoldable pub check : Ledger → Text → Text → Option TofuError
check ledger slug endpoint_id = elim (lookup_name ledger slug) [
  | none ↦ none
  | some entry ↦
      if text_eq entry.endpoint_id endpoint_id
      then none
      else some (changed entry.endpoint_id endpoint_id)
]

-- `pin_preapproved` of a key at a time, or `forget`.
pub data Order : Type 0 where
  pin : Text → Entry → Order
  forget : Text → Order

-- What a writer was told; `pinned` stands for both ways to `Ok(())`.
pub data Outcome : Type 0 where
  pinned absent forgotten : Outcome
  refusal : TofuError → Outcome
  crashed_there : Outcome

-- Before the lock; with it, by its nonce; with the ledger to write; behind
-- `verify_lock_still_held`, before the rename; returned.
pub data Stage : Type 0 where
  waiting : Stage
  holding : ℕ → Stage
  writing verified : ℕ → Ledger → Stage
  over : Outcome → Stage

pub record Writer : Type 0 where
  pub order : Order
  pub stage : Stage

pub record Disk : Type 0 where
  pub file : Ledger
  pub lock : Option ℕ
  pub next_nonce : ℕ
  pub writers : List Writer

pub data Decision : Type 0 where
  publish : Ledger → Decision
  answer : Outcome → Decision

-- `pin_preapproved`, behind its read.
unfoldable pub decide_pin : Text → Entry → Ledger → Decision
decide_pin slug entry ledger = elim (lookup_name ledger slug) [
  | none ↦ publish (insert_name ledger slug entry)
  | some before ↦
      if text_eq before.endpoint_id entry.endpoint_id
      then answer pinned
      else answer (refusal (changed before.endpoint_id entry.endpoint_id))
]

-- `forget`, behind its read.
unfoldable pub decide_forget : Text → Ledger → Decision
decide_forget slug ledger = elim (lookup_name ledger slug) [
  | none ↦ answer absent
  | some before ↦ publish (remove_name ledger slug)
]

unfoldable pub decide : Order → Ledger → Decision
unfolding decide_pin decide_forget
decide (pin slug entry) ledger = decide_pin slug entry ledger
decide (forget slug) ledger = decide_forget slug ledger

abbrev pub done_with : Order → Outcome
done_with (pin slug entry) = pinned
done_with (forget slug) = forgotten

unfoldable pub holds : Option ℕ → ℕ → Bool
holds none n = false
holds (some m) n = m == n

-- `LockFile::drop`.
unfoldable pub release : Option ℕ → ℕ → Option ℕ
unfolding holds
release lock n = if holds lock n then none else lock

-- A writer goes on, gives up waiting or fails where it is, or its process dies. A waiter breaks the
-- lock, which it takes to be stale.
pub data Event : Type 0 where
  goes fails dies : ℕ → Event
  broken : Event

unfoldable pub at_stage : Disk → ℕ → Writer → Stage → Disk
at_stage d k w stage = record d { writers = set d.writers k (record w { stage = stage }) }

-- The writer is over, and its `LockFile` dropped.
unfoldable pub finish : Disk → ℕ → Writer → ℕ → Outcome → Disk
unfolding at_stage release
finish d k w n outcome = at_stage (record d { lock = release d.lock n }) k w (over outcome)

unfoldable pub decided : Disk → ℕ → Writer → ℕ → Decision → Disk
unfolding at_stage finish
decided d k w n (publish ledger) = at_stage d k w (writing n ledger)
decided d k w n (answer outcome) = finish d k w n outcome

-- `acquire_lock_file`, one try.
unfoldable pub acquire : Disk → ℕ → Writer → Disk
unfolding at_stage
acquire d k w = elim d.lock [
  | none ↦
      at_stage (record d { lock = some d.next_nonce; next_nonce = d.next_nonce + 1 }) k w
        (holding d.next_nonce)
  | some other ↦ d
]

-- `verify_lock_still_held`, in `write`.
unfoldable pub verify : Disk → ℕ → Writer → ℕ → Ledger → Disk
unfolding at_stage finish holds
verify d k w n ledger =
    if holds d.lock n then at_stage d k w (verified n ledger) else finish d k w n (refusal io_error)

-- The rename at the end of `write`.
unfoldable pub put_in_place : Disk → ℕ → Writer → ℕ → Ledger → Disk
unfolding finish
put_in_place d k w n ledger = finish (record d { file = ledger }) k w n (done_with w.order)

-- `pin_preapproved` and `forget`, from one wait to the next.
unfoldable pub go : Disk → ℕ → Writer → Stage → Disk
unfolding acquire decide decided verify put_in_place
go d k w waiting = acquire d k w
go d k w (holding n) = decided d k w n (decide w.order d.file)
go d k w (writing n ledger) = verify d k w n ledger
go d k w (verified n ledger) = put_in_place d k w n ledger
go d k w (over outcome) = d

unfoldable pub fail : Disk → ℕ → Writer → Stage → Disk
unfolding finish at_stage
fail d k w waiting = at_stage d k w (over (refusal io_error))
fail d k w (holding n) = finish d k w n (refusal io_error)
fail d k w (writing n ledger) = finish d k w n (refusal io_error)
fail d k w (verified n ledger) = finish d k w n (refusal io_error)
fail d k w (over outcome) = d

unfoldable pub die : Disk → ℕ → Writer → Stage → Disk
unfolding at_stage
die d k w (over outcome) = d
die d k w _ = at_stage d k w (over crashed_there)

-- `break_if_stale`, of whatever lock there is by then.
unfoldable pub break_lock : Disk → Disk
break_lock d = record d { lock = none }

unfoldable pub step : Disk → Event → Disk
unfolding go fail die break_lock
step d (goes k) = elim (get_elem? d.writers k) [ none ↦ d | some w ↦ go d k w w.stage ]
step d (fails k) = elim (get_elem? d.writers k) [ none ↦ d | some w ↦ fail d k w w.stage ]
step d (dies k) = elim (get_elem? d.writers k) [ none ↦ d | some w ↦ die d k w w.stage ]
step d broken = break_lock d

unfoldable pub run : Disk → List Event → Disk
unfolding step
run d [] = d
run d (e ∷ es) = run (step d e) es

-- Writers that have not begun, on a disk with no lock.
unfoldable pub opened : Ledger → List Order → Disk
opened file orders = record {
  file = file;
  lock = none;
  next_nonce = 0;
  writers = map (λ order. record { order = order; stage = waiting }) orders;
}
