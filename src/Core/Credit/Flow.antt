-- ===== src/Core/Credit/Flow.antt =====
-- Credit is neither lost nor made: what a stream was let send is what it was given.
use zyris_protocol.Prelude.{ℕ, ◌+◌, ◌^◌, ◌<◌, ◌≡◌, List, [], ◌∷◌, arith}
use zyris_protocol.Core.Credit.{
  CreditState, open_gate, Acquired, granted, refused, waiting, acquire, add,
}
use zyris_protocol.Core.Credit

-- What happens to a gate: a chunk asks for credit, the peer gives some, or the stream is canceled.
pub data Demand : Type 0 where
  asked given : ℕ → Demand
  stopped : Demand

pub record Ledger : Type 0 where
  pub gate : CreditState
  pub paid : ℕ

abbrev pub after_acquire : Ledger → ℕ → Acquired → Ledger
after_acquire l n (granted left) = record { gate = left; paid = l.paid + n }
after_acquire l n _ = l

unfoldable pub settle : Ledger → List Demand → Ledger
unfolding acquire add Credit.cancel
settle l [] = l
settle l (asked n ∷ ds) = settle (after_acquire l n (acquire l.gate n)) ds
settle l (given n ∷ ds) = settle (record l { gate = add l.gate n }) ds
settle l (stopped ∷ ds) = settle (record l { gate = Credit.cancel l.gate }) ds

unfoldable pub total_given : List Demand → ℕ
total_given [] = 0
total_given (given n ∷ ds) = n + total_given ds
total_given (_ ∷ ds) = total_given ds

abbrev pub worth : Ledger → ℕ
worth l = l.paid + l.gate.available

after_acquire-worth : (l : Ledger) (n : ℕ) → worth (after_acquire l n (acquire l.gate n)) ≡ worth l
unfolding acquire
after_acquire-worth l n = ground arith

settle-worth :
    (ds : List Demand) (l : Ledger)
    → worth l + total_given ds < 2 ^ 64
    → worth (settle l ds) ≡ worth l + total_given ds
unfolding settle total_given add Credit.cancel
settle-worth [] l h = omega arith
settle-worth (asked n ∷ ds) l h =
    let same = after_acquire-worth l n in
    omega
      (arith, settle-worth ds (after_acquire l n (acquire l.gate n)) (omega (arith, same)), same)
settle-worth (given n ∷ ds) l h =
    omega (arith, settle-worth ds (record l { gate = add l.gate n }) (omega arith))
settle-worth (stopped ∷ ds) l h = settle-worth ds (record l { gate = Credit.cancel l.gate }) h

-- Over any sequence of chunks that ask for credit, grants of the peer and cancellations, the bytes
-- that the gate let through and the credit that is left are the initial credit and all that was
-- given, as long as this sum is below 2^64.
pub settle-open_gate :
    (initial : ℕ) (ds : List Demand)
    → initial + total_given ds < 2 ^ 64
    → let l = settle (record { gate = open_gate initial; paid = 0 }) ds in
      l.paid + l.gate.available ≡ initial + total_given ds
unfolding open_gate
settle-open_gate initial ds h =
    omega (arith, settle-worth ds (record { gate = open_gate initial; paid = 0 }) (omega arith))
