-- ===== src/Core/Credit.antt =====
-- The credit of one outgoing stream (`CreditGate`). A wait for credit is an answer: the caller is
-- asked again when credit has come.
pub mod Flow
use zyris_protocol.Prelude.{ℕ, ◌+◌, ◌-◌, ◌%◌, ◌^◌, Bool, true, false, leb, if◌then◌else◌}

pub record CreditState : Type 0 where
  pub available : ℕ
  pub canceled : Bool

-- `CreditGate::new`.
unfoldable pub open_gate : ℕ → CreditState
open_gate initial = record { available = initial; canceled = false }

pub data Acquired : Type 0 where
  granted : CreditState → Acquired
  refused waiting : Acquired

-- One round of the loop of `CreditGate::acquire`.
unfoldable pub acquire : CreditState → ℕ → Acquired
acquire state n =
    if state.canceled
    then refused
    else if leb n state.available
    then granted (record state { available = state.available - n })
    else waiting

-- `CreditGate::add`, which wraps as a release build does.
unfoldable pub add : CreditState → ℕ → CreditState
add state n = record state { available = (state.available + n) % 2 ^ 64 }

unfoldable pub cancel : CreditState → CreditState
cancel state = record state { canceled = true }
