-- ===== src/Core/Ending/Gates.antt =====
-- What a shutdown leaves behind.
use zyris_protocol.Prelude.{
  ℕ, zero, suc, ◌≡◌, refl, ap, ◌∙◌, subst, inl, inr, Bool, true, none, some, List, [], ◌∷◌, arith,
  ◌==◌, Bool-cases, Option-cases, get_elem?, set, Option-elim, lookup,
}
use zyris_protocol.Core.Credit.{
  CreditState, open_gate, Acquired, granted, refused, waiting, acquire, add,
}
use zyris_protocol.Core.Credit
use zyris_protocol.Core.State.{CallTask, Shared}
use zyris_protocol.Core.Receiving.{change_gate}
use zyris_protocol.Core.Ending.{cancel_gates}

-- What is at a place, if anything is there.
abbrev pub holds_at {ℓ} : {A : Type ℓ} → (A → Bool) → List A → ℕ → Bool
holds_at p xs k = elim (get_elem? xs k) [ none ↦ true | some a ↦ p a ]

module _ {ℓ} {A : Type ℓ} (p : A → Bool) where
  holds_at-set :
      (xs : List A) (k j : ℕ) (v : A)
      → p v ≡ true
      → holds_at p xs k ≡ true
      → holds_at p (set xs j v) k ≡ true
  holds_at-set [] k j v h q = q
  holds_at-set (x ∷ xs) zero zero v h q = h
  holds_at-set (x ∷ xs) zero (suc j) v h q = q
  holds_at-set (x ∷ xs) (suc k) zero v h q = q
  holds_at-set (x ∷ xs) (suc k) (suc j) v h q = holds_at-set xs k j v h q

  pub holds_at-set_self :
      (xs : List A) (k : ℕ) (v : A) → p v ≡ true → holds_at p (set xs k v) k ≡ true
  holds_at-set_self [] k v h = refl
  holds_at-set_self (x ∷ xs) zero v h = h
  holds_at-set_self (x ∷ xs) (suc k) v h = holds_at-set_self xs k v h

  pub holds_at-none : (xs : List A) (k : ℕ) → get_elem? xs k ≡ none → holds_at p xs k ≡ true
  holds_at-none xs k h = rw (h, holds_at) refl

change_gate-none :
    (s : Shared) (gate : ℕ) (f : CreditState → CreditState)
    → get_elem? s.gates gate ≡ none
    → change_gate s gate f ≡ s
unfolding change_gate
change_gate-none s gate f h = rw (h, change_gate) refl

abbrev pub is_canceled : CreditState → Bool
is_canceled g = g.canceled

abbrev is_aborted : CallTask → Bool
is_aborted call = call.aborted

cancel-keeps :
    (s : Shared) (gate k : ℕ)
    → holds_at is_canceled s.gates k ≡ true
    → holds_at is_canceled (change_gate s gate Credit.cancel).gates k ≡ true
unfolding change_gate Credit.cancel
cancel-keeps s gate k h =
    Option-elim (λ (t : Shared). holds_at is_canceled t.gates k ≡ true) (get_elem? s.gates gate) h
      (λ state _. holds_at-set is_canceled s.gates k gate (Credit.cancel state) refl h)

cancel-hits :
    (s : Shared) (gate : ℕ)
    → holds_at is_canceled (change_gate s gate Credit.cancel).gates gate ≡ true
unfolding change_gate Credit.cancel
cancel-hits s gate = elim (Option-cases (get_elem? s.gates gate)) [
  | inl absent ↦
      ap (λ (t : Shared). holds_at is_canceled t.gates gate)
        (change_gate-none s gate Credit.cancel absent)
      ∙ holds_at-none is_canceled s.gates gate absent
  | inr (state, here) ↦
      rw (here, change_gate) (holds_at-set_self is_canceled s.gates gate (Credit.cancel state) refl)
]

cancel_gates-keeps :
    (m : List (ℕ × ℕ)) (s : Shared) (k : ℕ)
    → holds_at is_canceled s.gates k ≡ true
    → holds_at is_canceled (cancel_gates s m).gates k ≡ true
unfolding cancel_gates
cancel_gates-keeps [] s k h = h
cancel_gates-keeps ((stream, gate) ∷ m) s k h =
    cancel_gates-keeps m (change_gate s gate Credit.cancel) k (cancel-keeps s gate k h)

pub cancel_gates-hits :
    (m : List (ℕ × ℕ)) (s : Shared) (stream k : ℕ)
    → lookup m stream ≡ some k
    → holds_at is_canceled (cancel_gates s m).gates k ≡ true
unfolding cancel_gates lookup
cancel_gates-hits [] s stream k h = cc
cancel_gates-hits ((j, gate) ∷ m) s stream k h = elim (Bool-cases (j == stream)) [
  | inl hit ↦
      let same : gate ≡ k = ground arith in
      subst
        (λ g.
          holds_at is_canceled (cancel_gates (change_gate s gate Credit.cancel) m).gates g ≡ true)
        same (cancel_gates-keeps m (change_gate s gate Credit.cancel) gate (cancel-hits s gate))
  | inr miss ↦ cancel_gates-hits m (change_gate s gate Credit.cancel) stream k (ground arith)
]

change_gate-only :
    (s : Shared) (gate : ℕ) (f : CreditState → CreditState)
    → change_gate s gate f ≡ record s { gates = (change_gate s gate f).gates }
unfolding change_gate
change_gate-only s gate f =
    Option-elim (λ (t : Shared). t ≡ record s { gates = t.gates }) (get_elem? s.gates gate) refl
      (λ state _. refl)

pub cancel_gates-only :
    (m : List (ℕ × ℕ)) (s : Shared)
    → cancel_gates s m ≡ record s { gates = (cancel_gates s m).gates }
unfolding cancel_gates
cancel_gates-only [] s = refl
cancel_gates-only ((stream, gate) ∷ m) s =
    let next = change_gate s gate Credit.cancel in
    cancel_gates-only m next
    ∙ ap (λ (t : Shared). record t { gates = (cancel_gates next m).gates })
        (change_gate-only s gate Credit.cancel)
