-- ===== src/Core/Capabilities/Changes.antt =====
-- The changes of what a node offers, while it is built and while it is connected.
use zyris_protocol.Prelude.{ℕ, ◌≡◌, refl, subst, Bool, List, [], ◌∷◌, ◌++◌, Text, set, if-elim}
use zyris_protocol.Prelude.Named.{lookup_name}
use zyris_protocol.Proto.Value.{Payload}
use zyris_protocol.Proto.Capability.{CapabilityDescriptor}
use zyris_protocol.Core.State.{WireResult, success, Setting, Shared}
use zyris_protocol.Core.Capabilities.{
  Served, nothing_served, CapabilitySet, build, push, has_name, register, replace, add, others,
  remove_capability,
}
use zyris_protocol.Core.Capabilities.Offered.{
  WireResult-elim, AreDistinct, last_named, IsBuilt, AreBuilt, build-AreBuilt,
}

pub data Change : Type 0 where
  push_one add_one : ℕ → Change
  connect : Shared → Change
  replace_all : List ℕ → Change
  remove_one : Text → Change

abbrev pub new_set : CapabilitySet
new_set = record { served = nothing_served; live = [] }

module _ (c : Setting) (descriptor : ℕ → CapabilityDescriptor)
    (to_payload : List CapabilityDescriptor → WireResult Payload) where
  unfoldable pub change : CapabilitySet → Change → CapabilitySet
  unfolding push add register replace remove_capability
  change set (push_one capability) = (push c descriptor set capability).0
  change set (add_one capability) = (add c descriptor to_payload set capability).0
  change set (connect shared) = register set shared
  change set (replace_all capabilities) = (replace c descriptor to_payload set capabilities).0
  change set (remove_one name) = (remove_capability c descriptor to_payload set name).0

  unfoldable pub changes : CapabilitySet → List Change → CapabilitySet
  unfolding change
  changes set [] = set
  changes set (x ∷ xs) = changes (change set x) xs

  Holds : CapabilitySet × WireResult (Unit {0}) → Type 0
  Holds r = IsBuilt descriptor r.0.served

  pub success_IsBuilt :
      (capabilities : List ℕ) (b : Served)
      → build c descriptor capabilities ≡ success b
      → (b.capabilities ≡ capabilities) × IsBuilt descriptor b
  success_IsBuilt capabilities b e =
      subst (AreBuilt c descriptor capabilities) e (build-AreBuilt c descriptor capabilities)

  replace-Holds :
      (set : CapabilitySet) (capabilities : List ℕ)
      → IsBuilt descriptor set.served
      → Holds (replace c descriptor to_payload set capabilities)
  unfolding replace Holds
  replace-Holds set capabilities h =
      WireResult-elim Holds (build c descriptor capabilities) (λ e r. h)
        (λ b r. (success_IsBuilt capabilities b r).1)

  push-Holds :
      (set : CapabilitySet) (capability : ℕ)
      → IsBuilt descriptor set.served
      → Holds (push c descriptor set capability)
  unfolding push Holds
  push-Holds set capability h =
      let all = set.served.capabilities ++ (capability ∷ []) in
      WireResult-elim Holds (build c descriptor all) (λ e r. h) (λ b r. (success_IsBuilt all b r).1)

  change-IsBuilt :
      (set : CapabilitySet) (x : Change)
      → IsBuilt descriptor set.served
      → IsBuilt descriptor (change set x).served
  unfolding change add register remove_capability has_name Holds
  change-IsBuilt set (push_one capability) h = push-Holds set capability h
  change-IsBuilt set (add_one capability) h =
      replace-Holds set (set.served.capabilities ++ (capability ∷ [])) h
  change-IsBuilt set (connect shared) h = h
  change-IsBuilt set (replace_all capabilities) h = replace-Holds set capabilities h
  change-IsBuilt set (remove_one name) h =
      if-elim (λ (r : CapabilitySet × Bool). IsBuilt descriptor r.0.served) (has_name set name)
        (replace-Holds set (others name set.served.capabilities set.served.descriptors) h) h

  run_IsBuilt :
      (xs : List Change) (set : CapabilitySet)
      → IsBuilt descriptor set.served
      → IsBuilt descriptor (changes set xs).served
  unfolding changes
  run_IsBuilt [] set h = h
  run_IsBuilt (x ∷ xs) set h = run_IsBuilt xs (change set x) (change-IsBuilt set x h)

  -- After any changes, made while the node is built or connected, refused ones included: what is
  -- announced is the descriptors of the capabilities, no two of them with the same name and
  -- version; and a name leads to the last capability that has it.
  pub changes-IsBuilt : (xs : List Change) → IsBuilt descriptor (changes new_set xs).served
  unfolding lookup_name last_named AreDistinct
  changes-IsBuilt xs =
      run_IsBuilt xs new_set (record { described = refl; indexed = λ name. refl; distinct = tt })
