-- ===== src/Core/Capabilities/Removal.antt =====
-- Removal of a name: it always comes through, and takes that name and no other.
use zyris_protocol.Prelude.{
  ℕ, ◌≡◌, refl, sym, ap, ◌∙◌, subst, Bool, true, false, none, List, [], ◌∷◌, map, arith,
  if◌then◌else◌, Text, text_eq, text_eq_iff, set, if-elim, if-cases,
}
use zyris_protocol.Prelude.Named.{lookup_name}
use zyris_protocol.Proto.Value.{Payload}
use zyris_protocol.Proto.Capability.{CapabilityDescriptor}
use zyris_protocol.Core.State.{WireResult, success, failure, Setting}
use zyris_protocol.Core.Capabilities.{
  Served, is_seen, CapabilitySet, build, has_name, tell, names, missing, replace, others,
  remove_capability, is_ok,
}
use zyris_protocol.Core.Capabilities.Offered.{
  AreDistinct, IsSuccess, last_named, IsBuilt, AreBuilt, build-AreBuilt, build-IsSuccess,
}

module _ (descriptor : ℕ → CapabilityDescriptor) where
  kept : Text → List ℕ → List ℕ
  unfolding others
  kept name capabilities = others name capabilities (map descriptor capabilities)

  last_named-kept :
      (name n : Text) (capabilities : List ℕ)
      → last_named descriptor n (kept name capabilities)
        ≡ (if text_eq name n then none else last_named descriptor n capabilities)
  unfolding last_named kept others
  last_named-kept name n [] = ground arith
  last_named-kept name n (capability ∷ rest) = ground (
    arith,
    last_named-kept name n rest,
    text_eq_iff name n,
    text_eq_iff (descriptor capability).name n,
    text_eq_iff (descriptor capability).name name,
  )

  is_seen-kept :
      (d : CapabilityDescriptor) (name : Text) (capabilities : List ℕ)
      → is_seen d (map descriptor capabilities) ≡ false
      → is_seen d (map descriptor (kept name capabilities)) ≡ false
  unfolding is_seen kept others
  is_seen-kept d name [] h = refl
  is_seen-kept d name (capability ∷ rest) h = ground (arith, is_seen-kept d name rest)

  AreDistinct-kept :
      (name : Text) (capabilities : List ℕ)
      → AreDistinct (map descriptor capabilities)
      → AreDistinct (map descriptor (kept name capabilities))
  unfolding AreDistinct kept others
  AreDistinct-kept name [] h = tt
  AreDistinct-kept name (capability ∷ rest) (unseen, h) =
      if-elim (λ l. AreDistinct (map descriptor l)) (text_eq (descriptor capability).name name)
        (AreDistinct-kept name rest h)
        (is_seen-kept (descriptor capability) name rest unseen, AreDistinct-kept name rest h)

-- The names lead where they led, but for one.
abbrev pub IsGone : Text → CapabilitySet → CapabilitySet → Type 0
IsGone name before after =
    (n : Text)
    → lookup_name after.served.by_name n
      ≡ (if text_eq name n then none else lookup_name before.served.by_name n)

module _ (c : Setting) (descriptor : ℕ → CapabilityDescriptor)
    (to_payload : List CapabilityDescriptor → WireResult Payload) where
  abbrev Comes : Text → CapabilitySet → CapabilitySet × WireResult (Unit {0}) → Type 0
  Comes name set r = (is_ok r.1 ≡ true) × IsGone name set r.0

  kept-Comes :
      (set : CapabilitySet) (name : Text) (r : WireResult Served)
      → IsBuilt descriptor set.served
      → IsSuccess r
      → AreBuilt c descriptor (kept descriptor name set.served.capabilities) r
      → Comes name set (elim r [
        | failure e ↦ (set, failure e)
        | success built ↦
            let revoked = missing (names set.served.by_name) built.by_name in
            (
              record set {
                served = built;
                live = map (tell c descriptor to_payload built revoked) set.live;
              },
              success tt,
            )
      ])
  unfolding is_ok
  kept-Comes set name (failure e) h ok built = absurd ok
  kept-Comes set name (success b) h ok (same, built) = (
    refl,
    λ n.
        built.indexed n
        ∙ ap (last_named descriptor n) same
        ∙ last_named-kept descriptor name n set.served.capabilities
        ∙ ap (λ o. if text_eq name n then none else o) (sym (h.indexed n)),
  )

  replace-Comes :
      (set : CapabilitySet) (name : Text)
      → IsBuilt descriptor set.served
      → Comes name set (
          replace c descriptor to_payload set
            (others name set.served.capabilities set.served.descriptors))
  unfolding replace others kept
  replace-Comes set name h =
      subst
        (λ ds.
          Comes name set
            (replace c descriptor to_payload set (others name set.served.capabilities ds)))
        (sym h.described)
        (kept-Comes set name (build c descriptor (kept descriptor name set.served.capabilities)) h
          (build-IsSuccess c descriptor (kept descriptor name set.served.capabilities) (
            AreDistinct-kept descriptor name set.served.capabilities
              (subst AreDistinct h.described h.distinct)))
          (build-AreBuilt c descriptor (kept descriptor name set.served.capabilities)))

  none_there : (set : CapabilitySet) (name : Text) → has_name set name ≡ false → IsGone name set set
  unfolding has_name
  none_there set name absent n = ground (arith, text_eq_iff name n, text_eq_iff name name)

  -- Removal of a name from a set that changes made: it tells whether the name was offered, it never
  -- fails, and after it that name leads to nothing and each other one where it led before.
  pub remove_capability_lem :
      (set : CapabilitySet) (name : Text)
      → IsBuilt descriptor set.served
      → let r = remove_capability c descriptor to_payload set name in
        (r.1 ≡ has_name set name) × IsGone name set r.0
  unfolding remove_capability
  remove_capability_lem set name h =
      if-cases (λ (r : CapabilitySet × Bool). (r.1 ≡ has_name set name) × IsGone name set r.0)
        (has_name set name)
        (λ here. let (done, gone) = replace-Comes set name h in (done ∙ sym here, gone))
        (λ absent. (sym absent, none_there set name absent))
