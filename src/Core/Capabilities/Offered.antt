-- ===== src/Core/Capabilities/Offered.antt =====
-- What is served is described, indexed by name and free of duplicates, after any changes.
use zyris_protocol.Prelude.{
  ℕ, ◌≡◌, refl, sym, ◌∙◌, subst, false, ◌||◌, Option, none, some, List, [], ◌∷◌, ◌++◌, map, arith,
  if◌then◌else◌, Text, text_eq, text_eq_iff, if-cases,
}
use mathlib.Core.List.{append-nil, append_assoc}
use zyris_protocol.Prelude.Named.{lookup_name, insert_name, lookup_name-insert_name}
use zyris_protocol.Proto.Error.{WireError}
use zyris_protocol.Proto.Capability.{CapabilityDescriptor}
use zyris_protocol.Core.State.{WireResult, success, failure, Setting}
use zyris_protocol.Core.Capabilities.{
  Served, same_capability, is_seen, build_from, served_of, build,
}

-- A predicate of what both results lead to.
pub WireResult-elim {ℓ κ μ} :
    {A : Type ℓ} {B : Type κ} (P : B → Type μ) (r : WireResult A) {f : WireError → B} {g : A → B}
    → ((e : WireError) → r ≡ failure e → P (f e))
    → ((a : A) → r ≡ success a → P (g a))
    → P (elim r [ failure e ↦ f e | success a ↦ g a ])
WireResult-elim P (failure e) p q = p e refl
WireResult-elim P (success a) p q = q a refl

unfoldable pub AreDistinct : List CapabilityDescriptor → Type 0
AreDistinct [] = Unit {0}
AreDistinct (d ∷ ds) = (is_seen d ds ≡ false) × AreDistinct ds

same_capability_sym : (a b : CapabilityDescriptor) → same_capability a b ≡ same_capability b a
unfolding same_capability
same_capability_sym a b = ground (arith, text_eq_iff a.name b.name, text_eq_iff b.name a.name)

is_seen-append :
    (d : CapabilityDescriptor) (ds es : List CapabilityDescriptor)
    → is_seen d (ds ++ es) ≡ (is_seen d ds || is_seen d es)
unfolding is_seen
is_seen-append d [] es = refl
is_seen-append d (x ∷ ds) es = ground (arith, is_seen-append d ds es)

AreDistinct-snoc :
    (d : CapabilityDescriptor) (ds : List CapabilityDescriptor)
    → AreDistinct ds
    → is_seen d ds ≡ false
    → AreDistinct (ds ++ (d ∷ []))
unfolding AreDistinct is_seen
AreDistinct-snoc d [] h e = (refl, tt)
AreDistinct-snoc d (x ∷ ds) (unseen, h) e = (
  ground (arith, is_seen-append x ds (d ∷ []), same_capability_sym d x),
  AreDistinct-snoc d ds h (ground arith),
)

-- A description that has one like it before it would not be distinct.
AreDistinct-middle :
    (d : CapabilityDescriptor) (ds es : List CapabilityDescriptor)
    → AreDistinct (ds ++ (d ∷ es))
    → is_seen d ds ≡ false
unfolding AreDistinct is_seen
AreDistinct-middle d [] es h = refl
AreDistinct-middle d (x ∷ ds) es (unseen, h) =
    ground
      (arith, is_seen-append x ds (d ∷ es), same_capability_sym d x, AreDistinct-middle d ds es h)

abbrev pub IsSuccess {ℓ} : {A : Type ℓ} → WireResult A → Type 0
IsSuccess (success a) = Unit {0}
IsSuccess (failure e) = ⊥

module _ (descriptor : ℕ → CapabilityDescriptor) where
  -- The last of the capabilities that has the name.
  unfoldable pub last_named : Text → List ℕ → Option ℕ
  last_named name [] = none
  last_named name (capability ∷ rest) = elim (last_named name rest) [
    | some later ↦ some later
    | none ↦ if text_eq (descriptor capability).name name then some capability else none
  ]

  pub record IsBuilt (b : Served) : Type 0 where
    pub described : b.descriptors ≡ map descriptor b.capabilities
    pub indexed : (name : Text) → lookup_name b.by_name name ≡ last_named name b.capabilities
    pub distinct : AreDistinct b.descriptors

  -- What the loop comes to, from the descriptors and the names before it.
  Continues :
      List ℕ
      → List CapabilityDescriptor
      → List (Text × ℕ)
      → WireResult (List CapabilityDescriptor × List (Text × ℕ))
      → Type 0
  Continues capabilities ds m (failure e) = Unit {0}
  Continues capabilities ds m (success (ds', m')) =
      (ds' ≡ ds ++ map descriptor capabilities)
      × ((name : Text)
          → lookup_name m' name ≡ elim (last_named name capabilities) [
            | some later ↦ some later
            | none ↦ lookup_name m name
          ])
      × (AreDistinct ds → AreDistinct ds')

  Continues-step :
      (capability : ℕ) (rest : List ℕ) (ds : List CapabilityDescriptor) (m : List (Text × ℕ))
      (r : WireResult (List CapabilityDescriptor × List (Text × ℕ)))
      → let d = descriptor capability in
        Continues rest (ds ++ (d ∷ [])) (insert_name m d.name capability) r
        → is_seen d ds ≡ false
        → Continues (capability ∷ rest) ds m r
  unfolding Continues last_named
  Continues-step capability rest ds m (failure e) h unseen = tt
  Continues-step capability rest ds m (success (ds', m')) (all, found, distinct) unseen =
      let d = descriptor capability in
      (
        all ∙ append_assoc ds (d ∷ []) (map descriptor rest),
        (λ name. ground (arith, found name, lookup_name-insert_name m d.name name capability)),
        (λ before. distinct (AreDistinct-snoc d ds before unseen)),
      )

module _ (c : Setting) (descriptor : ℕ → CapabilityDescriptor) where
  build_from-Continues :
      (capabilities : List ℕ) (ds : List CapabilityDescriptor) (m : List (Text × ℕ))
      → Continues descriptor capabilities ds m (build_from c descriptor capabilities ds m)
  unfolding build_from Continues last_named
  build_from-Continues [] ds m = (sym (append-nil ds), (λ name. refl), (λ before. before))
  build_from-Continues (capability ∷ rest) ds m =
      let d = descriptor capability in
      if-cases (Continues descriptor (capability ∷ rest) ds m) (is_seen d ds) (λ seen. tt)
        (λ unseen.
          Continues-step descriptor capability rest ds m
            (build_from c descriptor rest (ds ++ (d ∷ [])) (insert_name m d.name capability))
            (build_from-Continues rest (ds ++ (d ∷ [])) (insert_name m d.name capability)) unseen)

  build_from-IsSuccess :
      (capabilities : List ℕ) (ds : List CapabilityDescriptor) (m : List (Text × ℕ))
      → AreDistinct (ds ++ map descriptor capabilities)
      → IsSuccess (build_from c descriptor capabilities ds m)
  unfolding build_from
  build_from-IsSuccess [] ds m h = tt
  build_from-IsSuccess (capability ∷ rest) ds m h =
      let d = descriptor capability in
      rw (AreDistinct-middle d ds (map descriptor rest) h) (
        build_from-IsSuccess rest (ds ++ (d ∷ [])) (insert_name m d.name capability)
          (subst AreDistinct (sym (append_assoc ds (d ∷ []) (map descriptor rest))) h))

  abbrev pub AreBuilt : List ℕ → WireResult Served → Type 0
  AreBuilt capabilities (failure e) = Unit {0}
  AreBuilt capabilities (success b) = (b.capabilities ≡ capabilities) × IsBuilt descriptor b

  served_of-AreBuilt :
      (capabilities : List ℕ) (r : WireResult (List CapabilityDescriptor × List (Text × ℕ)))
      → Continues descriptor capabilities [] [] r
      → AreBuilt capabilities (served_of capabilities r)
  unfolding served_of Continues lookup_name AreDistinct
  served_of-AreBuilt capabilities (failure e) h = tt
  served_of-AreBuilt capabilities (success (ds, m)) (all, found, distinct) = (
    refl,
    record {
      described = all;
      indexed = λ name. found name ∙ no_earlier (last_named descriptor name capabilities);
      distinct = distinct tt;
    },
  )
    where
      no_earlier : (o : Option ℕ) → elim o [ some later ↦ some later | none ↦ none ] ≡ o
      no_earlier none = refl
      no_earlier (some k) = refl

  pub build-AreBuilt :
      (capabilities : List ℕ) → AreBuilt capabilities (build c descriptor capabilities)
  unfolding build
  build-AreBuilt capabilities =
      served_of-AreBuilt capabilities (build_from c descriptor capabilities [] [])
        (build_from-Continues capabilities [] [])

  served_of-IsSuccess :
      (capabilities : List ℕ) (r : WireResult (List CapabilityDescriptor × List (Text × ℕ)))
      → IsSuccess r
      → IsSuccess (served_of capabilities r)
  unfolding served_of
  served_of-IsSuccess capabilities (success (ds, m)) h = tt
  served_of-IsSuccess capabilities (failure e) h = h

  pub build-IsSuccess :
      (capabilities : List ℕ)
      → AreDistinct (map descriptor capabilities)
      → IsSuccess (build c descriptor capabilities)
  unfolding build
  build-IsSuccess capabilities h =
      served_of-IsSuccess capabilities (build_from c descriptor capabilities [] [])
        (build_from-IsSuccess capabilities [] [] h)
