-- ===== src/Core/Capabilities.antt =====
-- crates/zyris-core/src/capabilities.rs: what a node offers, and how a change reaches the
-- connections. An `Arc` of a capability is a number; its descriptor is what its trait's method
-- returns, the same each time.
pub mod Offered
pub mod Aborted
pub mod Victims
pub mod Changes
pub mod Removal
pub mod Revoked
pub mod Told
use zyris_protocol.Prelude.{
  ℕ, Bool, true, false, ◌&&◌, ◌||◌, Option, none, some, List, [], ◌∷◌, ◌++◌, map, ◌==◌,
  if◌then◌else◌, Text, codes, text_eq,
}
use zyris_protocol.Prelude.Named.{lookup_name, insert_name}
use zyris_protocol.Proto.Value.{Payload, default}
use zyris_protocol.Proto.Error.{invalid_params}
use zyris_protocol.Proto.Envelope.{method_announce}
use zyris_protocol.Proto.Capability.{CapabilityDescriptor}
use zyris_protocol.Core.State.{WireResult, success, failure, Setting, Shared}
use zyris_protocol.Core.Requests.{revoke_inflight}
use zyris_protocol.Core.Client.{request}

pub record Served : Type 0 where
  pub capabilities : List ℕ
  pub descriptors : List CapabilityDescriptor
  pub by_name : List (Text × ℕ)

abbrev pub nothing_served : Served
nothing_served = record { capabilities = []; descriptors = []; by_name = [] }

unfoldable pub same_capability : CapabilityDescriptor → CapabilityDescriptor → Bool
same_capability a b = text_eq a.name b.name && (a.version == b.version)

unfoldable pub is_seen : CapabilityDescriptor → List CapabilityDescriptor → Bool
unfolding same_capability
is_seen d [] = false
is_seen d (seen ∷ rest) = same_capability seen d || is_seen d rest

unfoldable pub names : List (Text × ℕ) → List Text
names [] = []
names ((name, _) ∷ rest) = name ∷ names rest

-- The names of the first map that the second has not.
unfoldable pub missing : List Text → List (Text × ℕ) → List Text
missing [] built = []
missing (name ∷ rest) built =
    let others = missing rest built in
    elim (lookup_name built name) [ none ↦ name ∷ others | some _ ↦ others ]

-- A connection whose `Weak` still upgrades, with the place among its calls of the task that makes
-- the change, if that is one of them.
pub record Live : Type 0 where
  pub shared : Shared
  pub caller : Option ℕ

pub record CapabilitySet : Type 0 where
  pub served : Served
  pub live : List Live

-- The set is shared: a connection sees the change at once.
unfoldable pub see : Served → Live → Live
unfolding names
see built l = record l { shared = record l.shared { caps = names built.by_name } }

-- What `Served::build` makes of its loop's result.
unfoldable pub served_of :
    List ℕ → WireResult (List CapabilityDescriptor × List (Text × ℕ)) → WireResult Served
served_of capabilities (failure e) = failure e
served_of capabilities (success (descriptors, by_name)) =
    success (record { capabilities = capabilities; descriptors = descriptors; by_name = by_name })

module _ (c : Setting) (descriptor : ℕ → CapabilityDescriptor) where
  -- The loop of `Served::build`.
  unfoldable pub build_from :
      List ℕ
      → List CapabilityDescriptor
      → List (Text × ℕ)
      → WireResult (List CapabilityDescriptor × List (Text × ℕ))
  unfolding is_seen invalid_params
  build_from [] descriptors by_name = success (descriptors, by_name)
  build_from (capability ∷ rest) descriptors by_name =
      let d = descriptor capability in
      let more =
        build_from rest (descriptors ++ (d ∷ [])) (insert_name by_name d.name capability) in
      if is_seen d descriptors
      then failure (
          invalid_params
            (codes "duplicate capability " ++ (d.name ++ (codes " v" ++ c.digits d.version))))
      else more

  -- `Served::build`.
  unfoldable pub build : List ℕ → WireResult Served
  unfolding build_from served_of
  build capabilities = served_of capabilities (build_from capabilities [] [])

  -- `CapabilitySet::push`, while a node is built.
  unfoldable pub push : CapabilitySet → ℕ → CapabilitySet × WireResult (Unit {0})
  unfolding build see
  push set capability = elim (build (set.served.capabilities ++ (capability ∷ []))) [
    | failure e ↦ (set, failure e)
    | success built ↦ (record set { served = built; live = map (see built) set.live }, success tt)
  ]

unfoldable pub has_name : CapabilitySet → Text → Bool
has_name set name = elim (lookup_name set.served.by_name name) [ none ↦ false | some _ ↦ true ]

unfoldable pub register : CapabilitySet → Shared → CapabilitySet
unfolding see
register set shared = record set {
  live = set.live ++ (see set.served (record { shared = shared; caller = none }) ∷ []);
}

-- The capabilities whose descriptors have another name.
unfoldable pub others : Text → List ℕ → List CapabilityDescriptor → List ℕ
others name (capability ∷ rest) (d ∷ ds) =
    let kept = others name rest ds in if text_eq d.name name then kept else capability ∷ kept
others name _ _ = []

-- `Result::is_ok`.
unfoldable pub is_ok : WireResult (Unit {0}) → Bool
is_ok (success a) = true
is_ok (failure e) = false

module _ (c : Setting) where
  unfoldable pub revoke_names : Shared → List Text → Option ℕ → Shared
  unfolding revoke_inflight
  revoke_names s [] caller = s
  revoke_names s (name ∷ rest) caller = revoke_names (revoke_inflight c s name caller) rest caller

-- `to_payload` is what serde makes of the announcement's parameters.
module _ (c : Setting) (descriptor : ℕ → CapabilityDescriptor)
    (to_payload : List CapabilityDescriptor → WireResult Payload) where
  -- `Connection::announce`, up to its wait for the answer.
  unfoldable pub announce : Shared → List CapabilityDescriptor → Shared
  unfolding request
  announce s descriptors = elim (to_payload descriptors) [
    | failure e ↦ s
    | success params ↦ (request c s method_announce params none default).0
  ]

  -- The body of `propagate`'s loop, on a connection that already sees the new set.
  unfoldable pub tell : Served → List Text → Live → Live
  unfolding revoke_names announce see
  tell built revoked l =
      let seen = see built l in
      elim seen.shared.closed [
        | some reason ↦ seen
        | none ↦ record seen {
          shared = announce (revoke_names c seen.shared revoked seen.caller) built.descriptors;
        }
      ]

  unfoldable pub replace : CapabilitySet → List ℕ → CapabilitySet × WireResult (Unit {0})
  unfolding build tell missing names
  replace set capabilities = elim (build c descriptor capabilities) [
    | failure e ↦ (set, failure e)
    | success built ↦
        let revoked = missing (names set.served.by_name) built.by_name in
        (record set { served = built; live = map (tell built revoked) set.live }, success tt)
  ]

  -- `Capabilities::add_arc`.
  unfoldable pub add : CapabilitySet → ℕ → CapabilitySet × WireResult (Unit {0})
  unfolding replace
  add set capability = replace set (set.served.capabilities ++ (capability ∷ []))

  unfoldable pub remove_capability : CapabilitySet → Text → CapabilitySet × Bool
  unfolding has_name others replace is_ok
  remove_capability set name =
      let (next, outcome) =
        replace set (others name set.served.capabilities set.served.descriptors) in
      if has_name set name then (next, is_ok outcome) else (set, false)
