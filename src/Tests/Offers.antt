-- ===== src/Tests/Offers.antt =====
-- A node that changes what it offers while a call runs.
use zyris_protocol.Prelude.{ℕ, zero, suc, ◌≡◌, refl, false, none, List, [], ◌∷◌, codes, text_eq}
use zyris_protocol.Proto.Capability.{CapabilityDescriptor}
use zyris_protocol.Proto.Value.{Payload, nil}
use zyris_protocol.Core.State.{WireResult, success, Shared, dispatching}
use zyris_protocol.Core.Start.{start, acceptor}
use zyris_protocol.Core.Capabilities.{Live, CapabilitySet, has_name, replace, remove_capability}
use zyris_protocol.Core.Capabilities.Offered.{IsBuilt}
use zyris_protocol.Core.Capabilities.Changes.{push_one, add_one, new_set, changes, changes-IsBuilt}
use zyris_protocol.Core.Capabilities.Removal.{IsGone, remove_capability_lem}
use zyris_protocol.Tests.Links.{toy}

-- Capabilities 0 and 1 are two versions of one name.
abbrev described : ℕ → CapabilityDescriptor
described zero = record { name = codes "fs"; version = 1; tools = [] }
described (suc zero) = record { name = codes "fs"; version = 2; tools = [] }
described k = record { name = codes "screen"; version = k; tools = [] }

abbrev write_nil : List CapabilityDescriptor → WireResult Payload
write_nil ds = success nil

abbrev three : CapabilitySet
three =
    changes toy described write_nil new_set (push_one 0 ∷ push_one 1 ∷ add_one 2 ∷ add_one 0 ∷ [])

changes-IsBuilt_example : IsBuilt described three.served
changes-IsBuilt_example =
    changes-IsBuilt toy described write_nil (push_one 0 ∷ push_one 1 ∷ add_one 2 ∷ add_one 0 ∷ [])

three-IsBuilt : IsBuilt described three.served
three-IsBuilt =
    changes-IsBuilt toy described write_nil (push_one 0 ∷ push_one 1 ∷ add_one 2 ∷ add_one 0 ∷ [])

remove_capability_lem_example :
    let r = remove_capability toy described write_nil three (codes "fs") in
    (r.1 ≡ has_name three (codes "fs")) × IsGone (codes "fs") three r.0
remove_capability_lem_example =
    remove_capability_lem toy described write_nil three (codes "fs") three-IsBuilt

offered : three.served.capabilities ≡ 0 ∷ 1 ∷ 2 ∷ []
unfolding changes text_eq
offered = refl

-- A connection on which a call of `fs` runs.
abbrev busy : Shared
busy = record (start acceptor []) {
  inflight = (7, record { capability = codes "fs"; task = 0; stream = none }) ∷ [];
  calls =
      record {
        id = 7;
        stream_id = none;
        replied = false;
        done = false;
        aborted = false;
        stage = dispatching;
      }
      ∷ [];
}

abbrev connected_set : CapabilitySet
connected_set = record {
  served = three.served;
  live = record { shared = busy; caller = none } ∷ [];
}

abbrev replaced : CapabilitySet × WireResult (Unit {0})
replaced = replace toy described write_nil connected_set (2 ∷ [])

abbrev first_of : List Live → Live
first_of [] = record { shared = busy; caller = none }
first_of (l ∷ ls) = l
