-- ===== src/Core/Requests/Announced.antt =====
-- What an announcement leaves: the capabilities whose names are not reserved, in their order.
use zyris_protocol.Prelude.{Bool, not, ◌&&◌, ◌||◌, List, [], ◌∷◌, if◌then◌else◌, Text, codes}
use zyris_protocol.Proto.Capability.{CapabilityDescriptor, RejectedCapability}
use zyris_protocol.Proto.Frame
use zyris_protocol.Core.Requests.{contains}

-- The capabilities whose names are reserved (`true`), or are not.
unfoldable pub select : Bool → List Text → List CapabilityDescriptor → List CapabilityDescriptor
select wanted reserved [] = []
select wanted reserved (cap ∷ caps) =
    let rest = select wanted reserved caps in
    if (contains reserved cap.name && wanted) || not (contains reserved cap.name || wanted)
    then cap ∷ rest
    else rest

abbrev pub refusal : CapabilityDescriptor → RejectedCapability
refusal cap = record { name = cap.name; reason = codes "reserved" }
