-- ===== src/Core/Capabilities/Told.antt =====
-- What a replacement does on every connection that is open.
use zyris_protocol.Prelude.{ℕ, ◌≡◌, Bool, true, false, Option, none, some, List, [], ◌∷◌, Text}
use zyris_protocol.Prelude.Named.{lookup_name}
use zyris_protocol.Core.Capabilities.{Live, CapabilitySet, has_name, names}
use zyris_protocol.Core.Capabilities.Revoked.{AreSpared}

has : List (Text × ℕ) → Text → Bool
has m name = elim (lookup_name m name) [ none ↦ false | some _ ↦ true ]

abbrev IsTold : CapabilitySet → CapabilitySet → Live → Type 0
IsTold before after l =
    (l.shared.caps ≡ names after.served.by_name)
    × (l.shared.closed ≡ none
        → (name : Text) → has_name before name ≡ true
        → has_name after name ≡ false
        → AreSpared name l.caller l.shared.inflight)

unfoldable AllLive : (Live → Type 0) → List Live → Type 0
AllLive P [] = Unit {0}
AllLive P (l ∷ ls) = P l × AllLive P ls

abbrev OnSome : (Live → Type 0) → Option Live → Type 0
OnSome P none = Unit {0}
OnSome P (some l) = P l
