-- ===== src/Proto/Capability/Names.antt =====
-- `method_name` and `split_method` are inverse to each other.
use zyris_protocol.Prelude.{ℕ, Text, Option, none, some, [], ◌∷◌, ◌++◌, ◌≡◌, ◌≢◌, arith}
use zyris_protocol.Proto.Capability.{method_name, split_once, split_method}

-- A byte does not occur in a text.
abbrev pub Lacks : ℕ → Text → Type 0
Lacks b [] = Unit {0}
Lacks b (c ∷ cs) = (c ≢ b) × Lacks b cs

pub split_once-append :
    (sep : ℕ) (before after : Text)
    → Lacks sep before
    → split_once sep (before ++ (sep ∷ after)) ≡ some (before, after)
unfolding split_once
split_once-append sep [] after h = ground arith
split_once-append sep (c ∷ cs) after h = ground (arith, split_once-append sep cs after h.1)

-- What `split_once` returns: the text around its first separator.
abbrev pub SplitsAt : ℕ → Text → Option (Text × Text) → Type 0
SplitsAt sep t none = Lacks sep t
SplitsAt sep t (some (before, after)) = (t ≡ before ++ (sep ∷ after)) × Lacks sep before

pub split_once-SplitsAt : (sep : ℕ) (t : Text) → SplitsAt sep t (split_once sep t)
unfolding split_once
split_once-SplitsAt sep [] = tt
split_once-SplitsAt sep (c ∷ cs) = ground (arith, split_once-SplitsAt sep cs)

-- A method name is taken apart into the capability and the tool that it was made of, whatever dots
-- the tool's name holds, if the capability's name holds none.
pub split_method-method_name :
    (capability tool : Text)
    → Lacks b'.' capability
    → split_method (method_name capability tool) ≡ some (capability, tool)
unfolding split_method method_name
split_method-method_name capability tool h = split_once-append b'.' capability tool h

-- Putting the parts together again gives the method back, and the capability's part holds no dot.
pub method_name-split_method :
    (method : Text) {capability tool : Text}
    → split_method method ≡ some (capability, tool)
    → (method_name capability tool ≡ method) × Lacks b'.' capability
unfolding split_method method_name
method_name-split_method method e = ground (arith, split_once-SplitsAt b'.' method)
