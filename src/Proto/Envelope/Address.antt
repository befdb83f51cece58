-- ===== src/Proto/Envelope/Address.antt =====
-- `NodeAddress::path` and `NodeAddress::parse` are inverse to each other.
use zyris_protocol.Prelude.{
  ℕ, ◌≡◌, refl, ◌∙◌, ◌≢◌, some, List, [], ◌∷◌, ◌++◌, arith, ◌==◌, if◌then◌else◌, Text,
}
use zyris_protocol.Proto.Capability.Names.{Lacks}
use zyris_protocol.Proto.Envelope.{NodeAddress, path, split, parse, from_segments, is_empty}

-- A segment that an acceptor may assign: not empty, with no slash in it.
abbrev pub IsSegment : Text → Type 0
IsSegment s = (s ≢ []) × Lacks b'/' s

split_last : (sep : ℕ) (s : Text) → Lacks sep s → split sep s ≡ s ∷ []
unfolding split
split_last sep [] h = refl
split_last sep (c ∷ cs) h = ground (arith, split_last sep cs h.1)

split-append :
    (sep : ℕ) (s rest : Text) → Lacks sep s → split sep (s ++ (sep ∷ rest)) ≡ s ∷ split sep rest
unfolding split
split-append sep [] rest h = ground arith
split-append sep (c ∷ cs) rest h = ground (arith, split-append sep cs rest h.1)

-- `parse` reads back the path of every address whose three segments are not empty and hold no
-- slash.
pub parse-path :
    (a : NodeAddress)
    → IsSegment a.system
    → IsSegment a.program
    → IsSegment a.name
    → parse (path a) ≡ some a
unfolding parse path
parse-path a s p n = ground (
  arith,
  split-append b'/' a.system (a.program ++ (b'/' ∷ a.name)) s.1,
  split-append b'/' a.program a.name p.1,
  split_last b'/' a.name n.1,
)

-- The segments, joined again.
abbrev joined : ℕ → List Text → Text
joined sep [] = []
joined sep (s ∷ []) = s
joined sep (s ∷ t ∷ ss) = s ++ (sep ∷ joined sep (t ∷ ss))

abbrev AllLack : ℕ → List Text → Type 0
AllLack sep [] = Unit {0}
AllLack sep (s ∷ ss) = Lacks sep s × AllLack sep ss

-- `split` cuts a text at every separator, and nowhere else.
record Splits (sep : ℕ) (t : Text) (ss : List Text) : Type 0 where
  not_nil : ss ≢ []
  joins : joined sep ss ≡ t
  lack : AllLack sep ss

split-Splits : (sep : ℕ) (t : Text) → Splits sep t (split sep t)
unfolding split
split-Splits sep [] = record { not_nil = λ e. cc; joins = refl; lack = (tt, tt) }
split-Splits sep (c ∷ cs) = go (split sep cs) (split-Splits sep cs)
  where
    go :
        (ss : List Text)
        → Splits sep cs ss
        → Splits sep (c ∷ cs) (
            if c == sep
            then [] ∷ ss
            else elim ss [ [] ↦ (c ∷ []) ∷ [] | s ∷ more ↦ (c ∷ s) ∷ more ])
    go [] v = absurd (v.not_nil refl)
    go (s ∷ []) v = record {
      not_nil = λ e. ground arith;
      joins = ground (arith, v.joins);
      lack = ground (arith, v.lack);
    }
    go (s ∷ s' ∷ more) v = record {
      not_nil = λ e. ground arith;
      joins = ground (arith, v.joins);
      lack = ground (arith, v.lack);
    }

from_segments-path :
    (ss : List Text) {a : NodeAddress}
    → AllLack b'/' ss
    → from_segments ss ≡ some a
    → (path a ≡ joined b'/' ss) × IsSegment a.system × IsSegment a.program × IsSegment a.name
unfolding from_segments path is_empty
from_segments-path ((b ∷ s) ∷ (c ∷ p) ∷ (d ∷ n) ∷ []) l e = ground arith
from_segments-path _ l e = ground arith

-- `parse` accepts only the paths of such addresses.
pub path-parse :
    (t : Text) {a : NodeAddress}
    → parse t ≡ some a
    → (path a ≡ t) × IsSegment a.system × IsSegment a.program × IsSegment a.name
unfolding parse
path-parse t {a} e =
    let v = split-Splits b'/' t in
    let h = from_segments-path (split b'/' t) v.lack e in (h.0 ∙ v.joins, h.1, h.2, h.3)
