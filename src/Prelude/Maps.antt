-- ===== src/Prelude/Maps.antt =====
-- Maps from numbers: association lists, a key at most once behind `insert` and `remove`.
use Prim.Native.Nat.{ℕ}
use mathlib.Core.Path.{◌≡◌}
use mathlib.Core.List.{List, [], ◌∷◌}
use mathlib.Core.Option.{Option, none, some}
use native.Mathlib.Omega.{arith}
use zyris_protocol.Prelude.Tests.{◌==◌, if◌then◌else◌}

module _ {ℓ} {V : Type ℓ} where
  unfoldable pub lookup : List (ℕ × V) → ℕ → Option V
  lookup [] k = none
  lookup ((j, v) ∷ m) k = if j == k then some v else lookup m k

  unfoldable pub remove : List (ℕ × V) → ℕ → List (ℕ × V)
  remove [] k = []
  remove ((j, v) ∷ m) k = let rest = remove m k in if j == k then rest else (j, v) ∷ rest

  unfoldable pub insert : List (ℕ × V) → ℕ → V → List (ℕ × V)
  insert m k v = (k, v) ∷ remove m k

  pub lookup-remove :
      (m : List (ℕ × V)) (k j : ℕ) → lookup (remove m k) j ≡ (if k == j then none else lookup m j)
  unfolding lookup remove
  lookup-remove [] k j = ground arith
  lookup-remove ((i, v) ∷ m) k j = ground (arith, lookup-remove m k j)

  pub lookup-insert :
      (m : List (ℕ × V)) (k j : ℕ) (v : V)
      → lookup (insert m k v) j ≡ (if k == j then some v else lookup m j)
  unfolding lookup insert
  lookup-insert m k j v = ground (arith, lookup-remove m k j)
