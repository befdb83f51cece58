-- ===== src/Prelude/Named.antt =====
-- Maps from texts: association lists, a name at most once behind `insert_name`.
use mathlib.Core.List.{List, [], ◌∷◌}
use mathlib.Core.Option.{Option, none, some}
use mathlib.Core.Path.{◌≡◌}
use native.Mathlib.Omega.{arith}
use zyris_protocol.Prelude.Tests.{Text, text_eq, text_eq_iff, if◌then◌else◌}

module _ {ℓ} {V : Type ℓ} where
  unfoldable pub lookup_name : List (Text × V) → Text → Option V
  lookup_name [] k = none
  lookup_name ((j, v) ∷ m) k = if text_eq j k then some v else lookup_name m k

  unfoldable pub remove_name : List (Text × V) → Text → List (Text × V)
  remove_name [] k = []
  remove_name ((j, v) ∷ m) k =
      let rest = remove_name m k in if text_eq j k then rest else (j, v) ∷ rest

  unfoldable pub insert_name : List (Text × V) → Text → V → List (Text × V)
  insert_name m k v = (k, v) ∷ remove_name m k

  pub lookup_name-remove_name :
      (m : List (Text × V)) (k j : Text)
      → lookup_name (remove_name m k) j ≡ (if text_eq k j then none else lookup_name m j)
  unfolding lookup_name remove_name
  lookup_name-remove_name [] k j = ground arith
  lookup_name-remove_name ((i, v) ∷ m) k j =
      ground
        (arith, lookup_name-remove_name m k j, text_eq_iff i k, text_eq_iff i j, text_eq_iff k j)

  pub lookup_name-insert_name :
      (m : List (Text × V)) (k j : Text) (v : V)
      → lookup_name (insert_name m k v) j ≡ (if text_eq k j then some v else lookup_name m j)
  unfolding lookup_name insert_name
  lookup_name-insert_name m k j v = ground (arith, lookup_name-remove_name m k j)
