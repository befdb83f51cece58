-- ===== src/Core/Capabilities/Victims.antt =====
-- The victims of a revocation among the calls in flight, which are a map.
use zyris_protocol.Prelude.{
  ℕ, ◌≡◌, refl, sym, subst, inl, inr, false, Option, none, some, List, [], ◌∷◌, arith, ◌==◌, ==_iff,
  ==_refl, Bool-cases, Text, if-elim, lookup, remove, lookup-remove,
}
use zyris_protocol.Core.State.{InflightCall}
use zyris_protocol.Core.Requests.{is_victim, victims, remove_all}
use zyris_protocol.Core.Capabilities.Revoked.{has_id}

-- Every key stands once, as in a HashMap.
unfoldable pub IsMap : List (ℕ × InflightCall) → Type 0
IsMap [] = Unit {0}
IsMap ((id, entry) ∷ m) = (lookup m id ≡ none) × IsMap m

IsMap-remove : (m : List (ℕ × InflightCall)) (j : ℕ) → IsMap m → IsMap (remove m j)
unfolding IsMap remove
IsMap-remove [] j h = tt
IsMap-remove ((id, entry) ∷ m) j (fresh, h) =
    if-elim IsMap (id == j) (IsMap-remove m j h)
      (ground (arith, lookup-remove m j id), IsMap-remove m j h)

pub IsMap-remove_all : (chosen m : List (ℕ × InflightCall)) → IsMap m → IsMap (remove_all m chosen)
unfolding remove_all
IsMap-remove_all [] m h = h
IsMap-remove_all ((j, x) ∷ chosen) m h = IsMap-remove_all chosen (remove m j) (IsMap-remove m j h)

pub lookup-remove_all :
    (chosen m : List (ℕ × InflightCall)) (id : ℕ)
    → has_id id chosen ≡ false
    → lookup (remove_all m chosen) id ≡ lookup m id
unfolding remove_all has_id
lookup-remove_all [] m id h = refl
lookup-remove_all ((j, x) ∷ chosen) m id h =
    ground (arith, lookup-remove_all chosen (remove m j) id, lookup-remove m j id)

module _ (name : Text) (caller : Option ℕ) where
  has_id-victims-none :
      (m : List (ℕ × InflightCall)) (id : ℕ)
      → lookup m id ≡ none
      → has_id id (victims name caller m) ≡ false
  unfolding victims has_id lookup
  has_id-victims-none [] id h = refl
  has_id-victims-none ((j, x) ∷ m) id h = ground (arith, has_id-victims-none m id)

  pub has_id-victims :
      (m : List (ℕ × InflightCall)) (id : ℕ) (entry : InflightCall)
      → IsMap m
      → lookup m id ≡ some entry
      → is_victim name caller entry ≡ false
      → has_id id (victims name caller m) ≡ false
  unfolding victims has_id lookup IsMap
  has_id-victims [] id entry u h v = refl
  has_id-victims ((j, x) ∷ m) id entry (fresh, u) h v = elim (Bool-cases (j == id)) [
    | inl same ↦ here (ground (arith, same))
    | inr other ↦
        if-elim (λ chosen. has_id id chosen ≡ false) (is_victim name caller x)
          (ground (arith, other, has_id-victims m id entry u (ground (arith, other)) v))
          (has_id-victims m id entry u (ground (arith, other)) v)
  ]
    where
      here : j ≡ id → has_id id (victims name caller ((j, x) ∷ m)) ≡ false
      here same =
          let at_head : x ≡ entry = ground (arith, same, ==_refl j, ==_iff j id) in
          let spared : is_victim name caller x ≡ false =
            subst (λ e. is_victim name caller e ≡ false) (sym at_head) v in
          rw spared (has_id-victims-none m id (subst (λ i. lookup m i ≡ none) same fresh))
