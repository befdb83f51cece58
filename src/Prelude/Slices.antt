-- ===== src/Prelude/Slices.antt =====
-- Prefixes and suffixes of lists.
use Prim.Native.Nat.{ℕ, zero, suc, ◌+◌, ◌-◌, ◌≤◌, min}
use mathlib.Core.List.{List, [], ◌∷◌, ◌++◌}
use mathlib.Core.Path.{◌≡◌, refl, sym, ap, ◌∙◌}
use native.Mathlib.Omega.{arith}
use zyris_protocol.Prelude.Lists.{length, take, drop}

module _ {ℓ} {A : Type ℓ} where
  pub drop_all : (n : ℕ) (xs : List A) → length xs ≤ n → drop n xs ≡ []
  drop_all zero [] h = refl
  drop_all zero (x ∷ xs) h = absurd (omega arith)
  drop_all (suc n) [] h = refl
  drop_all (suc n) (x ∷ xs) h = drop_all n xs (omega arith)

  pub take_all : (n : ℕ) (xs : List A) → length xs ≤ n → take n xs ≡ xs
  take_all zero [] h = refl
  take_all zero (x ∷ xs) h = absurd (omega arith)
  take_all (suc n) [] h = refl
  take_all (suc n) (x ∷ xs) h = ap (λ t. x ∷ t) (take_all n xs (omega arith))

  -- Two drops that stop at the same place.
  pub drop_same :
      (n m : ℕ) (xs : List A) → min n (length xs) ≡ min m (length xs) → drop n xs ≡ drop m xs
  drop_same n m [] h = drop_all n [] (omega arith) ∙ sym (drop_all m [] (omega arith))
  drop_same zero zero (x ∷ xs) h = refl
  drop_same zero (suc m) (x ∷ xs) h = absurd (omega arith)
  drop_same (suc n) zero (x ∷ xs) h = absurd (omega arith)
  drop_same (suc n) (suc m) (x ∷ xs) h = drop_same n m xs (omega arith)

  pub drop_cong : {n m : ℕ} (xs : List A) → n ≡ m → drop n xs ≡ drop m xs
  drop_cong xs h = ap (λ k. drop k xs) h

  pub take_cong : {n m : ℕ} (xs : List A) → n ≡ m → take n xs ≡ take m xs
  take_cong xs h = ap (λ k. take k xs) h

  -- A take beyond the end.
  pub take-min : (n : ℕ) (xs : List A) → take (min (length xs) n) xs ≡ take n xs
  take-min n [] = take_all (min 0 n) [] (omega arith) ∙ sym (take_all n [] (omega arith))
  take-min zero (x ∷ xs) = take_cong {m = 0} (x ∷ xs) (omega arith)
  take-min (suc n) (x ∷ xs) =
      take_cong {m = suc (min (length xs) n)} (x ∷ xs) (omega arith)
      ∙ ap (λ t. x ∷ t) (take-min n xs)

module _ {ℓ} {A : Type ℓ} where
  pub drop-append :
      (n : ℕ) (xs ys : List A) → drop n (xs ++ ys) ≡ drop n xs ++ drop (n - length xs) ys
  drop-append zero xs ys = ap (λ t. xs ++ t) (drop_cong {n = 0} ys (omega arith))
  drop-append (suc n) [] ys = drop_cong {n = suc n} ys (omega arith)
  drop-append (suc n) (x ∷ xs) ys =
      drop-append n xs ys ∙ ap (λ t. drop n xs ++ t) (drop_cong ys (omega arith))

  pub take-append :
      (n : ℕ) (xs ys : List A) → take n (xs ++ ys) ≡ take n xs ++ take (n - length xs) ys
  take-append zero xs ys = take_cong {n = 0} ys (omega arith)
  take-append (suc n) [] ys = take_cong {n = suc n} ys (omega arith)
  take-append (suc n) (x ∷ xs) ys =
      ap (λ t. x ∷ t) (take-append n xs ys ∙ ap (λ t. take n xs ++ t) (take_cong ys (omega arith)))

  pub drop-drop : (m n : ℕ) (xs : List A) → drop m (drop n xs) ≡ drop (n + m) xs
  drop-drop m zero xs = drop_cong xs (omega arith)
  drop-drop m (suc n) [] = drop_all m [] (omega arith) ∙ sym (drop_all (suc n + m) [] (omega arith))
  drop-drop m (suc n) (x ∷ xs) =
      drop-drop m n xs ∙ drop_cong {n = suc (n + m)} (x ∷ xs) (omega arith)
