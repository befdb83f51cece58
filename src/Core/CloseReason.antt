-- ===== src/Core/CloseReason.antt =====
-- The reason of a close frame, cut to what RFC 6455 allows (`truncate_close_reason`).
use zyris_protocol.Prelude.{
  ℕ, zero, suc, ◌≤◌, ◌<◌, ◌≡◌, refl, ◌⊎◌, inl, inr, Bool, true, false, ◌||◌, [], ◌∷◌, arith, ltb,
  leb, if◌then◌else◌, Bool-cases, Text, length, take, if-cases,
}

-- `str::is_char_boundary`.
unfoldable pub is_char_boundary : Text → ℕ → Bool
is_char_boundary message zero = true
is_char_boundary [] (suc i) = false
is_char_boundary (b ∷ []) (suc zero) = true
is_char_boundary (b ∷ c ∷ message) (suc zero) = ltb c 128 || leb 192 c
is_char_boundary (b ∷ message) (suc (suc i)) = is_char_boundary message (suc i)

-- The loop: the nearest boundary at or before `end`.
unfoldable pub back_up : Text → ℕ → ℕ
unfolding is_char_boundary
back_up message zero = zero
back_up message (suc i) =
    let rest = back_up message i in if is_char_boundary message (suc i) then suc i else rest

abbrev pub max_bytes : ℕ
max_bytes = 123

unfoldable pub truncate_close_reason : Text → Text
unfolding back_up
truncate_close_reason message =
    if leb (length message) max_bytes then message else take (back_up message max_bytes) message

-- The cut is at a boundary, at most at `limit`, and at none before another boundary up to there.
pub record IsCut (message : Text) (limit cut : ℕ) : Type 0 where
  pub within : cut ≤ limit
  pub at_boundary : is_char_boundary message cut ≡ true
  pub latest : (i : ℕ) → cut < i → i ≤ limit → is_char_boundary message i ≡ false

back_up-IsCut : (message : Text) (limit : ℕ) → IsCut message limit (back_up message limit)
unfolding back_up is_char_boundary
back_up-IsCut message zero = record {
  within = omega arith;
  at_boundary = refl;
  latest = λ i h l. absurd (omega arith);
}
back_up-IsCut message (suc limit) =
    let rest = back_up-IsCut message limit in
    if-cases (λ cut. IsCut message (suc limit) cut) (is_char_boundary message (suc limit))
      (λ hit. record {
        within = omega arith;
        at_boundary = hit;
        latest = λ i h l. absurd (omega arith);
      })
      (λ miss. record {
        within = omega (arith, rest.within);
        at_boundary = rest.at_boundary;
        latest = λ i h l. ground (arith, rest.latest i h, miss);
      })

-- A reason over 123 bytes is cut at the last character boundary at or before its 123rd byte, and a
-- reason of up to 123 bytes is left as it is.
pub truncate_close_reason-IsCut :
    (message : Text)
    → ((length message ≤ 123) × (truncate_close_reason message ≡ message))
      ⊎ ((cut : ℕ) × ((123 < length message)
            × (IsCut message 123 cut × (truncate_close_reason message ≡ take cut message))))
unfolding truncate_close_reason
truncate_close_reason-IsCut message = elim (Bool-cases (leb (length message) 123)) [
  | inl short ↦ inl (ground arith, rw short refl)
  | inr long ↦ inr (back_up message 123, (ground arith, (back_up-IsCut message 123, rw long refl)))
]
