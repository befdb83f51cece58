-- ===== src/Transfer/Name/Chars.antt =====
-- The parts of `safe_name` keep what holds of each character, and lengthen nothing.
use zyris_protocol.Prelude.{
  ℕ, ◌+◌, ◌-◌, ◌≤◌, ◌≡◌, refl, ap, Bool, true, false, not, ◌&&◌, Option, none, some, [], ◌∷◌, ◌++◌,
  arith, if◌then◌else◌, if-cases,
}
use zyris_protocol.Transfer.Name.{
  Chars, len_utf8, size, is_separator, last_chunk, stays, filter, trim_start, trim_end, behind_last,
  fill, or_nothing,
}

unfoldable pub all : (ℕ → Bool) → Chars → Bool
all p [] = true
all p (c ∷ cs) = p c && all p cs

abbrev pub is_plain : ℕ → Bool
is_plain c = stays c && not (is_separator c)

module _ (p : ℕ → Bool) where
  pub all-append : (cs ds : Chars) → all p cs ≡ true → all p ds ≡ true → all p (cs ++ ds) ≡ true
  unfolding all
  all-append [] ds h k = k
  all-append (c ∷ cs) ds h k = ground (arith, all-append cs ds)

  pub all-trim_start :
      (q : ℕ → Bool) (cs : Chars) → all p cs ≡ true → all p (trim_start q cs) ≡ true
  unfolding all trim_start
  all-trim_start q [] h = refl
  all-trim_start q (c ∷ cs) h = ground (arith, all-trim_start q cs)

  all-or_nothing :
      (c : ℕ) (b : Bool) (cs : Chars) → all p (c ∷ cs) ≡ true → all p (or_nothing c b cs) ≡ true
  unfolding all
  all-or_nothing c true [] h = refl
  all-or_nothing c false [] h = h
  all-or_nothing c b (d ∷ cs) h = h

  pub all-trim_end : (q : ℕ → Bool) (cs : Chars) → all p cs ≡ true → all p (trim_end q cs) ≡ true
  unfolding all trim_end
  all-trim_end q [] h = refl
  all-trim_end q (c ∷ cs) h =
      all-or_nothing c (q c) (trim_end q cs) (ground (arith, all-trim_end q cs))

  pub all-filter : (q : ℕ → Bool) (cs : Chars) → all p cs ≡ true → all p (filter q cs) ≡ true
  unfolding all filter
  all-filter q [] h = refl
  all-filter q (c ∷ cs) h = ground (arith, all-filter q cs)

  pub all-fill : (left : ℕ) (cs : Chars) → all p cs ≡ true → all p (fill left cs) ≡ true
  unfolding all fill
  all-fill left [] h = refl
  all-fill left (c ∷ cs) h = ground (arith, all-fill (left - len_utf8 c) cs)

abbrev pub no_separator : ℕ → Bool
no_separator c = not (is_separator c)

-- Behind the last separator there is none, and where there is no last one there is none at all.
Clear : Chars → Option Chars → Type 0
Clear cs none = all no_separator cs ≡ true
Clear cs (some behind) = all no_separator behind ≡ true

longer-Clear :
    (c : ℕ) (cs : Chars) (o : Option Chars)
    → Clear cs o
    → Clear
        (c ∷ cs)
        (elim o [ some behind ↦ some behind | none ↦ if is_separator c then some cs else none ])
unfolding Clear all
longer-Clear c cs (some behind) h = h
longer-Clear c cs none h = if-cases (Clear (c ∷ cs)) (is_separator c) (λ s. h) (λ s. ground arith)

behind_last-Clear : (cs : Chars) → Clear cs (behind_last is_separator cs)
unfolding Clear behind_last all
behind_last-Clear [] = refl
behind_last-Clear (c ∷ cs) = longer-Clear c cs (behind_last is_separator cs) (behind_last-Clear cs)

chosen-Clear :
    (cs : Chars) (o : Option Chars)
    → Clear cs o
    → all no_separator (elim o [ none ↦ cs | some behind ↦ behind ]) ≡ true
unfolding Clear
chosen-Clear cs none h = h
chosen-Clear cs (some behind) h = h

pub all-last_chunk : (cs : Chars) → all no_separator (last_chunk cs) ≡ true
unfolding last_chunk
all-last_chunk cs = chosen-Clear cs (behind_last is_separator cs) (behind_last-Clear cs)

pub all-filter_self : (p : ℕ → Bool) (cs : Chars) → all p (filter p cs) ≡ true
unfolding all filter
all-filter_self p [] = refl
all-filter_self p (c ∷ cs) = ground (arith, all-filter_self p cs)

pub all_both :
    (p q : ℕ → Bool) (cs : Chars)
    → all p cs ≡ true
    → all q cs ≡ true
    → all (λ c. p c && q c) cs ≡ true
unfolding all
all_both p q [] h k = refl
all_both p q (c ∷ cs) h k = ground (arith, all_both p q cs)

pub size-append : (cs ds : Chars) → size (cs ++ ds) ≡ size cs + size ds
unfolding size
size-append [] ds = omega arith
size-append (c ∷ cs) ds = omega (arith, size-append cs ds)

size-or_nothing : (c : ℕ) (b : Bool) (cs : Chars) → size (or_nothing c b cs) ≤ size (c ∷ cs)
unfolding size
size-or_nothing c true [] = omega arith
size-or_nothing c false [] = omega arith
size-or_nothing c b (d ∷ cs) = omega arith

pub size-trim_end : (q : ℕ → Bool) (cs : Chars) → size (trim_end q cs) ≤ size cs
unfolding size trim_end
size-trim_end q [] = omega arith
size-trim_end q (c ∷ cs) =
    omega (arith, size-or_nothing c (q c) (trim_end q cs), size-trim_end q cs)

pub size-fill : (left : ℕ) (cs : Chars) → size (fill left cs) ≤ left
unfolding size fill
size-fill left [] = omega arith
size-fill left (c ∷ cs) = ground (arith, size-fill (left - len_utf8 c) cs)

-- What is trimmed once is trimmed.
trim_end-or_nothing :
    (q : ℕ → Bool) (c : ℕ) (cs : Chars)
    → trim_end q cs ≡ cs
    → trim_end q (or_nothing c (q c) cs) ≡ or_nothing c (q c) cs
unfolding trim_end
trim_end-or_nothing q c [] h =
    if-cases (λ r. trim_end q r ≡ r) (q c) (λ drops. refl)
      (λ keeps. ap (λ b. if b then [] else c ∷ []) keeps)
trim_end-or_nothing q c (d ∷ cs) h = ap (or_nothing c (q c)) h

pub trim_end-trim_end : (q : ℕ → Bool) (cs : Chars) → trim_end q (trim_end q cs) ≡ trim_end q cs
unfolding trim_end
trim_end-trim_end q [] = refl
trim_end-trim_end q (c ∷ cs) = trim_end-or_nothing q c (trim_end q cs) (trim_end-trim_end q cs)
