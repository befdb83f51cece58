-- ===== src/Input/Chord/Pressed.antt =====
-- What a chord presses: the modifiers in their order, and the one key.
use zyris_protocol.Prelude.{
  ◌⊎◌, inl, inr, ◌≢◌, codes, text_eq, Option-cases, text_eq_iff, text_eq_refl, if-cases, ℕ, ◌≡◌,
  refl, sym, ap, ◌∙◌, Bool, true, false, Option, none, some, List, [], ◌∷◌, ◌++◌, arith,
  if◌then◌else◌,
}
use zyris_protocol.Transfer.Name.{Chars}
use zyris_protocol.Input.Chord.{
  Key, unicode, strip_plus_plus, all_modifiers, empty_chord, more_than_one, Parsed, accepted,
  rejected, modifier, named, set_key, with_key, read_one, is_blank, trim, split_plus, read_segments,
  pressed, body_of, parse_chord,
}
use mathlib.Core.List.{append-nil, append_assoc}

-- A segment that can be read, by whether it is blank, its modifier and its key.
abbrev Reads : Bool → Bool → Option Key → Parsed Key → Type 0
Reads no_body true m key = no_body ≡ true
Reads no_body false (some m) key = Unit {0}
Reads no_body false none (accepted key) = Unit {0}
Reads no_body false none (rejected e) = ⊥

abbrev add_modifier : Bool → Option Key → List Key → List Key
add_modifier false (some m) ms = m ∷ ms
add_modifier _ _ ms = ms

abbrev add_key : Bool → Option Key → Parsed Key → List Key → List Key
add_key false none (accepted key) keys = key ∷ keys
add_key _ _ _ keys = keys

-- At most one key, the one that is there before included.
abbrev pub choose : Option Key → List Key → Parsed (Option Key)
choose slot [] = accepted slot
choose none (key ∷ []) = accepted (some key)
choose _ _ = rejected more_than_one

abbrev pub with_modifiers : List Key → Parsed (Option Key) → Parsed (List Key × Option Key)
with_modifiers ms (accepted key) = accepted (ms, key)
with_modifiers ms (rejected e) = rejected e

module _ (is_whitespace : ℕ → Bool) where
  unfoldable pub AreRead : Bool → List Chars → Type 0
  AreRead no_body [] = Unit {0}
  AreRead no_body (raw ∷ rest) =
      let segment = trim is_whitespace raw in
      Reads no_body (is_blank segment) (modifier segment) (named segment) × AreRead no_body rest

  unfoldable pub modifiers_of : List Chars → List Key
  modifiers_of [] = []
  modifiers_of (raw ∷ rest) =
      let segment = trim is_whitespace raw in
      add_modifier (is_blank segment) (modifier segment) (modifiers_of rest)

  unfoldable pub keys_of : List Chars → List Key
  keys_of [] = []
  keys_of (raw ∷ rest) =
      let segment = trim is_whitespace raw in
      add_key (is_blank segment) (modifier segment) (named segment) (keys_of rest)

-- The loop over the rest does what is to be shown of it.
abbrev Does :
    (List Key → Option Key → Parsed (List Key × Option Key)) → List Key → List Key → Type 0
Does next ms keys =
    (before : List Key) (slot : Option Key)
    → next before slot ≡ with_modifiers (before ++ ms) (choose slot keys)

read_one-Does :
    (no_body blank : Bool) (m : Option Key) (key : Parsed Key)
    (next : List Key → Option Key → Parsed (List Key × Option Key)) (ms keys : List Key)
    → Reads no_body blank m key
    → Does next ms keys
    → Does
        (λ before slot. read_one no_body blank m key before slot next)
        (add_modifier blank m ms)
        (add_key blank m key keys)
unfolding read_one with_key set_key
read_one-Does true true m key next ms keys r h before slot = h before slot
read_one-Does false true m key next ms keys r h before slot = absurd (ground arith)
read_one-Does no_body false (some m) key next ms keys r h before slot =
    h (before ++ (m ∷ [])) slot
    ∙ ap (λ l. with_modifiers l (choose slot keys)) (append_assoc before (m ∷ []) ms)
read_one-Does no_body false none (rejected e) next ms keys r h before slot = absurd r
read_one-Does no_body false none (accepted k) next ms [] r h before none = h before (some k)
read_one-Does no_body false none (accepted k) next ms (j ∷ keys) r h before none = h before (some k)
read_one-Does no_body false none (accepted k) next ms keys r h before (some b) = refl

read_segments-Does :
    (is_whitespace : ℕ → Bool) (no_body : Bool) (segments : List Chars)
    → AreRead is_whitespace no_body segments
    → Does
        (read_segments is_whitespace no_body segments)
        (modifiers_of is_whitespace segments)
        (keys_of is_whitespace segments)
unfolding read_segments AreRead modifiers_of keys_of
read_segments-Does is_whitespace no_body [] h =
    λ before slot. ap (λ l. accepted (l, slot)) (sym (append-nil before))
read_segments-Does is_whitespace no_body (raw ∷ rest) (r, h) =
    let segment = trim is_whitespace raw in
    read_one-Does no_body (is_blank segment) (modifier segment) (named segment)
      (read_segments is_whitespace no_body rest) (modifiers_of is_whitespace rest)
      (keys_of is_whitespace rest) r (read_segments-Does is_whitespace no_body rest h)

-- What modifiers and keys come to, the literal `+` at the end among the keys.
unfoldable pub expected : List Key → List Key → Parsed (List Key × Key)
expected ms (key ∷ []) = accepted (ms, key)
expected ms (key ∷ other ∷ keys) = rejected more_than_one
expected (m ∷ []) [] = accepted ([], m)
expected ms [] = rejected all_modifiers

-- The text of a chord, as the segments between its `+` and, with `true`, a literal `+` at its end,
-- which is doubled when something stands before it.
unfoldable pub IsEnded : Chars → Chars → Bool → Type 0
IsEnded text body true = ((text ≡ codes "+") × (body ≡ [])) ⊎ (text ≡ body ++ codes "++")
IsEnded text body false =
    (text ≡ body) × (text ≢ codes "+") × ((b : Chars) → text ≢ b ++ codes "++")

abbrev pub ending : Bool → List Key
ending true = unicode b'+' ∷ []
ending false = []

key_at_end : Bool → Option Key
key_at_end true = some (unicode b'+')
key_at_end false = none

longer : (c : ℕ) (b : Chars) → text_eq (c ∷ (b ++ codes "++")) (codes "++") ≡ false
unfolding text_eq
longer c [] = ground arith
longer c (x ∷ []) = ground arith
longer c (x ∷ y ∷ b) = ground arith

no_lone_plus : (b : Chars) → text_eq (b ++ codes "++") (codes "+") ≡ false
unfolding text_eq
no_lone_plus [] = ground arith
no_lone_plus (x ∷ []) = ground arith
no_lone_plus (x ∷ y ∷ b) = ground arith

strip_plus_plus-append : (b : Chars) → strip_plus_plus (b ++ codes "++") ≡ some b
unfolding strip_plus_plus
strip_plus_plus-append [] = ground (arith, text_eq_refl (codes "++"))
strip_plus_plus-append (c ∷ b) = ground (arith, longer c b, strip_plus_plus-append b)

strip_plus_plus-some : (t b : Chars) → strip_plus_plus t ≡ some b → t ≡ b ++ codes "++"
unfolding strip_plus_plus
strip_plus_plus-some [] b h = absurd (ground arith)
strip_plus_plus-some (c ∷ cs) b h =
    if-cases (λ o. o ≡ some b → c ∷ cs ≡ b ++ codes "++") (text_eq (c ∷ cs) (codes "++"))
      (λ here e. ground (arith, text_eq_iff (c ∷ cs) (codes "++")))
      (λ other e. elim (Option-cases (strip_plus_plus cs)) [
        | inl gone ↦ absurd (ground arith)
        | inr (r, found) ↦ ground (arith, strip_plus_plus-some cs r found)
      ])
      h

body_of-IsEnded :
    (text body : Chars) (plus : Bool)
    → IsEnded text body plus
    → body_of text ≡ (body, key_at_end plus)
unfolding IsEnded body_of key_at_end
body_of-IsEnded text body true (inl (t, b)) = ground (arith, text_eq_refl (codes "+"))
body_of-IsEnded text body true (inr t) =
    ground (arith, no_lone_plus body, strip_plus_plus-append body)
body_of-IsEnded text body false (t, n, k) =
    ground (arith, text_eq_iff text (codes "+"), none_at_end)
  where
    none_at_end : strip_plus_plus text ≡ none
    none_at_end = elim (Option-cases (strip_plus_plus text)) [
      | inl h ↦ h
      | inr (b, h) ↦ absurd (k b (strip_plus_plus-some text b h))
    ]

pressed_lem :
    (ms keys : List Key) (plus : Bool)
    → pressed (with_modifiers ms (choose (key_at_end plus) keys))
      ≡ expected ms (ending plus ++ keys)
unfolding pressed expected key_at_end
pressed_lem ms [] true = refl
pressed_lem ms (k ∷ keys) true = refl
pressed_lem [] [] false = refl
pressed_lem (m ∷ []) [] false = refl
pressed_lem (m ∷ n ∷ ms) [] false = refl
pressed_lem ms (k ∷ []) false = refl
pressed_lem ms (k ∷ j ∷ keys) false = refl

-- A chord that is not blank and whose segments all name a modifier or a key is read as its
-- modifiers, in their order, and its one key, a `+` at its end included; more than one key is an
-- error, and with no key a lone modifier is the key, while several are an error.
pub parse_chord-expected :
    (is_whitespace : ℕ → Bool) (chord body : Chars) (plus : Bool)
    → trim is_whitespace chord ≢ []
    → IsEnded (trim is_whitespace chord) body plus
    → AreRead is_whitespace (is_blank body) (split_plus body)
    → parse_chord is_whitespace chord
      ≡ expected
          (modifiers_of is_whitespace (split_plus body))
          (ending plus ++ keys_of is_whitespace (split_plus body))
unfolding parse_chord
parse_chord-expected is_whitespace chord body plus full e readable =
    ap
      (λ b.
        if b
        then rejected empty_chord
        else let (body, key) = body_of (trim is_whitespace chord) in
          pressed (read_segments is_whitespace (is_blank body) (split_plus body) [] key))
      (not_blank (trim is_whitespace chord) full)
    ∙ ap
        (λ (r : Chars × Option Key).
          pressed (read_segments is_whitespace (is_blank r.0) (split_plus r.0) [] r.1))
        (body_of-IsEnded (trim is_whitespace chord) body plus e)
    ∙ ap pressed (
        read_segments-Does is_whitespace (is_blank body) (split_plus body) readable []
          (key_at_end plus))
    ∙ pressed_lem (modifiers_of is_whitespace (split_plus body))
        (keys_of is_whitespace (split_plus body)) plus
  where
    not_blank : (t : Chars) → t ≢ [] → is_blank t ≡ false
    not_blank [] h = absurd (h refl)
    not_blank (c ∷ t) h = refl
