-- ===== src/Transfer/Part/Apart.antt =====
-- crates/zyris-capkit/src/transfer/peer.rs: what the name of a partial file is apart from.
use zyris_protocol.Prelude.{
  ℕ, zero, suc, ◌+◌, ◌-◌, ◌/◌, ◌%◌, ◌≤◌, ◌<◌, ◌≡◌, refl, sym, ap, ◌∙◌, subst, ◌≢◌, [], ◌∷◌, ◌++◌,
  arith, Bytes, Text, codes, text_eq, text_eq_iff, length, length-append, take, drop, length-take,
  if-elim, if-cases,
}
use zyris_protocol.Proto.Attach.{hex_digit, hex, digest}
use zyris_protocol.Transfer.Name.{Chars, max_bytes, len_utf8, size}
use zyris_protocol.Transfer.Part.{FilePath, part_tail, fill_stem, pop, part_name, part_path}

size-append : (xs ys : Chars) → size (xs ++ ys) ≡ size xs + size ys
unfolding size
size-append [] ys = omega arith
size-append (x ∷ xs) ys = omega (arith, size-append xs ys)

size-fill_stem :
    (room len : ℕ) (cs : Chars) → len ≤ room → len + size (fill_stem room len cs) ≤ room
unfolding fill_stem size
size-fill_stem room len [] h = omega arith
size-fill_stem room len (c ∷ cs) h = ground (arith, size-fill_stem room (len + len_utf8 c) cs)

size-pop : (cs : Chars) → size (pop cs) ≤ size cs
unfolding pop size
size-pop [] = omega arith
size-pop (c ∷ []) = omega arith
size-pop (c ∷ d ∷ cs) = omega (arith, size-pop (d ∷ cs))

length-pop : (c : ℕ) (cs : Chars) → length (pop (c ∷ cs)) ≡ length cs
unfolding pop
length-pop c [] = refl
length-pop c (d ∷ cs) = omega (arith, length-pop d cs)

append_same_end : (xs ys s t : Chars) → length s ≡ length t → xs ++ s ≡ ys ++ t → s ≡ t
append_same_end [] [] s t l e = e
append_same_end [] (y ∷ ys) s t l e = absurd (omega (arith, length-append (y ∷ ys) t, ap length e))
append_same_end (x ∷ xs) [] s t l e = absurd (omega (arith, length-append (x ∷ xs) s, ap length e))
append_same_end (x ∷ xs) (y ∷ ys) s t l e = append_same_end xs ys s t l (cc)

append_same_start : (xs ys s : Chars) → length xs ≡ length ys → xs ++ s ≡ ys ++ s → xs ≡ ys
append_same_start [] [] s l e = refl
append_same_start (x ∷ xs) (y ∷ ys) s l e =
    ground (arith, append_same_start xs ys s (omega (arith, l)))
append_same_start [] (y ∷ ys) s l e = absurd (omega (arith, l))
append_same_start (x ∷ xs) [] s l e = absurd (omega (arith, l))

-- The stem of a name that begins with the tail itself is not empty.
fill_stem-ne-nil :
    (t : ℕ) (tail : Chars)
    → len_utf8 t ≤ max_bytes - size (t ∷ tail)
    → fill_stem (max_bytes - size (t ∷ tail)) 0 (t ∷ tail) ≢ []
unfolding fill_stem
fill_stem-ne-nil t tail h = ground arith

abbrev pub Bounded : Bytes → Type 0
Bounded [] = Unit {0}
Bounded (b ∷ bs) = (b < 256) × Bounded bs

-- What SHA-256 gives: 32 bytes.
pub record IsSha (out : Bytes) : Type 0 where
  pub long : length out ≡ 32
  pub bounded : Bounded out

length-hex : (bs : Bytes) → length (hex bs) ≡ length bs + length bs
unfolding hex
length-hex [] = omega arith
length-hex (b ∷ bs) = omega (arith, length-hex bs)

size-hex_digit : (n : ℕ) → n < 16 → len_utf8 (hex_digit n) ≡ 1
unfolding len_utf8 hex_digit
size-hex_digit n h = ground arith

size-take-hex : (n : ℕ) (bs : Bytes) → Bounded bs → size (take n (hex bs)) ≤ n
unfolding size hex
size-take-hex zero bs h = omega arith
size-take-hex (suc n) [] h = omega arith
size-take-hex (suc zero) (b ∷ bs) h = ground (arith, size-hex_digit (b / 16))
size-take-hex (suc (suc n)) (b ∷ bs) h =
    ground (arith, size-hex_digit (b / 16), size-hex_digit (b % 16), size-take-hex n bs)

size-part_tail :
    (hash : Bytes → Bytes) (id : Text) → IsSha (hash id) → size (part_tail hash id) ≤ 22
unfolding part_tail size len_utf8 digest
size-part_tail hash id s =
    ground
      (arith, size-append (take 16 (hex (hash id))) (codes ".part"), size-take-hex 16 (hash id))

length-part_tail :
    (hash : Bytes → Bytes) (id : Text) → IsSha (hash id) → length (part_tail hash id) ≡ 22
unfolding part_tail digest
length-part_tail hash id s = omega (
  arith,
  length-append (take 16 (hex (hash id))) (codes ".part"),
  length-take 16 (hex (hash id)),
  length-hex (hash id),
  s.long,
)

-- One character less makes another name.
pop-ne : (stem tail name : Chars) → stem ≢ [] → stem ++ tail ≡ name → pop stem ++ tail ≢ name
pop-ne [] tail name h e q = h refl
pop-ne (c ∷ stem) tail name h e q = omega (
  arith,
  length-pop c stem,
  length-append (pop (c ∷ stem)) tail,
  length-append (c ∷ stem) tail,
  ap length q,
  ap length e,
)

module _ (t : ℕ) (rest name : Chars) (one : len_utf8 t ≡ 1) (short : size (t ∷ rest) ≤ 22) where
  stem : Chars
  stem = fill_stem (max_bytes - size (t ∷ rest)) 0 name

  stem-ne-nil : stem ++ t ∷ rest ≡ name → stem ≢ []
  unfolding stem
  stem-ne-nil e q = fill_stem-ne-nil t rest (omega (arith, one, short)) (
      subst (λ n. fill_stem (max_bytes - size (t ∷ rest)) 0 n ≡ [])
        (sym e ∙ ap (λ s. s ++ t ∷ rest) q) q)

  part_name_bounds :
      (size (part_name (t ∷ rest) name) ≤ max_bytes) × (part_name (t ∷ rest) name ≢ name)
  unfolding part_name stem
  part_name_bounds =
      if-cases (λ n. (size n ≤ max_bytes) × (n ≢ name)) (text_eq (stem ++ t ∷ rest) name)
        (λ same. (
          omega (
            arith,
            size-append (pop stem) (t ∷ rest),
            size-pop stem,
            size-fill_stem (max_bytes - size (t ∷ rest)) 0 name,
          ),
          pop-ne stem (t ∷ rest) name (stem-ne-nil ((text_eq_iff _ _).0 same))
              ((text_eq_iff _ _).0 same),
        ))
        (λ other. (
          omega (
            arith,
            size-append stem (t ∷ rest),
            size-fill_stem (max_bytes - size (t ∷ rest)) 0 name,
          ),
          λ e. cc ((text_eq_iff (stem ++ t ∷ rest) name).1 e),
        ))

part_name-IsTailed : (tail name : Chars) → (stem : Chars) × (part_name tail name ≡ stem ++ tail)
unfolding part_name
part_name-IsTailed tail name =
    if-elim (λ n. (stem : Chars) × (n ≡ stem ++ tail))
      (text_eq (fill_stem (max_bytes - size tail) 0 name ++ tail) name) (_, refl) (_, refl)

-- What a partial file is to its destination.
pub record IsApart (dest part : FilePath) : Type 0 where
  pub same_parent : part.parent ≡ dest.parent
  pub short_name : size part.file_name ≤ max_bytes
  pub other_file : part ≢ dest

module _ (hash : Bytes → Bytes) (id : Text) (sha : IsSha (hash id)) where
  -- If the digest of the identifier is 32 bytes, the partial file of a transfer lies in the directory
  -- of its destination, has a name of at most 255 bytes, and is never the destination, whatever name
  -- and identifier the peer chose.
  pub part_path-IsApart : (dest : FilePath) → IsApart dest (part_path hash dest id)
  unfolding part_path part_tail
  part_path-IsApart dest =
      let (small, other) =
        part_name_bounds b'.' _ dest.file_name (ground arith) (size-part_tail hash id sha) in
      record {
        same_parent = refl;
        short_name = small;
        other_file = λ e. other (ap (λ (p : FilePath). p.file_name) e);
      }

  -- Two transfers that share a partial file have the same 16 characters of digest.
  pub part_path-injective :
      (id' : Text)
      → IsSha (hash id')
      → (d d' : FilePath) → part_path hash d id ≡ part_path hash d' id'
      → take 16 (digest hash id) ≡ take 16 (digest hash id')
  unfolding part_path part_tail digest
  part_path-injective id' sha' d d' e =
      let (stem, tailed) = part_name-IsTailed (part_tail hash id) d.file_name in
      let (stem', tailed') = part_name-IsTailed (part_tail hash id') d'.file_name in
      append_same_start _ _ (codes ".part")
        (omega (
          arith,
          length-take 16 (hex (hash id)),
          length-take 16 (hex (hash id')),
          length-hex (hash id),
          length-hex (hash id'),
          sha.long,
          sha'.long,
        ))
        (ap (λ (t : Chars). drop 1 t)
          (append_same_end stem stem' (part_tail hash id) (part_tail hash id')
            (length-part_tail hash id sha ∙ sym (length-part_tail hash id' sha'))
            (sym tailed ∙ ap (λ (p : FilePath). p.file_name) e ∙ tailed')))
