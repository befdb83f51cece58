-- ===== src/P2p/Frame.antt =====
-- crates/zyris-p2p/src/frame.rs, and `IrohRead::read_one` in crates/zyris-p2p/src/transport.rs:
-- messages on a byte stream. A text is its UTF-8 bytes; whether
-- bytes are UTF-8 is the standard library's `from_utf8`, a parameter.
use zyris_protocol.Prelude.{
  ℕ, suc, ◌+◌, ◌-◌, ◌≤◌, sym, ◌∙◌, take-append, take_all, length-take, ltb→lt, ◌*◌, ◌/◌, ◌%◌, ◌^◌,
  ◌<◌, ◌≡◌, refl, ap, inl, inr, Bool, true, false, Option, none, some, [], ◌∷◌, ◌++◌, arith, ltb,
  ◌==◌, if◌then◌else◌, Bool-cases, Bytes, length, length-append, take, drop,
}
use zyris_protocol.Proto.Frame.{WireMessage, binary, text, to_be_bytes, from_be_bytes}
use zyris_protocol.Proto.Frame.RoundTrip.{from_be_bytes_lem}

abbrev pub max_frame : ℕ
max_frame = 16 * 1024 * 1024

pub data FrameError : Type 0 where
  unknown_kind too_large : ℕ → FrameError
  not_utf8 : FrameError

pub data Result {ℓ} (A : Type ℓ) : Type ℓ where
  ok : A → Result A
  err : FrameError → Result A

abbrev pub kind_of : WireMessage → ℕ
kind_of (binary b) = 0
kind_of (text t) = 1

abbrev pub payload_of : WireMessage → Bytes
payload_of (binary b) = b
payload_of (text t) = t

unfoldable pub encode : WireMessage → Bytes
unfolding to_be_bytes
encode msg = kind_of msg ∷ (to_be_bytes (length (payload_of msg) % 2 ^ 32) ++ payload_of msg)

-- The header is five bytes.
unfoldable pub decode_header : ℕ → ℕ → ℕ → ℕ → ℕ → Result (ℕ × ℕ)
unfolding from_be_bytes
decode_header kind a b c d =
    if ltb 1 kind
    then err (unknown_kind kind)
    else let len = from_be_bytes a b c d in
      if ltb max_frame len then err (too_large len) else ok (kind, len)

module _ (is_utf8 : Bytes → Bool) where
  unfoldable pub body : ℕ → Bytes → Result WireMessage
  body kind bytes =
      if kind == 0
      then ok (binary bytes)
      else if kind == 1
      then (if is_utf8 bytes then ok (text bytes) else err not_utf8)
      else err (unknown_kind kind)

  -- `IrohRead::read_one`: the header, as many bytes as it declares, the body. `none` while the stream is shorter; what is left comes with the message.
  unfoldable pub read_body : Result (ℕ × ℕ) → Bytes → Option (Result (WireMessage × Bytes))
  read_body (err e) rest = some (err e)
  read_body (ok (kind, len)) rest =
      if ltb (length rest) len then none else elim (body kind (take len rest)) [
        | err e ↦ some (err e)
        | ok msg ↦ some (ok (msg, drop len rest))
      ]

  unfoldable pub read_frame : Bytes → Option (Result (WireMessage × Bytes))
  unfolding read_body decode_header body
  read_frame (kind ∷ a ∷ b ∷ c ∷ d ∷ rest) = read_body (decode_header kind a b c d) rest
  read_frame _ = none

  abbrev pub Valid : WireMessage → Type 0
  Valid (binary b) = Unit {0}
  Valid (text t) = is_utf8 t ≡ true

  body_lem : (msg : WireMessage) → Valid msg → body (kind_of msg) (payload_of msg) ≡ ok msg
  unfolding body
  body_lem (binary b) v = refl
  body_lem (text t) v = rw v refl

  kind_lem : (msg : WireMessage) → ltb 1 (kind_of msg) ≡ false
  kind_lem (binary b) = refl
  kind_lem (text t) = refl

  header_lem :
      (msg : WireMessage) (len : ℕ)
      → len < 2 ^ 32
      → decode_header
          (kind_of msg)
          (len / 2 ^ 24 % 256)
          (len / 2 ^ 16 % 256)
          (len / 2 ^ 8 % 256)
          (len % 256)
        ≡ (if ltb max_frame len then err (too_large len) else ok (kind_of msg, len))
  unfolding decode_header
  header_lem msg len small = rw (kind_lem msg, from_be_bytes_lem len small) refl

  take-own : (p rest : Bytes) → take (length p) (p ++ rest) ≡ p
  take-own [] rest = refl
  take-own (x ∷ p) rest = ap (λ t. x ∷ t) (take-own p rest)

  drop-own : (p rest : Bytes) → drop (length p) (p ++ rest) ≡ rest
  drop-own [] rest = refl
  drop-own (x ∷ p) rest = drop-own p rest

  ltb-own : (p rest : Bytes) → ltb (length (p ++ rest)) (length p) ≡ false
  ltb-own p rest = rw (length-append p rest) (ground arith)

  read_body_lem :
      (msg : WireMessage) (rest : Bytes)
      → Valid msg
      → read_body (ok (kind_of msg, length (payload_of msg))) (payload_of msg ++ rest)
        ≡ some (ok (msg, rest))
  unfolding read_body
  read_body_lem msg rest v =
      rw
        (
          ltb-own (payload_of msg) rest,
          take-own (payload_of msg) rest,
          body_lem msg v,
          drop-own (payload_of msg) rest,
        )
        refl

  take-whole :
      (p rest : Bytes) (m : ℕ) → length p ≤ m → take m (p ++ rest) ≡ p ++ take (m - length p) rest
  take-whole p rest m h =
      take-append m p rest ∙ ap (λ t. t ++ take (m - length p) rest) (take_all m p h)

  ltb-take :
      (p rest : Bytes) (m : ℕ) → m < length p → ltb (length (take m (p ++ rest))) (length p) ≡ true
  ltb-take p rest m h = ground (arith, length-take m (p ++ rest), length-append p rest)

  read_body-take :
      (msg : WireMessage) (rest : Bytes) (m : ℕ)
      → Valid msg
      → read_body (ok (kind_of msg, length (payload_of msg))) (take m (payload_of msg ++ rest)) ≡ (
          if ltb m (length (payload_of msg))
          then none
          else some (ok (msg, take (m - length (payload_of msg)) rest)))
  unfolding read_body
  read_body-take msg rest m v = elim (Bool-cases (ltb m (length (payload_of msg)))) [
    | inl short ↦
        rw (short, ltb-take (payload_of msg) rest m (ltb→lt m (length (payload_of msg)) short)) refl
    | inr whole ↦
        ap (read_body (ok (kind_of msg, length (payload_of msg))))
          (take-whole (payload_of msg) rest m (ground (arith, whole)))
        ∙ read_body_lem msg (take (m - length (payload_of msg)) rest) v
        ∙ rw whole refl
  ]

  -- What a reader comes to with so many bytes of a message and of the stream behind it.
  abbrev comes_to : Bool → Bool → ℕ → WireMessage → Bytes → Option (Result (WireMessage × Bytes))
  comes_to no_header not_whole behind msg rest =
      if no_header
      then none
      else if ltb max_frame (length (payload_of msg))
      then some (err (too_large (length (payload_of msg))))
      else if not_whole
      then none
      else some (ok (msg, take behind rest))

  with_header :
      (msg : WireMessage) (rest : Bytes) (m : ℕ)
      → Valid msg
      → read_body
          (if ltb max_frame (length (payload_of msg))
            then err (too_large (length (payload_of msg)))
            else ok (kind_of msg, length (payload_of msg)))
          (take m (payload_of msg ++ rest))
        ≡ comes_to false (ltb m (length (payload_of msg))) (m - length (payload_of msg)) msg rest
  unfolding read_body
  with_header msg rest m v = elim (Bool-cases (ltb max_frame (length (payload_of msg)))) [
    | inl over ↦ rw over refl
    | inr fits ↦ rw fits (read_body-take msg rest m v)
  ]

  -- Of a message of less than 2^32 bytes and what follows it, some bytes have come. With less than the
  -- header, the reader waits; with the header, a message over the cap is refused, whatever of it
  -- has come, and for one up to the cap it waits until the message is whole, reads it, and leaves
  -- what has come behind it in the stream.
  pub read_frame-encode :
      (msg : WireMessage) (rest : Bytes) (come : ℕ)
      → Valid msg
      → length (payload_of msg) < 2 ^ 32
      → read_frame (take come (encode msg ++ rest)) ≡ (
          if ltb come 5
          then none
          else if ltb max_frame (length (payload_of msg))
          then some (err (too_large (length (payload_of msg))))
          else if ltb come (5 + length (payload_of msg))
          then none
          else some (ok (msg, take (come - 5 - length (payload_of msg)) rest)))
  unfolding read_frame encode to_be_bytes
  read_frame-encode msg rest (suc (suc (suc (suc (suc m))))) v small =
      ap (λ h. read_body h (take m (payload_of msg ++ rest)))
        (rw (mod_small) (header_lem msg (length (payload_of msg)) small))
      ∙ with_header msg rest m v
      ∙ counted (ltb m (length (payload_of msg))) (m - length (payload_of msg)) (ground arith)
          (ground arith) (omega arith)
    where
      mod_small : length (payload_of msg) % 2 ^ 32 ≡ length (payload_of msg)
      mod_small = omega arith

      counted :
          (c : Bool) (k : ℕ)
          → ltb (suc (suc (suc (suc (suc m))))) 5 ≡ false
          → ltb (suc (suc (suc (suc (suc m))))) (5 + length (payload_of msg)) ≡ c
          → suc (suc (suc (suc (suc m)))) - 5 - length (payload_of msg) ≡ k
          → comes_to false c k msg rest
            ≡ comes_to
                (ltb (suc (suc (suc (suc (suc m))))) 5)
                (ltb (suc (suc (suc (suc (suc m))))) (5 + length (payload_of msg)))
                (suc (suc (suc (suc (suc m)))) - 5 - length (payload_of msg))
                msg
                rest
      counted c k a b e i = comes_to (sym a i) (sym b i) (sym e i) msg rest
  read_frame-encode msg rest come v small = refl
