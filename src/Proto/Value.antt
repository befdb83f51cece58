-- ===== src/Proto/Value.antt =====
-- The dynamic value that a payload holds (crates/zyris-proto/src/payload.rs over `rmpv::Value`).
-- Floats are kept as their bit patterns.
use zyris_protocol.Prelude.{ℕ, Bool, true, false, Bytes, Text}

-- `rmpv::Integer`: `negative n` is -(n + 1).
pub data Integer : Type 0 where
  unsigned : ℕ → Integer
  negative : ℕ → Integer

-- `rmpv::Utf8String` keeps the bytes of a string that is not valid UTF-8.
pub data Utf8String : Type 0 where
  utf8 : Text → Utf8String
  invalid : Bytes → Utf8String

mutual
  pub data Value : Type 0 where
    nil : Value
    boolean : Bool → Value
    integer : Integer → Value
    f32 : ℕ → Value
    f64 : ℕ → Value
    string : Utf8String → Value
    binary : Bytes → Value
    array : Items → Value
    map : Entries → Value
    ext : ℕ → Bytes → Value

  pub data Items : Type 0 where
    array_end : Items
    item : Value → Items → Items

  pub data Entries : Type 0 where
    map_end : Entries
    field : Value → Value → Entries → Entries

-- `struct Payload(pub rmpv::Value)`.
abbrev pub Payload : Type 0
Payload = Value

-- `Payload::default`.
abbrev pub default : Payload
default = nil

unfoldable pub is_nil : Payload → Bool
is_nil nil = true
is_nil _ = false
