-- ===== src/Terminal/Buffer.antt =====
-- crates/zyris-capkit/src/terminal/buffer.rs: the ring of a session's output, and the UTF-8 tail
-- that a read holds back. Offsets are u64 and lengths usize on a 64-bit target; an overflow wraps,
-- as in a release build.
pub mod History
pub mod Tail
use zyris_protocol.Prelude.{
  ℕ, zero, suc, ◌+◌, ◌-◌, ◌*◌, ◌/◌, ◌%◌, ◌^◌, ◌≤◌, ◌<◌, min, ◌≡◌, ◌∙◌, ◌≢◌, ◌↔◌, ◌⊎◌, ◌&&◌, ◌||◌,
  [], ◌∷◌, ◌++◌, ltb, leb, ◌==◌, if◌then◌else◌, Bytes, length, take, drop,
}

abbrev pub word : ℕ
word = 2 ^ 64

unfoldable pub add_word : ℕ → ℕ → ℕ
add_word a b = (a + b) % word

unfoldable pub sub_word : ℕ → ℕ → ℕ
sub_word a b = (a + word - b) % word

pub record OutputBuffer : Type 0 where
  pub cap : ℕ
  pub ring : Bytes
  pub total_written : ℕ

unfoldable pub new : ℕ → OutputBuffer
new cap = record { cap = cap; ring = []; total_written = 0 }

unfoldable pub ring_start : OutputBuffer → ℕ
unfolding sub_word
ring_start b = sub_word b.total_written (length b.ring)

-- The trailing `cap` bytes of one push.
tail_of : ℕ → Bytes → Bytes
tail_of cap bytes = if ltb cap (length bytes) then drop (length bytes - cap) bytes else bytes

unfoldable pub push : OutputBuffer → Bytes → OutputBuffer
unfolding tail_of add_word
push b bytes =
    let extended = b.ring ++ tail_of b.cap bytes in
    record b {
      ring = drop (length extended - b.cap) extended;
      total_written = add_word b.total_written (length bytes);
    }

-- What a read returns: the bytes, how many were lost, and the cursor behind them.
pub record Read : Type 0 where
  pub bytes : Bytes
  pub dropped : ℕ
  pub cursor : ℕ

-- The cursor, moved up to the ring's start if it lies before it.
catch_up : OutputBuffer → ℕ → ℕ
catch_up b cursor = if ltb 0 (ring_start b - cursor) then ring_start b else cursor

unfoldable pub read_at : OutputBuffer → ℕ → ℕ → Read
unfolding ring_start catch_up sub_word add_word
read_at b cursor count =
    let from = sub_word (catch_up b cursor) (ring_start b) in
    let n = min (sub_word (length b.ring) from) count in
    record {
      bytes = take n (drop from b.ring);
      dropped = ring_start b - cursor;
      cursor = add_word (catch_up b cursor) n;
    }

-- `for back in 1..=max_back` of `trim_incomplete_tail`, over the bytes from the last one back.
trim_back : ℕ → ℕ → ℕ → Bytes → ℕ
trim_back zero back len bytes = len
trim_back (suc rounds) back len [] = len
trim_back (suc rounds) back len (c ∷ before) =
    let rest = trim_back rounds (back + 1) len before in
    if ltb c 0x80
    then len
    else if leb 0xC0 c
    then (let need = if leb 0xF0 c then 4 else if leb 0xE0 c then 3 else 2 in
        if ltb back need then len - back else len)
    else rest

reverse_onto : Bytes → Bytes → Bytes
reverse_onto [] acc = acc
reverse_onto (c ∷ cs) acc = reverse_onto cs (c ∷ acc)

unfoldable pub trim_incomplete_tail : Bytes → ℕ
unfolding trim_back reverse_onto
trim_incomplete_tail b = trim_back (min 3 (length b)) 1 (length b) (reverse_onto b [])
