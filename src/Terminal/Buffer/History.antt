-- ===== src/Terminal/Buffer/History.antt =====
-- The ring as a window on the whole history of a session's output.
use zyris_protocol.Prelude.{
  ℕ, ◌+◌, ◌-◌, ◌≤◌, ◌<◌, max, ◌≡◌, refl, sym, ap, ◌∙◌, inl, inr, [], ◌++◌, arith, ltb, Bool-cases,
  Bytes, length, length-append, take, drop, length-take, length-drop, drop-append, drop-drop,
  drop_same, drop_all, drop_cong, take-min,
}
use mathlib.Core.Path.{ap₂}
use zyris_protocol.Terminal.Buffer.{
  word, add_word, sub_word, catch_up, OutputBuffer, new, ring_start, tail_of, push, read_at,
}

-- The ring holds the last `cap` bytes of all that was written, and the count is right.
pub record Represents (b : OutputBuffer) (history : Bytes) : Type 0 where
  pub window : b.ring ≡ drop (length history - b.cap) history
  pub counted : b.total_written ≡ length history
  pub in_word : length history < word

pub new-Represents : (cap : ℕ) → Represents (new cap) []
unfolding new
new-Represents cap = record {
  window = sym (drop_all (0 - cap) [] (omega arith));
  counted = refl;
  in_word = omega arith;
}

tail_of_lem : (limit : ℕ) (bytes : Bytes) → tail_of limit bytes ≡ drop (length bytes - limit) bytes
unfolding tail_of
tail_of_lem limit bytes = elim (Bool-cases (ltb limit (length bytes))) [
  | inl long ↦ rw long
  | inr short ↦ rw short (drop_cong {n = 0} bytes (ground arith))
]

-- Pushing keeps the window, also when one push is larger than the ring.
window-push :
    (limit : ℕ) (h bytes : Bytes)
    → let extended = drop (length h - limit) h ++ drop (length bytes - limit) bytes in
      drop (length extended - limit) extended ≡ drop (length (h ++ bytes) - limit) (h ++ bytes)
window-push limit h bytes =
    let a = length h - limit in
    let t = length bytes - limit in
    let old = drop a h in
    let o = length (old ++ drop t bytes) - limit in
    let size = length-append old (drop t bytes) in
    drop-append o old (drop t bytes)
    ∙ ap₂ ◌++◌
        (drop-drop o a h
          ∙ drop_same (a + o) (length (h ++ bytes) - limit) h
              (omega (arith, size, length-drop a h, length-drop t bytes, length-append h bytes)))
        (drop-drop (o - length old) t bytes
          ∙ drop_same (t + (o - length old)) (length (h ++ bytes) - limit - length h) bytes
              (omega (arith, size, length-drop a h, length-drop t bytes, length-append h bytes)))
    ∙ sym (drop-append (length (h ++ bytes) - limit) h bytes)

-- A push appends to the history, whatever the sizes: the ring forgets exactly what lies more than
-- `cap` bytes back.
pub push-Represents :
    (b : OutputBuffer) (h bytes : Bytes)
    → Represents b h
    → length (h ++ bytes) < word
    → Represents (push b bytes) (h ++ bytes)
unfolding push add_word
push-Represents b h bytes v w = record {
  window = rw (v.window, tail_of_lem) (window-push b.cap h bytes);
  counted = ground (arith, length-append h bytes);
  in_word = w;
}

sub_word_le : (a b : ℕ) → b ≤ a → a < word → sub_word a b ≡ a - b
unfolding sub_word
sub_word_le a b h k = omega arith

add_word_lt : (a b : ℕ) → a + b < word → add_word a b ≡ a + b
unfolding add_word
add_word_lt a b h = omega arith

module _ (b : OutputBuffer) (h : Bytes) (v : Represents b h) where
  length-ring : length b.ring ≡ length h - (length h - b.cap)
  length-ring = ap length v.window ∙ length-drop _ h

  ring_start_lem : ring_start b ≡ length h - b.cap
  unfolding ring_start
  ring_start_lem =
      omega (arith, length-ring, v.counted, v.in_word, sub_word_le b.total_written (length b.ring))

  catch_up_lem : (cursor : ℕ) → catch_up b cursor ≡ max cursor (length h - b.cap)
  unfolding catch_up
  catch_up_lem cursor = rw ring_start_lem (ground arith)

  from_lem :
      (cursor : ℕ)
      → cursor ≤ length h
      → sub_word (catch_up b cursor) (ring_start b)
        ≡ max cursor (length h - b.cap) - (length h - b.cap)
  from_lem cursor c =
      rw (catch_up_lem, ring_start_lem)
        (sub_word_le (max cursor (length h - b.cap)) (length h - b.cap) (omega arith)
          (omega (arith, v.in_word)))

  drop-ring :
      (cursor : ℕ)
      → cursor ≤ length h
      → drop (sub_word (catch_up b cursor) (ring_start b)) b.ring
        ≡ drop (max cursor (length h - b.cap)) h
  drop-ring cursor c =
      drop_cong b.ring (from_lem cursor c)
      ∙ ap (drop _) v.window
      ∙ drop-drop _ (length h - b.cap) h
      ∙ drop_cong {m = max cursor (length h - b.cap)} h (omega arith)

  left_lem :
      (cursor : ℕ)
      → cursor ≤ length h
      → sub_word (length b.ring) (sub_word (catch_up b cursor) (ring_start b))
        ≡ length (drop (max cursor (length h - b.cap)) h)
  left_lem cursor c = rw from_lem (
      omega (
        arith,
        length-ring,
        v.in_word,
        length-drop (max cursor (length h - b.cap)) h,
        sub_word_le (length b.ring) (max cursor (length h - b.cap) - (length h - b.cap)),
      ))

  -- A read at a cursor that is not past the end returns the bytes of the history that follow the
  -- cursor or, if the ring no longer holds these, that follow the ring's start; it says exactly how
  -- many were lost, and leaves the cursor behind the last byte that it returned.
  pub read_at-Represents :
      (cursor count : ℕ)
      → cursor ≤ length h
      → let start = max cursor (length h - b.cap) in
        let r = read_at b cursor count in
        (r.bytes ≡ take count (drop start h))
        × (r.dropped ≡ (length h - b.cap) - cursor)
        × (r.cursor ≡ start + length r.bytes)
  unfolding read_at
  read_at-Represents cursor count c =
      let start = max cursor (length h - b.cap) in
      let next = take-min count (drop start h) in
      rw (drop-ring cursor c, left_lem cursor c, catch_up_lem, next)
        (
          refl,
          rw ring_start_lem,
          omega (arith, length-take count (drop start h), length-drop start h, v.in_word),
        )
