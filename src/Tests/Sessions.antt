-- ===== src/Tests/Sessions.antt =====
-- The output of a terminal session.
use zyris_protocol.Prelude.{◌+◌, ◌≡◌, refl, [], ◌∷◌, ◌++◌, arith, Bytes, Text, length}
use zyris_protocol.Terminal.Buffer.{OutputBuffer, push, read_at, trim_incomplete_tail}
use zyris_protocol.Terminal.Buffer.History.{Represents, push-Represents, read_at-Represents}
use zyris_protocol.Terminal.Buffer.Tail.{IsPartial, trim_incomplete_tail-IsPartial}
use zyris_protocol.Terminal.Sanitize.{done, panicked, strip_controls}
use zyris_protocol.Terminal.Sanitize.Escape.{IsWellFormed}
use zyris_protocol.Terminal.Sanitize.Clean.{Leaves, strip_controls-Leaves}
use zyris_protocol.Terminal.Sanitize.Panic.{strip_controls-panicked}
use zyris_protocol.Terminal.Sanitize.Total.{Completes, strip_controls-Completes}

abbrev small : OutputBuffer
small = record { cap = 4; ring = 3 ∷ 4 ∷ 5 ∷ 6 ∷ []; total_written = 6 }

abbrev written : Bytes
written = 1 ∷ 2 ∷ 3 ∷ 4 ∷ 5 ∷ 6 ∷ []

small-Represents : Represents small written
small-Represents = record { window = refl; counted = refl; in_word = omega arith }

push-Represents_example : Represents (push small (7 ∷ [])) (written ++ 7 ∷ [])
push-Represents_example = push-Represents small written (7 ∷ []) small-Represents (omega arith)

read_at-Represents_example :
    ((read_at small 1 3).bytes ≡ 3 ∷ 4 ∷ 5 ∷ [])
    × ((read_at small 1 3).dropped ≡ 1)
    × ((read_at small 1 3).cursor ≡ 2 + length (read_at small 1 3).bytes)
read_at-Represents_example = read_at-Represents small written small-Represents 1 3 (omega arith)

trim_incomplete_tail-IsPartial_example : trim_incomplete_tail (b'a' ∷ 0xEA ∷ 0xB0 ∷ []) ≡ 1
trim_incomplete_tail-IsPartial_example =
    trim_incomplete_tail-IsPartial (b'a' ∷ []) (IsPartial.lead_one (omega arith) (omega arith))

-- `a`, an SGR sequence, and a carriage return before a newline.
abbrev prompt : Text
prompt = b'a' ∷ 0x1B ∷ b'[' ∷ b'0' ∷ b'm' ∷ 0x0D ∷ 0x0A ∷ []

prompt-IsWellFormed : IsWellFormed prompt
prompt-IsWellFormed = ground arith

strip_controls-Leaves_example : Leaves (strip_controls prompt)
strip_controls-Leaves_example = strip_controls-Leaves prompt prompt-IsWellFormed

strip_controls-Completes_example : Completes (strip_controls prompt)
strip_controls-Completes_example =
    strip_controls-Completes prompt prompt-IsWellFormed (omega arith) (ground arith)

strip_prompt : strip_controls prompt ≡ done (b'a' ∷ 0x0A ∷ [])
unfolding strip_controls
strip_prompt = refl

-- ESC before the three bytes of a Hangul syllable.
strip_controls-panicked_example : strip_controls (b'a' ∷ 0x1B ∷ 0xEA ∷ 0xB0 ∷ 0x80 ∷ []) ≡ panicked
strip_controls-panicked_example =
    strip_controls-panicked (b'a' ∷ []) 0xEA 0xB0 (0x80 ∷ []) (omega arith) (omega arith)
      (omega arith)
