-- ===== src/Tests/Names.antt =====
-- Names that peers propose for the files they send, and chords of keys.
use zyris_protocol.Prelude.{
  inr, true, arith, ℕ, ◌≡◌, refl, Bool, [], ◌∷◌, ◌++◌, ◌==◌, codes, replicate,
}
use zyris_protocol.Transfer.Name.{
  behind_last, last_chunk, filter, trim_start, trim_end, shorten, safe_name,
}
use zyris_protocol.Transfer.Name.Washed.{IsWashed, safe_name-IsWashed}
use zyris_protocol.Input.Chord.{accepted, control, shift, alt, unicode, parse_chord}
use zyris_protocol.Input.Chord.Pressed.{
  AreRead, modifiers_of, keys_of, expected, IsEnded, parse_chord-expected,
}

abbrev space : ℕ → Bool
space c = c == b' '

climbs : safe_name space (codes "../../etc/passwd") ≡ codes "passwd"
unfolding safe_name last_chunk behind_last filter trim_start trim_end shorten
climbs = refl

device : safe_name space (codes "con.txt") ≡ codes "con_.txt"
unfolding safe_name
device = refl

safe_name-IsWashed_example : IsWashed (safe_name space (codes "../a:b. "))
safe_name-IsWashed_example = safe_name-IsWashed space (codes "../a:b. ")

-- A name of a device comes back when what follows it is cut off and trimmed.
device_again : safe_name space (codes "CON" ++ (replicate 252 b' ' ++ codes "x")) ≡ codes "CON"
unfolding safe_name
device_again = refl

zoom : parse_chord space (codes "ctrl++") ≡ accepted (control ∷ [], unicode b'+')
unfolding parse_chord
zoom = refl

lone : parse_chord space (codes "Alt") ≡ accepted ([], alt)
unfolding parse_chord
lone = refl

parse_chord-expected_example :
    parse_chord space (codes " Ctrl + shift++") ≡ accepted (control ∷ shift ∷ [], unicode b'+')
unfolding parse_chord AreRead keys_of modifiers_of expected IsEnded
parse_chord-expected_example =
    parse_chord-expected space (codes " Ctrl + shift++") (codes "Ctrl + shift") true (ground arith)
      (inr refl) (tt, (tt, tt))
