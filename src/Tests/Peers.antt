-- ===== src/Tests/Peers.antt =====
-- A node that is being enrolled, messages between peers, and the keys they are known by.
use zyris_protocol.Prelude.{
  take, ◌≡◌, refl, Bool, true, ◌&&◌, none, some, List, [], ◌∷◌, ◌++◌, arith, ltb, Bytes, codes,
  text_eq,
}
use zyris_protocol.Prelude.Int.{pos, negsuc}
use zyris_protocol.Enroll.Poll.{
  ErrorResponse, keep_waiting, new, poll_all, on_error, IsStep, on_error-poll_all,
}
use zyris_protocol.Proto.Frame.{text, from_be_bytes}
use zyris_protocol.P2p.Frame.{
  ok, err, encode, decode_header, read_frame, read_frame-encode, too_large,
}
use zyris_protocol.Prelude.Named.{lookup_name, insert_name, remove_name}
use zyris_protocol.P2p.Tofu.{Entry, changed, check, Order, pin, goes, dies, broken, run, opened}
use zyris_protocol.P2p.Tofu.Kept.{check-run, AllSpare, AreWhole}

abbrev slow_down : ErrorResponse
slow_down = record {
  error = codes "slow_down";
  error_description = none;
  interval = none;
  status = some 400;
}

-- Told to slow down without an interval, and then with a negative one.
abbrev hurried : ErrorResponse
hurried = record slow_down { interval = some (negsuc 3) }

widened : on_error (new (pos 5)) slow_down ≡ (record { interval = 10 }, keep_waiting 10)
unfolding on_error new text_eq
widened = refl

on_error-poll_all_example :
    IsStep
      (poll_all (new (pos 58)) (slow_down ∷ []))
      (on_error (poll_all (new (pos 58)) (slow_down ∷ [])) hurried)
on_error-poll_all_example = on_error-poll_all (pos 58) (slow_down ∷ []) hurried

too_long : decode_header 0 1 0 0 1 ≡ err (too_large 16777217)
unfolding decode_header from_be_bytes
too_long = refl

abbrev ascii : Bytes → Bool
ascii [] = true
ascii (b ∷ bs) = ltb b 128 && ascii bs

-- The header of a message over the cap, and nothing of it.
refused_at_once : read_frame ascii (0 ∷ 1 ∷ 0 ∷ 0 ∷ 1 ∷ []) ≡ some (err (too_large 16777217))
unfolding read_frame decode_header from_be_bytes
refused_at_once = refl

read_frame-encode_example :
    read_frame ascii (take 8 (encode (text (104 ∷ 105 ∷ [])) ++ (0 ∷ 9 ∷ [])))
    ≡ some (ok (text (104 ∷ 105 ∷ []), 0 ∷ []))
read_frame-encode_example =
    read_frame-encode ascii (text (104 ∷ 105 ∷ [])) (0 ∷ 9 ∷ []) 8 refl (omega arith)

abbrev first_key : Entry
first_key = record { endpoint_id = codes "k1"; first_seen_ms = 5 }

abbrev other_key : Entry
other_key = record { endpoint_id = codes "k2"; first_seen_ms = 6 }

-- Two writers pin different keys for one slug; the second comes too late.
abbrev two_orders : List Order
two_orders = pin (codes "pi") first_key ∷ pin (codes "pi") other_key ∷ []

check-run_example :
    check
      (run
        (run (opened [] two_orders) (goes 0 ∷ goes 1 ∷ goes 0 ∷ goes 0 ∷ goes 0 ∷ []))
        (goes 1 ∷ goes 1 ∷ dies 1 ∷ [])).file
      (codes "pi")
      (codes "k2")
    ≡ some (changed (codes "k1") (codes "k2"))
unfolding run opened text_eq lookup_name insert_name remove_name AllSpare AreWhole
check-run_example =
    check-run [] two_orders (goes 0 ∷ goes 1 ∷ goes 0 ∷ goes 0 ∷ goes 0 ∷ [])
      (goes 1 ∷ goes 1 ∷ dies 1 ∷ []) (codes "pi") first_key (codes "k2") (tt, (tt, tt))
      (tt, (tt, (tt, (tt, (tt, tt))))) (tt, (tt, (tt, tt))) refl

-- The lock of a writer that verified it is broken; another pins its key, and the first then
-- publishes the ledger that it read before.
lost_pin :
    lookup_name
      (run
        (opened [] (pin (codes "a") first_key ∷ pin (codes "b") other_key ∷ []))
        (goes 0 ∷ goes 0 ∷ goes 0 ∷ broken ∷ goes 1 ∷ goes 1 ∷ goes 1 ∷ goes 1 ∷ goes 0 ∷ [])).file
      (codes "b")
    ≡ none
unfolding run opened text_eq lookup_name insert_name remove_name
lost_pin = refl
