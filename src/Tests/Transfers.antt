-- ===== src/Tests/Transfers.antt =====
-- Transfers on concrete inputs, for crates/zyris-capkit/src/transfer.
use zyris_protocol.Prelude.{
  ℕ, zero, suc, ◌+◌, ◌≡◌, refl, sym, ◌≢◌, inr, true, false, none, some, List, [], ◌∷◌, arith, Bytes,
  Text, codes, text_eq, length, take, replicate,
}
use zyris_protocol.Core.Blobs.Hydrated.{joined}
use zyris_protocol.Proto.Attach.{digest}
use zyris_protocol.Transfer.Name.{Chars}
use zyris_protocol.Transfer.Part.{FilePath, part_path}
use zyris_protocol.Transfer.Part.Apart.{IsSha, IsApart, part_path-IsApart, part_path-injective}
use zyris_protocol.Transfer.Disk.{Disk, create, exists, is_symlink}
use zyris_protocol.Transfer.Disk.Tidy.{IsTidy, create-IsTidy}
use zyris_protocol.Transfer.Undo.{broken_off, Moves}
use zyris_protocol.Transfer.Offer.{
  TransferOffer, TransferDone, Config, temp, renames, resolves, begin, answers, opens, arrives,
  ends, rechecks, Input,
}
use zyris_protocol.Transfer.Receive.Calls.{run, start, is_held}
use zyris_protocol.Transfer.Receive.Delivered.{Delivered}
use zyris_protocol.Transfer.Receive.Invariant.{IsSeparate}
use zyris_protocol.Transfer.Receive.Completes.{events, Ready, Delivers}
use zyris_protocol.Transfer.Receive.Resumes.{Left, script, run-script}

-- A stand-in for the digest that tells texts of different lengths apart.
abbrev hash : Bytes → Bytes
hash b = replicate 32 (length b)

abbrev inbox : FilePath
inbox = record { parent = codes "/in/peer"; file_name = codes "a.txt" }

abbrev id : Text
id = codes "t1"

id-IsSha : IsSha (hash id)
id-IsSha = record { long = refl; bounded = ground arith }

part :
    part_path hash inbox id
    ≡ record { parent = codes "/in/peer"; file_name = codes "a.txt.0202020202020202.part" }
unfolding part_path text_eq digest
part = refl

part_path-IsApart_example : IsApart inbox (part_path hash inbox id)
part_path-IsApart_example = part_path-IsApart hash id id-IsSha inbox

-- A directory with one file, which is to be replaced.
abbrev empty : Disk
empty = record {
  names = λ p. none;
  bytes = λ n. [];
  dirs = λ d. text_eq (codes "/in/peer") d;
  next = 0;
}

empty-IsTidy : IsTidy empty
empty-IsTidy = record {
  filed = λ p e h. absurd (ground arith);
  known = λ p n h. absurd (ground arith);
  single = λ p q n h k. absurd (ground arith);
}

disk : Disk
disk = create empty inbox (7 ∷ [])

disk-IsTidy : IsTidy disk
unfolding disk text_eq
disk-IsTidy = create-IsTidy empty inbox (7 ∷ []) empty-IsTidy refl

abbrev moves : Moves
moves = record { renames = true; copies = broken_off none; unlinks = false }

abbrev plain_digits : ℕ → Chars
plain_digits n = (b'0' + n) ∷ []

-- A copy that breaks off behind the first byte.
abbrev cut_off : Moves
cut_off = record { renames = false; copies = broken_off (some (1 ∷ [])); unlinks = false }

abbrev payload : Bytes
payload = 1 ∷ 2 ∷ 3 ∷ []

abbrev id_of : ℕ → Text
id_of zero = id
id_of (suc n) = codes "t22"

-- Two transfers to one destination.
abbrev offer : ℕ → TransferOffer
offer i = record {
  transfer_id = id_of i;
  name = codes "a.txt";
  size = 3;
  sha256 = digest hash payload;
  overwrite = true;
}

abbrev config : Config
config = record {
  hash = hash;
  digits = plain_digits;
  broken = λ d. false;
  undo = codes "/undo";
  max_file_bytes = 10;
  has_peer = true;
  offer = offer;
  dest = λ i. inbox;
  peer_slug = λ i. codes "a/b/c";
}

other-IsSha : IsSha (hash (codes "t22"))
other-IsSha = record { long = refl; bounded = ground arith }

id_of-IsSha : (i : ℕ) → IsSha (hash (id_of i))
id_of-IsSha zero = id-IsSha
id_of-IsSha (suc i) = other-IsSha

marked : take 16 (digest hash id) ≢ take 16 (digest hash (codes "t22"))
unfolding digest
marked e = ground arith

config-IsSeparate : IsSeparate config
unfolding temp
config-IsSeparate = record {
  parts = parts;
  dests = λ i j. (part_path-IsApart hash (id_of i) (id_of-IsSha i) inbox).other_file;
}
  where
    same_mark :
        (i j : ℕ)
        → temp config i ≡ temp config j
        → take 16 (digest hash (id_of i)) ≡ take 16 (digest hash (id_of j))
    same_mark i j e =
        part_path-injective hash (id_of i) (id_of-IsSha i) (id_of j) (id_of-IsSha j) inbox inbox e

    parts :
        (i j : ℕ) → (offer i).transfer_id ≢ (offer j).transfer_id → temp config i ≢ temp config j
    parts zero zero h e = h refl
    parts zero (suc j) h e = marked (same_mark zero (suc j) e)
    parts (suc i) zero h e = marked (sym (same_mark (suc i) zero e))
    parts (suc i) (suc j) h e = h refl

-- A first call, up to its rename; a second one comes in between.
abbrev before_rename : List (ℕ × Input)
before_rename =
    (0, begin)
    ∷ (0, resolves true)
    ∷ (1, begin)
    ∷ (0, answers (some (record { size = 3; sha256 = digest hash payload })))
    ∷ (0, opens true)
    ∷ (0, arrives (some payload) none)
    ∷ (1, resolves true)
    ∷ (0, ends true)
    ∷ (0, rechecks 5 moves)
    ∷ []

abbrev answer_of : TransferDone
answer_of = record {
  written = inbox;
  bytes = 3;
  sha256 = digest hash payload;
  replaced = true;
  undo = some (record { parent = codes "/undo/5-0"; file_name = codes "a.txt" });
}

-- What an earlier call left: the first byte.
left_over : Disk
left_over = create disk (temp config 0) (1 ∷ [])

left_over-IsTidy : IsTidy left_over
unfolding left_over disk temp text_eq create
left_over-IsTidy = create-IsTidy disk (temp config 0) (1 ∷ []) disk-IsTidy refl

left_over-Ready : Ready config 0 left_over
unfolding Ready left_over create disk temp exists is_symlink text_eq digest
left_over-Ready = (refl, refl)

left_over-Left : Left config 0 left_over (1 ∷ [])
unfolding Left left_over disk create temp text_eq digest
left_over-Left = inr (1, refl, refl)

run-script_example : Delivers config 0 payload (
    run config
      (start left_over)
      (events 0 (script config 0 5 moves (1 ∷ []) ((2 ∷ []) ∷ (3 ∷ []) ∷ []))))
unfolding start is_held joined
run-script_example =
    run-script config 0 payload 5 moves (config-IsSeparate.dests 0 0) refl refl (start left_over)
      (1 ∷ []) ((2 ∷ []) ∷ (3 ∷ []) ∷ []) left_over-IsTidy refl refl (omega arith) refl
      left_over-Ready left_over-Left refl
