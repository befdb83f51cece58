-- ===== src/Tests/Inboxes.antt =====
-- Inboxes, offers and a planted name on concrete inputs, for crates/zyris-capkit/src/transfer.
use zyris_protocol.Prelude.{
  ℕ, zero, suc, ◌+◌, ◌%◌, ◌≡◌, refl, Bool, true, false, none, some, List, [], ◌∷◌, ◌++◌, map, ◌==◌,
  Bytes, Text, codes, text_eq, replicate,
}
use zyris_protocol.Core.Blobs.Hydrated.{joined}
use zyris_protocol.Proto.Attach.{digest}
use zyris_protocol.Transfer.Name.{safe_name}
use zyris_protocol.Transfer.Part.{FilePath, part_path}
use zyris_protocol.Transfer.Disk.{Disk, holds, seen, create, rename}
use zyris_protocol.Transfer.Undo.{broken_off, Moves, stash, claim_slot, claim_slots, move_aside}
use zyris_protocol.Transfer.Inbox.{PathBuf, Answers, resolved, replace_char, resolve}
use zyris_protocol.Transfer.Inbox.Jail.{IsJailed, resolve-IsJailed}
use zyris_protocol.Transfer.Offer.{
  PullHead, Config, temp, Input, begin, resolves, answers, opens, arrives, ends, rechecks, renames,
}
use zyris_protocol.Transfer.Receive.{
  look, answer, open_part, receive, verify, recheck, rename_in, handle,
}
use zyris_protocol.Transfer.Receive.Calls.{run, step, admit, start}
use zyris_protocol.Transfer.Pull.{offer_bytes, streaming, pull, find_transfer}
use zyris_protocol.Transfer.Pull.Resumed.{pull-offer_bytes}

abbrev space : ℕ → Bool
space c = c == 32

-- A file system without links.
abbrev plain : Answers
plain = record {
  create_dir_all = λ p. true;
  canonicalize = λ p. some p;
  symlink_metadata = λ p. some false;
}

abbrev inbox : PathBuf
inbox = codes "in" ∷ []

abbrev landed : PathBuf
landed = codes "in" ∷ codes "a_b_c" ∷ codes "passwd" ∷ []

lands : resolve plain space inbox (codes "a/b/c") (codes "../passwd") ≡ resolved landed
unfolding resolve safe_name text_eq
lands = refl

resolve-IsJailed_example :
    IsJailed plain inbox
      (inbox ++ (safe_name space (replace_char b'/' b'_' (codes "a/b/c")) ∷ []))
      landed
resolve-IsJailed_example =
    resolve-IsJailed plain space inbox (codes "a/b/c") (codes "../passwd") landed lands

pull-offer_bytes_example :
    (chunks : List Bytes) × (pull
        (offer_bytes [] (codes "t") (1 ∷ 2 ∷ 3 ∷ []) (codes "d"))
        (codes "t")
        1
      ≡ streaming (record { size = 3; sha256 = codes "d" }) (map (λ b. some b) chunks))
    × (joined chunks ≡ 2 ∷ 3 ∷ [])
unfolding find_transfer
pull-offer_bytes_example = pull-offer_bytes [] (codes "t") (1 ∷ 2 ∷ 3 ∷ []) (codes "d") 1 refl

-- A stand-in for the digest that tells texts of different sums apart.
sum : Bytes → ℕ
sum [] = 0
sum (b ∷ bs) = b + sum bs

hash : Bytes → Bytes
unfolding sum
hash b = replicate 32 (sum b % 256)

abbrev dest : FilePath
dest = record { parent = codes "/in/peer"; file_name = codes "a" }

abbrev payload_of : ℕ → Bytes
payload_of zero = 1 ∷ 2 ∷ 3 ∷ []
payload_of (suc n) = 4 ∷ 5 ∷ 6 ∷ []

abbrev id_of : ℕ → Text
id_of zero = codes "t"
id_of (suc n) = codes "u"

-- The second offer names the partial file of the first.
abbrev dest_of : ℕ → FilePath
dest_of zero = dest
dest_of (suc n) = part_path hash dest (codes "t")

abbrev config : Config
config = record {
  hash = hash;
  digits = λ n. (b'0' + n) ∷ [];
  broken = λ d. false;
  undo = codes "/undo";
  max_file_bytes = 10;
  has_peer = true;
  offer = λ i. record {
    transfer_id = id_of i;
    name = (dest_of i).file_name;
    size = 3;
    sha256 = digest hash (payload_of i);
    overwrite = true;
  };
  dest = dest_of;
  peer_slug = λ i. codes "a/b/c";
}

abbrev head_of : ℕ → PullHead
head_of i = record { size = 3; sha256 = digest hash (payload_of i) }

abbrev moves : Moves
moves = record { renames = true; copies = broken_off none; unlinks = false }

abbrev bare : Disk
bare = record { names = λ p. none; bytes = λ n. []; dirs = λ d. false; next = 0 }

abbrev crossing : List (ℕ × Input)
crossing =
    (0, begin)
    ∷ (0, resolves true)
    ∷ (0, answers (some (head_of 0)))
    ∷ (0, opens true)
    ∷ (1, begin)
    ∷ (1, resolves true)
    ∷ (1, answers (some (head_of 1)))
    ∷ (1, opens true)
    ∷ (1, arrives (some (payload_of 1)) none)
    ∷ (1, ends true)
    ∷ (1, rechecks 5 moves)
    ∷ (1, renames true)
    ∷ (0, arrives (some (payload_of 0)) none)
    ∷ (0, ends true)
    ∷ (0, rechecks 6 moves)
    ∷ (0, renames true)
    ∷ []

-- The first call verified its own bytes, and leaves those of the second at its destination.
planted : seen (run config (start bare) crossing).disk dest ≡ some (holds (payload_of 1))
unfolding run hash step start admit handle look create rename text_eq temp part_path digest answer
    open_part receive verify recheck rename_in stash claim_slot claim_slots move_aside seen
planted = refl
