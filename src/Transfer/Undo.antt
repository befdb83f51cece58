-- ===== src/Transfer/Undo.antt =====
-- crates/zyris-capkit/src/transfer/undo.rs: a file that is about to be overwritten is moved aside.
-- Every call of the file system may fail, as the arguments say; a copy that fails may leave a part.
-- `digits` is the decimal form of a number.
pub mod Slot
pub mod Saved
use zyris_protocol.Prelude.{
  Bytes, ℕ, zero, suc, ◌+◌, ◌%◌, ◌^◌, Bool, true, Option, none, some, ◌∷◌, ◌++◌, if◌then◌else◌,
  text_eq,
}
use zyris_protocol.Transfer.Name.{Chars}
use zyris_protocol.Transfer.Part.{FilePath}
use zyris_protocol.Transfer.Disk.{Entry, file, link, Disk, put, create}

abbrev pub max_attempts : ℕ
max_attempts = 64

-- `NEXT_SEQ.fetch_add(1)`.
unfoldable pub next_seq : ℕ → ℕ
next_seq seq = (seq + 1) % 2 ^ 64

pub record Claimed : Type 0 where
  pub disk : Disk
  pub seq : ℕ
  pub slot : Option Chars

-- `tokio::fs::copy`: done, or failed, with the bytes that it has put into the new file if it made one.
pub data Copy : Type 0 where
  copied : Copy
  broken_off : Option Bytes → Copy

-- How the calls behind the claim of a slot end.
pub record Moves : Type 0 where
  pub renames : Bool
  pub copies : Copy
  pub unlinks : Bool

pub record Stashed : Type 0 where
  pub disk : Disk
  pub seq : ℕ
  pub undo : Option FilePath

unfoldable pub create_dir : Disk → Chars → Disk
create_dir d dir = record d { dirs = λ q. if text_eq dir q then true else d.dirs q }

-- Behind the claim: the victim goes to `dest`.
unfoldable pub move_aside : Moves → Disk → ℕ → FilePath → Entry → FilePath → Stashed
unfolding create put
move_aside m d seq victim (link n) dest =
    if m.renames
    then record { disk = put (put d victim none) dest (some (link n)); seq = seq; undo = some dest }
    else record { disk = d; seq = seq; undo = none }
move_aside m d seq victim (file n) dest =
    if m.renames
    then record { disk = put (put d victim none) dest (some (file n)); seq = seq; undo = some dest }
    else elim m.copies [
      | copied ↦ record {
        disk =
            if m.unlinks
            then put (create d dest (d.bytes n)) victim none
            else create d dest (d.bytes n);
        seq = seq;
        undo = some dest;
      }
      | broken_off none ↦ record { disk = d; seq = seq; undo = none }
      | broken_off (some part) ↦ record { disk = create d dest part; seq = seq; undo = none }
    ]

-- `broken` are the directories that cannot be created for another reason than that they exist.
module _ (digits : ℕ → Chars) (root : Chars) (broken : Chars → Bool) (now : ℕ) where
  unfoldable pub slot_of : ℕ → Chars
  slot_of seq = root ++ b'/' ∷ (digits now ++ b'-' ∷ digits seq)

  unfoldable pub claim_slots : ℕ → Disk → ℕ → Claimed
  unfolding next_seq slot_of create_dir
  claim_slots zero d seq = record { disk = d; seq = seq; slot = none }
  claim_slots (suc attempts) d seq =
      let rest = claim_slots attempts d (next_seq seq) in
      let candidate = slot_of seq in
      if d.dirs candidate
      then rest
      else if broken candidate
      then record { disk = d; seq = next_seq seq; slot = none }
      else record { disk = create_dir d candidate; seq = next_seq seq; slot = some candidate }

  unfoldable pub claim_slot : Disk → ℕ → Claimed
  unfolding create_dir
  claim_slot d seq =
      if broken root
      then record { disk = d; seq = seq; slot = none }
      else claim_slots max_attempts (create_dir d root) seq

  unfoldable pub stash : Moves → Disk → ℕ → FilePath → Stashed
  stash m d seq victim = elim (d.names victim) [
    | none ↦ record { disk = d; seq = seq; undo = none }
    | some e ↦
        let c = claim_slot d seq in
        elim c.slot [
          | none ↦ record { disk = c.disk; seq = c.seq; undo = none }
          | some slot ↦
              move_aside m c.disk c.seq victim e
                (record { parent = slot; file_name = victim.file_name })
        ]
  ]
