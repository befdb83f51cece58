-- ===== src/Transfer/Offer.antt =====
-- crates/zyris-capkit/src/transfer/peer.rs: what a call of push_offer is given, what it answers, and
-- where it can be in between.
use zyris_protocol.Prelude.{ℕ, Bool, true, false, Option, List, Bytes, Text, codes}
use zyris_protocol.Proto.Error.{
  ErrorCode, payload_too_large, other, invalid_params_code, internal_code,
}
use zyris_protocol.Transfer.Name.{Chars}
use zyris_protocol.Transfer.Part.{FilePath, part_path}
use zyris_protocol.Transfer.Disk.{Disk}
use zyris_protocol.Transfer.Undo.{Moves}

pub record TransferOffer : Type 0 where
  pub transfer_id : Text
  pub name : Chars
  pub size : ℕ
  pub sha256 : Text
  pub overwrite : Bool

pub record PullHead : Type 0 where
  pub size : ℕ
  pub sha256 : Text

pub record TransferDone : Type 0 where
  pub written : FilePath
  pub bytes : ℕ
  pub sha256 : Text
  pub replaced : Bool
  pub undo : Option FilePath

pub record AuditLine : Type 0 where
  pub peer_slug : Chars
  pub name : Chars
  pub bytes : ℕ
  pub sha256 : Text
  pub written : FilePath
  pub replaced : Bool
  pub undo : Option FilePath

-- The errors that push_offer returns.
pub data Refusal : Type 0 where
  too_large transfer_in_flight no_receiver bad_destination already_exists temp_is_link : Refusal
  pull_failed different_file io_failed oversent mismatch short_on_disk appeared : Refusal

unfoldable pub code_of : Refusal → ErrorCode
code_of too_large = payload_too_large
code_of transfer_in_flight = other (codes "transfer_in_flight")
code_of already_exists = invalid_params_code
code_of temp_is_link = invalid_params_code
code_of appeared = invalid_params_code
code_of _ = internal_code

-- An error of the peer's pull keeps its own mark.
unfoldable pub is_retriable : Refusal → Bool
is_retriable transfer_in_flight = true
is_retriable mismatch = true
is_retriable short_on_disk = true
is_retriable _ = false

-- A file that is written at its end, or from a position on.
pub record Handle : Type 0 where
  pub inode : ℕ
  pub append : Bool
  pub pos : ℕ

pub data Answer : Type 0 where
  done : TransferDone → Answer
  failed : Refusal → Answer
  -- The caller went away.
  dropped : Answer

-- Where a call is, with the variables that it still needs.
pub data Stage : Type 0 where
  offered : Stage
  claimed : Stage
  pulling : ℕ → Stage
  rereading : ℕ → Stage
  opening : ℕ → Bytes → Stage
  receiving : Handle → ℕ → Bytes → Stage
  verified : ℕ → Text → Stage
  stashed : ℕ → Text → Bool → Option FilePath → Stage
  returned : Answer → Stage

pub data Input : Type 0 where
  begin : Input
  resolves : Bool → Input
  answers : Option PullHead → Input
  reads : Bool → Input
  opens : Bool → Input
  -- An item of the stream, and how many of its bytes are written if writing fails.
  arrives : Option Bytes → Option ℕ → Input
  ends : Bool → Input
  rechecks : ℕ → Moves → Input
  renames : Bool → Input
  leaves : Input

pub record System : Type 0 where
  pub disk : Disk
  pub seq : ℕ
  -- `HashSet<String>`.
  pub in_flight : List (Text × Unit {0})
  pub audit : List AuditLine
  pub stage : ℕ → Stage

pub record Move : Type 0 where
  pub disk : Disk
  pub seq : ℕ
  pub audit : List AuditLine
  pub stage : Stage

unfoldable pub is_active : Stage → Bool
is_active offered = false
is_active (returned a) = false
is_active _ = true

pub record Config : Type 0 where
  pub hash : Bytes → Bytes
  pub digits : ℕ → Chars
  pub broken : Chars → Bool
  -- `TransferConfig::undo`, `max_file_bytes`.
  pub undo : Chars
  pub max_file_bytes : ℕ
  -- Whether set_peer was called.
  pub has_peer : Bool
  pub offer : ℕ → TransferOffer
  pub dest : ℕ → FilePath
  pub peer_slug : ℕ → Chars

unfoldable pub temp : Config → ℕ → FilePath
unfolding part_path
temp c i = part_path c.hash (c.dest i) (c.offer i).transfer_id
