-- ===== src/Transfer/Receive.antt =====
-- crates/zyris-capkit/src/transfer/peer.rs: push_offer, the receiving side of a transfer, as a machine
-- that any number of calls step through on one disk and one set of transfers in flight. A step stands
-- for what a call does between two answers from outside; the input of a step says how the calls of
-- the file system and of the peer end. SHA-256, the decimal form of a number and the directories that
-- cannot be created are parameters; so are the offers and where Inbox::resolve puts them. Permissions
-- and times are left out, and lengths do not reach 2^64.
pub mod Calls
pub mod Sound
pub mod Handled
pub mod Written
pub mod Placed
pub mod Delivered
pub mod Invariant
pub mod Integrity
pub mod Completes
pub mod Reopened
pub mod Resumes
use zyris_protocol.Prelude.{
  ℕ, ◌+◌, Bool, true, false, not, ◌&&◌, ◌||◌, Option, none, some, List, [], ◌∷◌, ◌++◌, ltb, ◌==◌,
  if◌then◌else◌, Bytes, Text, text_eq, length, take, drop, replicate,
}
use zyris_protocol.Proto.Attach.{digest}
use zyris_protocol.Transfer.Part.{FilePath}
use zyris_protocol.Transfer.Disk.{
  Disk, file, exists, is_symlink, len, remove_file, rename, open_file, put_bytes,
}
use zyris_protocol.Transfer.Undo.{Moves, create_dir, stash}
use zyris_protocol.Transfer.Offer.{
  PullHead, AuditLine, Refusal, bad_destination, already_exists, temp_is_link, pull_failed,
  different_file, io_failed, oversent, mismatch, short_on_disk, appeared, Handle, done, failed,
  dropped, Stage, claimed, pulling, rereading, opening, receiving, verified, stashed, returned,
  Input, resolves, answers, reads, opens, arrives, ends, rechecks, renames, leaves, Move, Config,
  temp,
}

-- `write_all` at the handle's place; a gap in front of it would be zeros.
unfoldable pub write_at : Handle → Bytes → Bytes → Bytes
write_at h content chunk =
    if h.append
    then content ++ chunk
    else take h.pos (content ++ replicate h.pos 0) ++ (chunk ++ drop (h.pos + length chunk) content)

unfoldable pub written_on : Disk → Handle → Bytes → Disk
unfolding write_at put_bytes
written_on d h chunk = put_bytes d h.inode (write_at h (d.bytes h.inode) chunk)

-- One call on the disk.
module _ (c : Config) (i : ℕ) (d : Disk) (seq : ℕ) (audit : List AuditLine) where
  unfoldable pub goes : Disk → Stage → Move
  goes disk stage = record { disk = disk; seq = seq; audit = audit; stage = stage }

  unfoldable pub fails : Disk → Refusal → Move
  unfolding goes
  fails disk r = goes disk (returned (failed r))

  -- Up to the call of pull.
  unfoldable pub look : Bool → Move
  unfolding fails goes create_dir exists is_symlink len
  look false = fails d bad_destination
  look true =
      let there = create_dir d (c.dest i).parent in
      let file_len = len d (temp c i) in
      if exists d (c.dest i) && not (c.offer i).overwrite
      then fails there already_exists
      else if is_symlink d (temp c i)
      then fails there temp_is_link
      else goes there (pulling (if ltb (c.offer i).size file_len then 0 else file_len))

  unfoldable pub answer : ℕ → Option PullHead → Move
  unfolding fails goes
  answer offset none = fails d pull_failed
  answer offset (some head) =
      if not (text_eq head.sha256 (c.offer i).sha256) || not (head.size == (c.offer i).size)
      then fails d different_file
      else if ltb 0 offset
      then goes d (rereading offset)
      else goes d (opening offset [])

  -- What was received before goes into the hash.
  unfoldable pub reread : ℕ → Bool → Move
  unfolding fails goes
  reread offset false = fails d io_failed
  reread offset true = elim (d.names (temp c i)) [
    | some (file n) ↦ goes d (opening offset (d.bytes n))
    | _ ↦ fails d io_failed
  ]

  unfoldable pub open_part : ℕ → Bytes → Bool → Move
  unfolding fails goes open_file
  open_part offset hashed false = fails d io_failed
  open_part offset hashed true = elim (open_file d (temp c i) (ltb 0 offset)) [
    | none ↦ fails d io_failed
    | some (opened, n) ↦
        goes opened (receiving (record { inode = n; append = ltb 0 offset; pos = 0 }) offset hashed)
  ]

  unfoldable pub receive : Handle → ℕ → Bytes → Option Bytes → Option ℕ → Move
  unfolding fails goes written_on remove_file
  receive h written hashed none wrote = fails d pull_failed
  receive h written hashed (some chunk) wrote =
      if ltb (c.offer i).size (written + length chunk)
      then fails (remove_file d (temp c i)) oversent
      else elim wrote [
        | some n ↦ fails (written_on d h (take n chunk)) io_failed
        | none ↦ goes (written_on d h chunk) (
            receiving (record h { pos = h.pos + length chunk }) (written + length chunk)
              (hashed ++ chunk))
      ]

  -- The digest, and the length of what is on disk.
  unfoldable pub verify : ℕ → Bytes → Bool → Move
  unfolding fails goes remove_file len digest
  verify written hashed false = fails d io_failed
  verify written hashed true =
      let actual = digest c.hash hashed in
      if not (text_eq actual (c.offer i).sha256)
      then fails (remove_file d (temp c i)) mismatch
      else if not (len d (temp c i) == (c.offer i).size)
      then fails (remove_file d (temp c i)) short_on_disk
      else goes d (verified written actual)

  -- Whether the destination has appeared, and the stash of what stands there.
  unfoldable pub recheck : ℕ → Text → ℕ → Moves → Move
  unfolding fails goes remove_file exists
  recheck written actual now m =
      if exists d (c.dest i)
      then if (c.offer i).overwrite
        then (let s = stash c.digits c.undo c.broken now m d seq (c.dest i) in
            record {
              disk = s.disk;
              seq = s.seq;
              audit = audit;
              stage = stashed written actual true s.undo;
            })
        else fails (remove_file d (temp c i)) appeared
      else goes d (stashed written actual false none)

  unfoldable pub rename_in : ℕ → Text → Bool → Option FilePath → Bool → Move
  unfolding fails goes rename
  rename_in written actual replaced undo false = fails d io_failed
  rename_in written actual replaced undo true = elim (rename d (temp c i) (c.dest i)) [
    | none ↦ fails d io_failed
    | some moved ↦ record {
      disk = moved;
      seq = seq;
      audit =
          audit
          ++ (record {
            peer_slug = c.peer_slug i;
            name = (c.offer i).name;
            bytes = written;
            sha256 = actual;
            written = c.dest i;
            replaced = replaced;
            undo = undo;
          }
              ∷ []);
      stage = returned (
          done (record {
            written = c.dest i;
            bytes = written;
            sha256 = actual;
            replaced = replaced;
            undo = undo;
          }));
    }
  ]

  -- An active call; an input that it does not wait for changes nothing.
  unfoldable pub handle : Stage → Input → Move
  unfolding goes
  handle stage leaves = goes d (returned dropped)
  handle claimed (resolves b) = look b
  handle (pulling offset) (answers head) = answer offset head
  handle (rereading offset) (reads b) = reread offset b
  handle (opening offset hashed) (opens b) = open_part offset hashed b
  handle (receiving h written hashed) (arrives chunk wrote) = receive h written hashed chunk wrote
  handle (receiving h written hashed) (ends b) = verify written hashed b
  handle (verified written actual) (rechecks now m) = recheck written actual now m
  handle (stashed written actual replaced undo) (renames b) =
      rename_in written actual replaced undo b
  handle stage _ = goes d stage
