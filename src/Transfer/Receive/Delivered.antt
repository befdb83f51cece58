-- ===== src/Transfer/Receive/Delivered.antt =====
-- crates/zyris-capkit/src/transfer/peer.rs: what push_offer has put in place when it answers.
use zyris_protocol.Prelude.{
  ℕ, ◌≡◌, refl, ap, ◌∙◌, Bool, true, false, Option, some, List, [], ◌∷◌, ◌++◌, arith, Bytes, Text,
  length, Option-branches,
}
use zyris_protocol.Proto.Attach.{digest}
use zyris_protocol.Transfer.Part.{FilePath}
use zyris_protocol.Transfer.Disk.{Disk, file, put, rename, holds, seen}
use zyris_protocol.Transfer.Disk.Tidy.{path_eq_refl}
use zyris_protocol.Transfer.Offer.{
  TransferDone, AuditLine, Stage, claimed, pulling, rereading, opening, receiving, verified,
  stashed, returned, done, Input, resolves, answers, reads, opens, arrives, ends, rechecks, renames,
  leaves, Config, Move, temp,
}
use zyris_protocol.Transfer.Receive.{
  goes, fails, look, answer, reread, open_part, receive, verify, recheck, rename_in, handle,
}
use zyris_protocol.Transfer.Receive.Sound.{Matches, IsPart}

-- The file at the destination is the one that was offered, and the answer says so.
pub record Delivered (c : Config) (i : ℕ) (d : Disk) (audit : List AuditLine) (r : TransferDone)
    : Type 0 where
  pub content : Bytes
  pub at_dest : seen d (c.dest i) ≡ some (holds content)
  pub digested : digest c.hash content ≡ (c.offer i).sha256
  pub measured : length content ≡ (c.offer i).size
  pub told_digest : r.sha256 ≡ (c.offer i).sha256
  pub told_size : r.bytes ≡ (c.offer i).size
  pub told_place : r.written ≡ c.dest i
  pub before : List AuditLine
  pub logged :
      audit
      ≡ before
        ++ (record {
          peer_slug = c.peer_slug i;
          name = (c.offer i).name;
          bytes = r.bytes;
          sha256 = r.sha256;
          written = r.written;
          replaced = r.replaced;
          undo = r.undo;
        }
            ∷ [])

unfoldable pub is_done : Stage → Bool
is_done (returned (done r)) = true
is_done _ = false

seen-rename :
    (d d' : Disk) (p q : FilePath) (n : ℕ)
    → rename d p q ≡ some d'
    → d.names p ≡ some (file n)
    → seen d' q ≡ some (holds (d.bytes n))
unfolding rename put seen
seen-rename d d' p q n h k = ground (arith, path_eq_refl q)

module _ (c : Config) (i : ℕ) (d : Disk) (seq : ℕ) (audit : List AuditLine) where
  unfoldable pub Tells : Move → Type 0
  Tells m = (r : TransferDone) → m.stage ≡ returned (done r) → Delivered c i m.disk m.audit r

  rename_in-Tells :
      (written : ℕ) (actual : Text) (replaced : Bool) (undo : Option FilePath) (b : Bool)
      → Matches c i d written actual
      → Tells (rename_in c i d seq audit written actual replaced undo b)
  unfolding rename_in Tells
  rename_in-Tells written actual replaced undo false m r e = absurd (ground arith)
  rename_in-Tells written actual replaced undo true m r told =
      Option-branches Tells (rename d (temp c i) (c.dest i)) (λ gone s e. absurd (ground arith))
        (λ moved e s tells. record {
          content = m.content;
          at_dest =
              seen-rename d moved (temp c i) (c.dest i) m.held.0 e m.held.1
              ∙ ap (λ b. some (holds b)) m.held.2;
          digested = m.digested;
          measured = m.measured;
          told_digest = ground (arith, m.reported);
          told_size = ground (arith, m.counted);
          told_place = ground arith;
          before = audit;
          logged = ground arith;
        })
        r told

  quiet-Tells : (m : Move) → is_done m.stage ≡ false → Tells m
  unfolding Tells is_done
  quiet-Tells m h r e = absurd (ground arith)

  look-quiet : (b : Bool) → is_done (look c i d seq audit b).stage ≡ false
  unfolding look is_done fails goes
  look-quiet b = ground arith

  answer-quiet :
      (offset : ℕ) (head : _) → is_done (answer c i d seq audit offset head).stage ≡ false
  unfolding answer is_done fails goes
  answer-quiet offset head = ground arith

  reread-quiet : (offset : ℕ) (b : Bool) → is_done (reread c i d seq audit offset b).stage ≡ false
  unfolding reread is_done fails goes
  reread-quiet offset b = ground arith

  open_part-quiet :
      (offset : ℕ) (hashed : Bytes) (b : Bool)
      → is_done (open_part c i d seq audit offset hashed b).stage ≡ false
  unfolding open_part is_done fails goes
  open_part-quiet offset hashed b = ground arith

  receive-quiet :
      (h : _) (written : ℕ) (hashed : Bytes) (chunk : Option Bytes) (wrote : Option ℕ)
      → is_done (receive c i d seq audit h written hashed chunk wrote).stage ≡ false
  unfolding receive is_done fails goes
  receive-quiet h written hashed chunk wrote = ground arith

  verify-quiet :
      (written : ℕ) (hashed : Bytes) (b : Bool)
      → is_done (verify c i d seq audit written hashed b).stage ≡ false
  unfolding verify is_done fails goes
  verify-quiet written hashed b = ground arith

  recheck-quiet :
      (written : ℕ) (actual : Text) (now : ℕ) (m : _)
      → is_done (recheck c i d seq audit written actual now m).stage ≡ false
  unfolding recheck is_done fails goes
  recheck-quiet written actual now m = ground arith

  -- A call that is not over yet answers only once its file is in place.
  pub handle-Tells :
      (stage : Stage) (input : Input)
      → IsPart c i d stage
      → is_done stage ≡ false
      → Tells (handle c i d seq audit stage input)
  unfolding handle goes is_done
  handle-Tells (stashed written actual replaced undo) (renames b) m h =
      rename_in-Tells written actual replaced undo b m
  handle-Tells stage leaves m h = quiet-Tells _ refl
  handle-Tells claimed (resolves b) m h = quiet-Tells _ (look-quiet b)
  handle-Tells (pulling offset) (answers head) m h = quiet-Tells _ (answer-quiet offset head)
  handle-Tells (rereading offset) (reads b) m h = quiet-Tells _ (reread-quiet offset b)
  handle-Tells (opening offset hashed) (opens b) m h =
      quiet-Tells _ (open_part-quiet offset hashed b)
  handle-Tells (receiving g written hashed) (arrives chunk wrote) m h =
      quiet-Tells _ (receive-quiet g written hashed chunk wrote)
  handle-Tells (receiving g written hashed) (ends b) m h =
      quiet-Tells _ (verify-quiet written hashed b)
  handle-Tells (verified written actual) (rechecks now moves) m h =
      quiet-Tells _ (recheck-quiet written actual now moves)
  handle-Tells stage _ m h = quiet-Tells _ h
