-- ===== src/Transfer/Receive/Placed.antt =====
-- crates/zyris-capkit/src/transfer/peer.rs: the last steps of push_offer, and every step of a call.
use zyris_protocol.Prelude.{
  ℕ, ◌≡◌, refl, subst, ◌≢◌, inl, inr, Bool, true, false, Option, none, some, List, arith,
  Option-cases, Text, if-elim, Option-branches,
}
use zyris_protocol.Transfer.Part.{FilePath}
use zyris_protocol.Transfer.Disk.{Disk, Entry, file, put, exists, rename}
use zyris_protocol.Transfer.Disk.Tidy.{IsTidy, path_eq_iff, rename-IsTidy}
use zyris_protocol.Transfer.Undo.{Moves, Stashed}
use zyris_protocol.Transfer.Undo.Saved.{IsStashed, stash-IsStashed}
use zyris_protocol.Transfer.Offer.{
  AuditLine, Stage, claimed, pulling, rereading, opening, receiving, verified, stashed, returned,
  dropped, Input, resolves, answers, reads, opens, arrives, ends, rechecks, renames, leaves, Config,
  temp, io_failed, appeared,
}
use zyris_protocol.Transfer.Receive.{recheck, rename_in, handle}
use zyris_protocol.Transfer.Receive.Sound.{Matches, IsPart, Keeps, IsPart-Keeps, temp-parent}
use zyris_protocol.Transfer.Receive.Handled.{
  GoodMove, stays, fails-GoodMove, removed, look-GoodMove, answer-GoodMove, reread-GoodMove,
}
use zyris_protocol.Transfer.Receive.Written.{open_part-GoodMove, receive-GoodMove, verify-GoodMove}

rename-Keeps :
    (d d' : Disk) (p q r : FilePath) → rename d p q ≡ some d' → r ≢ p → r ≢ q → Keeps d d' r
unfolding rename put
rename-Keeps d d' p q r h k l = elim (Option-cases (d.names p)) [
  | inl gone ↦ absurd (ground arith)
  | inr (e, at_p) ↦
      subst (λ x. Keeps d x r) (moved_to e at_p)
        (record {
          name = ground (arith, path_eq_iff p r, path_eq_iff q r);
          content = λ n f. refl;
          dir = λ f. f;
        })
]
  where
    moved_to : (e : Entry) → d.names p ≡ some e → put (put d p none) q (some e) ≡ d'
    moved_to e at_p = ground arith

module _ (c : Config) (i : ℕ) (d : Disk) (seq : ℕ) (audit : List AuditLine) (t : IsTidy d)
    (apart : temp c i ≢ c.dest i) where
  pub stash-Keeps :
      (r : Stashed) (p : FilePath)
      → IsStashed d (c.dest i) r
      → p ≢ c.dest i
      → d.dirs p.parent ≡ true
      → Keeps d r.disk p
  stash-Keeps r p s other there = record {
    name = s.untouched p other there;
    content = λ n e. s.same_bytes n (t.known p n e);
    dir = s.grown p.parent;
  }

  part_dir :
      {written : ℕ} {actual : Text} → Matches c i d written actual → d.dirs (temp c i).parent ≡ true
  part_dir m = t.filed (temp c i) (file m.held.0) m.held.1

  recheck-GoodMove :
      (written : ℕ) (actual : Text) (now : ℕ) (moves : Moves)
      → Matches c i d written actual
      → GoodMove c i d (recheck c i d seq audit written actual now moves)
  unfolding recheck
  recheck-GoodMove written actual now moves m =
      let s = stash-IsStashed c.digits c.undo c.broken now moves d seq (c.dest i) t in
      if-elim (GoodMove c i d) (exists d (c.dest i))
        (if-elim (GoodMove c i d) (c.offer i).overwrite
          (record {
            tidy = s.tidy;
            others = λ p h k l. stash-Keeps _ p s k l;
            part =
                IsPart-Keeps c i d _ (stash-Keeps _ (temp c i) s apart (part_dir m))
                  (verified written actual) m;
          })
          (removed c i d seq audit t appeared))
        (stays c i d seq audit t (stashed written actual false none) m)

  rename_in-GoodMove :
      (written : ℕ) (actual : Text) (replaced : Bool) (undo : Option FilePath) (b : Bool)
      → Matches c i d written actual
      → GoodMove c i d (rename_in c i d seq audit written actual replaced undo b)
  unfolding rename_in
  rename_in-GoodMove written actual replaced undo false m =
      fails-GoodMove c i d seq audit t io_failed
  rename_in-GoodMove written actual replaced undo true m =
      Option-branches (GoodMove c i d) (rename d (temp c i) (c.dest i))
        (λ gone. fails-GoodMove c i d seq audit t io_failed)
        (λ moved e. record {
          tidy =
              rename-IsTidy d moved (temp c i) (c.dest i) t
                (subst (λ dir. d.dirs dir ≡ true) (temp-parent c i) (part_dir m)) e;
          others = λ p h k l. rename-Keeps d moved (temp c i) (c.dest i) p e h k;
          part = tt;
        })

  pub handle-GoodMove :
      (stage : Stage) (input : Input)
      → IsPart c i d stage
      → GoodMove c i d (handle c i d seq audit stage input)
  unfolding handle
  handle-GoodMove stage leaves p = stays c i d seq audit t (returned dropped) tt
  handle-GoodMove claimed (resolves b) p = look-GoodMove c i d seq audit t b
  handle-GoodMove (pulling offset) (answers head) p =
      answer-GoodMove c i d seq audit t offset head p
  handle-GoodMove (rereading offset) (reads b) (dir, content, held, l) =
      reread-GoodMove c i d seq audit t offset b content dir held l
  handle-GoodMove (opening offset hashed) (opens b) p =
      open_part-GoodMove c i d seq audit t offset hashed b p
  handle-GoodMove (receiving h written hashed) (arrives chunk wrote) p =
      receive-GoodMove c i d seq audit t h written hashed chunk wrote p
  handle-GoodMove (receiving h written hashed) (ends b) p =
      verify-GoodMove c i d seq audit t h written hashed b p
  handle-GoodMove (verified written actual) (rechecks now m) p =
      recheck-GoodMove written actual now m p
  handle-GoodMove (stashed written actual replaced undo) (renames b) p =
      rename_in-GoodMove written actual replaced undo b p
  handle-GoodMove stage _ p = stays c i d seq audit t stage p
