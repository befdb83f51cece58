-- ===== src/Transfer/Receive/Handled.antt =====
-- crates/zyris-capkit/src/transfer/peer.rs: every step of one call of push_offer keeps what it knows
-- of its partial file, and touches no file but this, its destination and a new backup.
use zyris_protocol.Prelude.{
  ℕ, ◌≡◌, refl, sym, ap, ◌∙◌, ◌≢◌, ◌⊎◌, inl, inr, Bool, true, false, not, ◌&&◌, ◌||◌, Option, none,
  some, List, [], arith, ltb, ◌==◌, if◌then◌else◌, ==_refl, Bytes, text_eq, text_eq_refl, length,
  if-elim, if-cases,
}
use zyris_protocol.Transfer.Part.{FilePath}
use zyris_protocol.Transfer.Disk.{
  Disk, Entry, file, link, put, put_bytes, exists, is_symlink, len, remove_file, create,
}
use zyris_protocol.Transfer.Disk.Tidy.{
  IsTidy, path_eq_iff, names-put_same, put-none-IsTidy, create-IsTidy,
}
use zyris_protocol.Transfer.Undo.{create_dir}
use zyris_protocol.Transfer.Undo.Slot.{create_dir-IsTidy}
use zyris_protocol.Transfer.Offer.{
  PullHead, AuditLine, Refusal, Stage, rereading, opening, receiving, returned, failed, Config,
  Move, temp, bad_destination, already_exists, temp_is_link, io_failed, pull_failed, different_file,
}
use zyris_protocol.Transfer.Receive.{goes, fails, look, answer, reread}
use zyris_protocol.Transfer.Receive.Sound.{Holding, Resumed, IsPart, Keeps, Keeps-refl, temp-parent}

pub record GoodMove (c : Config) (i : ℕ) (d : Disk) (m : Move) : Type 0 where
  pub tidy : IsTidy m.disk
  pub others :
      (p : FilePath) → p ≢ temp c i → p ≢ c.dest i → d.dirs p.parent ≡ true → Keeps d m.disk p
  pub part : IsPart c i m.disk m.stage

module _ (c : Config) (i : ℕ) (d : Disk) (seq : ℕ) (audit : List AuditLine) (t : IsTidy d) where
  pub stays : (stage : Stage) → IsPart c i d stage → GoodMove c i d (goes c i d seq audit d stage)
  unfolding goes
  stays stage p = record { tidy = t; others = λ q h k l. Keeps-refl d q; part = p }

  pub fails-GoodMove : (r : Refusal) → GoodMove c i d (fails c i d seq audit d r)
  unfolding fails
  fails-GoodMove r = stays (returned (failed r)) tt

  pub removed : (r : Refusal) → GoodMove c i d (fails c i d seq audit (remove_file d (temp c i)) r)
  unfolding fails goes remove_file put
  removed r = record {
    tidy = put-none-IsTidy d (temp c i) t;
    others = λ q h k l. record {
      name = ground (arith, path_eq_iff (temp c i) q);
      content = λ n e. refl;
      dir = λ e. e;
    };
    part = tt;
  }

  there : Disk
  there = create_dir d (c.dest i).parent

  in_place :
      (stage : Stage) → IsPart c i there stage → GoodMove c i d (goes c i d seq audit there stage)
  unfolding goes there create_dir
  in_place stage p = record {
    tidy = create_dir-IsTidy d (c.dest i).parent t;
    others = λ q h k l. record { name = refl; content = λ n e. refl; dir = λ e. ground arith };
    part = p;
  }

  found :
      (e : Option Entry)
      → d.names (temp c i) ≡ e
      → is_symlink d (temp c i) ≡ false
      → (len d (temp c i) ≡ 0)
        ⊎ ((content : Bytes) × Holding c i d content × (length content ≡ len d (temp c i)))
  unfolding len is_symlink
  found none h plain = inl (ground arith)
  found (some (file n)) h plain = inr (d.bytes n, (n, h, refl), ground arith)
  found (some (link n)) h plain = absurd (ground arith)

  there_dir : there.dirs (temp c i).parent ≡ true
  unfolding there create_dir
  there_dir = ground (arith, temp-parent c i, text_eq_refl (c.dest i).parent)

  looked :
      is_symlink d (temp c i) ≡ false
      → Resumed c i there (if ltb (c.offer i).size (len d (temp c i)) then 0 else len d (temp c i))
  unfolding there create_dir
  looked plain = (
    there_dir,
    if-elim (λ n. (n ≡ 0) ⊎ ((b : Bytes) × Holding c i there b × (length b ≡ n)))
        (ltb (c.offer i).size (len d (temp c i))) (inl refl)
        (found (d.names (temp c i)) refl plain),
  )

  pub look-GoodMove : (b : Bool) → GoodMove c i d (look c i d seq audit b)
  unfolding look fails there
  look-GoodMove false = fails-GoodMove bad_destination
  look-GoodMove true =
      if-elim (GoodMove c i d) (exists d (c.dest i) && not (c.offer i).overwrite)
        (in_place (returned (failed already_exists)) tt)
        (if-cases (GoodMove c i d) (is_symlink d (temp c i))
          (λ linked. in_place (returned (failed temp_is_link)) tt)
          (λ plain. in_place _ (looked plain)))

  pub answer-GoodMove :
      (offset : ℕ) (head : Option PullHead)
      → Resumed c i d offset
      → GoodMove c i d (answer c i d seq audit offset head)
  unfolding answer
  answer-GoodMove offset none p = fails-GoodMove pull_failed
  answer-GoodMove offset (some head) (dir, from) =
      if-elim (GoodMove c i d)
        (not (text_eq head.sha256 (c.offer i).sha256) || not (head.size == (c.offer i).size))
        (fails-GoodMove different_file)
        (if-cases (GoodMove c i d) (ltb 0 offset)
          (λ more. elim from [
            | inl nothing ↦ absurd (ground arith)
            | inr (b, held, l) ↦ stays (rereading offset) (dir, b, held, l)
          ])
          (λ fresh. stays (opening offset []) (dir, inl (ground arith, refl))))

  pub reread-GoodMove :
      (offset : ℕ) (b : Bool)
      → (content : Bytes) → d.dirs (temp c i).parent ≡ true
      → Holding c i d content
      → length content ≡ offset
      → GoodMove c i d (reread c i d seq audit offset b)
  unfolding reread
  reread-GoodMove offset false content dir h l = fails-GoodMove io_failed
  reread-GoodMove offset true content dir (n, leads, same) l = by_entry (d.names (temp c i)) refl
    where
      by_entry :
          (e : Option Entry)
          → d.names (temp c i) ≡ e
          → GoodMove c i d (elim e [
            | some (file m) ↦ goes c i d seq audit d (opening offset (d.bytes m))
            | _ ↦ fails c i d seq audit d io_failed
          ])
      by_entry none k = fails-GoodMove io_failed
      by_entry (some (link m)) k = fails-GoodMove io_failed
      by_entry (some (file m)) k =
          stays (opening offset (d.bytes m)) (dir, inr ((m, k, refl), ground arith))

  -- A new or emptied partial file, or one that is written at its end.
  pub opened_new :
      (append : Bool) (offset : ℕ) (hashed : Bytes)
      → d.dirs (temp c i).parent ≡ true
      → offset ≡ 0
      → hashed ≡ []
      → GoodMove c i d (
          goes c i d seq audit
            (create d (temp c i) [])
            (receiving (record { inode = d.next; append = append; pos = 0 }) offset hashed))
  unfolding goes create put put_bytes
  opened_new append offset hashed dir none_yet empty = record {
    tidy = create-IsTidy d (temp c i) [] t dir;
    others = λ q h k l. record {
      name = ground (arith, path_eq_iff (temp c i) q);
      content = λ n e. ground (arith, t.known q n e);
      dir = λ e. e;
    };
    part = record {
      leads = names-put_same d (temp c i) (some (file d.next));
      same = rw (==_refl d.next) (sym empty);
      counted = ap length empty ∙ sym none_yet;
      place = λ e. sym none_yet;
    };
  }

  -- The bytes of the partial file are replaced.
  pub rewritten :
      (n : ℕ) (content : Bytes) (stage : Stage)
      → d.names (temp c i) ≡ some (file n)
      → IsPart c i (put_bytes d n content) stage
      → GoodMove c i d (goes c i d seq audit (put_bytes d n content) stage)
  unfolding goes put_bytes
  rewritten n content stage leads p = record {
    tidy = record { filed = t.filed; known = t.known; single = t.single };
    others = λ q h k l. record {
      name = refl;
      content = λ m e. ground (arith, t.single q (temp c i) m e);
      dir = λ e. e;
    };
    part = p;
  }
