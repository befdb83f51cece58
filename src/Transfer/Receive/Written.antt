-- ===== src/Transfer/Receive/Written.antt =====
-- crates/zyris-capkit/src/transfer/peer.rs: the steps of push_offer from the opening of the partial
-- file to the rename.
use zyris_protocol.Prelude.{
  ℕ, ◌+◌, ◌≡◌, refl, sym, ap, ◌∙◌, ◌⊎◌, inl, inr, Bool, true, false, not, Option, none, some, List,
  [], ◌∷◌, ◌++◌, arith, ltb, ◌==◌, if◌then◌else◌, ==_refl, Bytes, text_eq, text_eq_iff, length,
  length-append, take, drop, replicate, drop_all, if-elim, if-cases, Option-elim,
}
use mathlib.Core.List.{append-nil}
use zyris_protocol.Proto.Attach.{digest}
use zyris_protocol.Transfer.Disk.{Disk, Entry, file, link, put_bytes, len, create, open_file}
use zyris_protocol.Transfer.Disk.Tidy.{IsTidy}
use zyris_protocol.Transfer.Offer.{
  AuditLine, receiving, verified, returned, failed, Handle, Config, temp, io_failed, pull_failed,
  oversent, mismatch, short_on_disk,
}
use zyris_protocol.Transfer.Receive.{goes, fails, open_part, write_at, written_on, receive, verify}
use zyris_protocol.Transfer.Receive.Sound.{Holding, Opening, Receiving, Matches}
use zyris_protocol.Transfer.Receive.Handled.{
  GoodMove, stays, fails-GoodMove, removed, opened_new, rewritten,
}

take_front : (xs ys : Bytes) → take (length xs) (xs ++ ys) ≡ xs
take_front [] ys = refl
take_front (x ∷ xs) ys = ap (λ t. x ∷ t) (take_front xs ys)

length_zero : (b : Bytes) → length b ≡ 0 → b ≡ []
length_zero [] h = refl
length_zero (x ∷ b) h = absurd (omega (arith, h))

-- At the end of the content, a handle of either kind appends.
write_at-end :
    (h : Handle) (content chunk : Bytes)
    → (h.append ≡ false → h.pos ≡ length content)
    → write_at h content chunk ≡ content ++ chunk
unfolding write_at
write_at-end h content chunk place =
    if-cases (λ b. b ≡ content ++ chunk) h.append (λ e. refl)
      (λ e.
        ap (λ n. take n (content ++ replicate n 0) ++ (chunk ++ drop (n + length chunk) content))
          (place e)
        ∙ ap (λ t. t ++ (chunk ++ drop (length content + length chunk) content))
            (take_front content (replicate (length content) 0))
        ∙ ap (λ t. content ++ (chunk ++ t))
            (drop_all (length content + length chunk) content (omega arith))
        ∙ ap (λ t. content ++ t) (append-nil chunk))

module _ (c : Config) (i : ℕ) (d : Disk) (seq : ℕ) (audit : List AuditLine) (t : IsTidy d) where
  module _ (offset : ℕ) (hashed : Bytes) (dir : d.dirs (temp c i).parent ≡ true)
      (from : (offset ≡ 0) × (hashed ≡ []) ⊎ Holding c i d hashed × (length hashed ≡ offset)) where
    handle_of : ℕ → Handle
    handle_of n = record { inode = n; append = ltb 0 offset; pos = 0 }

    new_part :
        d.names (temp c i) ≡ none
        → GoodMove c i d (
            goes c i d seq audit
              (create d (temp c i) [])
              (receiving (handle_of d.next) offset hashed))
    unfolding handle_of
    new_part k = elim from [
      | inl (none_yet, empty) ↦
          opened_new c i d seq audit t (ltb 0 offset) offset hashed dir none_yet empty
      | inr ((n, leads, same), l) ↦ absurd (ground arith)
    ]

    resumed :
        (m : ℕ)
        → d.names (temp c i) ≡ some (file m)
        → ltb 0 offset ≡ true
        → Receiving c i d (handle_of m) offset hashed
    unfolding handle_of
    resumed m k more = elim from [
      | inl (none_yet, empty) ↦ absurd (ground arith)
      | inr ((n, leads, same), l) ↦ record {
        leads = k;
        same = ground arith;
        counted = l;
        place = λ e. ground arith;
      }
    ]

    nothing_hashed : ltb 0 offset ≡ false → hashed ≡ []
    nothing_hashed fresh = elim from [
      | inl (none_yet, empty) ↦ empty
      | inr (held, l) ↦ length_zero hashed (ground arith)
    ]

    emptied :
        (m : ℕ)
        → d.names (temp c i) ≡ some (file m)
        → ltb 0 offset ≡ false
        → Receiving c i (put_bytes d m []) (handle_of m) offset hashed
    unfolding handle_of put_bytes
    emptied m k fresh = record {
      leads = k;
      same = ground (arith, nothing_hashed fresh);
      counted = ground (arith, nothing_hashed fresh);
      place = λ e. ground arith;
    }

    opened_by :
        (e : Option Entry)
        → d.names (temp c i) ≡ e
        → let o : Option (Disk × ℕ) = elim e [
          | none ↦ some (create d (temp c i) [], d.next)
          | some (file n) ↦ some ((if ltb 0 offset then d else put_bytes d n []), n)
          | some (link n) ↦ none
        ] in
          GoodMove c i d (elim o [
            | none ↦ fails c i d seq audit d io_failed
            | some (opened, n) ↦ goes c i d seq audit opened (receiving (handle_of n) offset hashed)
          ])
    opened_by none k = new_part k
    opened_by (some (link m)) k = fails-GoodMove c i d seq audit t io_failed
    opened_by (some (file m)) k =
        if-cases
          (λ o. GoodMove c i d (goes c i d seq audit o (receiving (handle_of m) offset hashed)))
          (ltb 0 offset) (λ more. stays c i d seq audit t _ (resumed m k more))
          (λ fresh. rewritten c i d seq audit t m [] _ k (emptied m k fresh))

  pub open_part-GoodMove :
      (offset : ℕ) (hashed : Bytes) (b : Bool)
      → Opening c i d offset hashed
      → GoodMove c i d (open_part c i d seq audit offset hashed b)
  unfolding open_part open_file handle_of
  open_part-GoodMove offset hashed false p = fails-GoodMove c i d seq audit t io_failed
  open_part-GoodMove offset hashed true (dir, from) =
      opened_by offset hashed dir from (d.names (temp c i)) refl

  appended :
      {h : Handle} {written : ℕ} {hashed : Bytes} (chunk : Bytes)
      → Receiving c i d h written hashed
      → Receiving c i
          (put_bytes d h.inode (write_at h (d.bytes h.inode) chunk))
          (record h { pos = h.pos + length chunk })
          (written + length chunk)
          (hashed ++ chunk)
  unfolding put_bytes
  appended {h} {written} {hashed} chunk r = record {
    leads = r.leads;
    same = rw (==_refl h.inode) (
        write_at-end h (d.bytes h.inode) chunk
          (λ e. r.place e ∙ sym r.counted ∙ ap length (sym r.same))
        ∙ ap (λ b. b ++ chunk) r.same);
    counted = omega (arith, length-append hashed chunk, r.counted);
    place = λ e. omega (arith, r.place e);
  }

  pub receive-GoodMove :
      (h : Handle) (written : ℕ) (hashed : Bytes) (chunk : Option Bytes) (wrote : Option ℕ)
      → Receiving c i d h written hashed
      → GoodMove c i d (receive c i d seq audit h written hashed chunk wrote)
  unfolding receive written_on
  receive-GoodMove h written hashed none wrote r = fails-GoodMove c i d seq audit t pull_failed
  receive-GoodMove h written hashed (some chunk) wrote r =
      if-elim (GoodMove c i d) (ltb (c.offer i).size (written + length chunk))
        (removed c i d seq audit t oversent)
        (Option-elim (GoodMove c i d) wrote
          (rewritten c i d seq audit t h.inode _
            (receiving (record h { pos = h.pos + length chunk }) (written + length chunk)
              (hashed ++ chunk))
            r.leads (appended chunk r))
          (λ n e. rewritten c i d seq audit t h.inode _ (returned (failed io_failed)) r.leads tt))

  matched :
      {h : Handle} {written : ℕ} {hashed : Bytes}
      → Receiving c i d h written hashed
      → not (text_eq (digest c.hash hashed) (c.offer i).sha256) ≡ false
      → not (len d (temp c i) == (c.offer i).size) ≡ false
      → Matches c i d written (digest c.hash hashed)
  unfolding len
  matched {h} {written} {hashed} r good whole =
      let same = (text_eq_iff (digest c.hash hashed) (c.offer i).sha256).0 (ground arith) in
      let long : length hashed ≡ (c.offer i).size = ground (arith, r.leads, r.same) in
      record {
        content = hashed;
        held = (h.inode, r.leads, r.same);
        digested = same;
        measured = long;
        reported = same;
        counted = sym r.counted ∙ long;
      }

  pub verify-GoodMove :
      (h : Handle) (written : ℕ) (hashed : Bytes) (b : Bool)
      → Receiving c i d h written hashed
      → GoodMove c i d (verify c i d seq audit written hashed b)
  unfolding verify
  verify-GoodMove h written hashed false r = fails-GoodMove c i d seq audit t io_failed
  verify-GoodMove h written hashed true r =
      if-cases (GoodMove c i d) (not (text_eq (digest c.hash hashed) (c.offer i).sha256))
        (λ bad. removed c i d seq audit t mismatch)
        (λ good.
          if-cases (GoodMove c i d) (not (len d (temp c i) == (c.offer i).size))
            (λ short. removed c i d seq audit t short_on_disk)
            (λ whole.
              stays c i d seq audit t (verified written (digest c.hash hashed))
                (matched r good whole)))
