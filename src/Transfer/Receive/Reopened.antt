-- ===== src/Transfer/Receive/Reopened.antt =====
-- crates/zyris-capkit/src/transfer/peer.rs: a transfer from the opening of its partial file on.
use zyris_protocol.Prelude.{
  ℕ, ◌+◌, ◌≤◌, ◌≡◌, refl, sym, ap, ◌∙◌, subst, ◌≢◌, inr, true, Option, none, some, List, [], ◌∷◌,
  ◌++◌, arith, ltb, if◌then◌else◌, Bytes, length, length-append, if-elim,
}
use mathlib.Core.List.{append-nil, append_assoc}
use zyris_protocol.Core.Blobs.Hydrated.{joined}
use zyris_protocol.Proto.Attach.{digest}
use zyris_protocol.Transfer.Disk.{
  Disk, Entry, file, link, put, put_bytes, create, exists, is_symlink, open_file,
}
use zyris_protocol.Transfer.Disk.Tidy.{IsTidy, path_eq_iff, path_eq_refl}
use zyris_protocol.Transfer.Undo.{Moves}
use zyris_protocol.Transfer.Offer.{
  rereading, opening, receiving, Handle, reads, opens, arrives, System, Config, Move, temp,
  io_failed, is_active,
}
use zyris_protocol.Transfer.Receive.{goes, fails, written_on, reread, open_part, receive, handle}
use zyris_protocol.Transfer.Receive.Calls.{run}
use zyris_protocol.Transfer.Receive.Sound.{Holding, Opening, Receiving, IsPart}
use zyris_protocol.Transfer.Receive.Handled.{GoodMove}
use zyris_protocol.Transfer.Receive.Placed.{handle-GoodMove}
use zyris_protocol.Transfer.Receive.Completes.{
  events, streamed, Delivers, Ready, handled, goes_on, goes_to, ended,
}

-- The peer has what it offered.
module _ (c : Config) (i : ℕ) (bytes : Bytes) (now : ℕ) (m : Moves) (apart : temp c i ≢ c.dest i)
    (sha : (c.offer i).sha256 ≡ digest c.hash bytes) (size : (c.offer i).size ≡ length bytes) where
  fits :
      (hashed b rest : Bytes)
      → hashed ++ (b ++ rest) ≡ bytes
      → length hashed + length b ≤ (c.offer i).size
  fits hashed b rest e =
      omega (arith, length-append hashed (b ++ rest), length-append b rest, ap length e, size)

  streams :
      (chunks : List Bytes) (s : System) (h : Handle) (written : ℕ) (hashed : Bytes)
      → IsTidy s.disk
      → s.stage i ≡ receiving h written hashed
      → Ready c i s.disk
      → Receiving c i s.disk h written hashed
      → hashed ++ joined chunks ≡ bytes
      → Delivers c i bytes (run c s (events i (streamed now m chunks)))
  unfolding streamed joined handle is_active receive goes Ready exists is_symlink written_on
      put_bytes
  streams [] s h written hashed t at ready r whole =
      let all = sym (append-nil hashed) ∙ whole in
      ended c i bytes now m s h written apart t (at ∙ ap (receiving h written) all) ready
        (subst (Receiving c i s.disk h written) all r) sha size
  streams (b ∷ chunks) s h written hashed t at ready r whole =
      goes_to c i bytes s (arrives (some b) none) (streamed now m chunks)
        (receiving h written hashed)
        (goes c i s.disk s.seq s.audit (written_on s.disk h b)
          (receiving (record h { pos = h.pos + length b }) (written + length b) (hashed ++ b)))
        (λ d.
          IsTidy d
          × Ready c i d
          × Receiving c i d (record h { pos = h.pos + length b }) (written + length b)
              (hashed ++ b))
        (λ e. ground arith) at refl made
        (let g = subst (GoodMove c i s.disk) made (
            handle-GoodMove c i s.disk s.seq s.audit t apart (receiving h written hashed)
              (arrives (some b) none) r) in
          (g.tidy, ready, g.part))
        (λ u at' (tidy, fine, kept).
          streams chunks u (record h { pos = h.pos + length b }) (written + length b) (hashed ++ b)
            tidy at' fine kept (append_assoc hashed b (joined chunks) ∙ whole))
    where
      made :
          handled c i s (receiving h written hashed) (arrives (some b) none)
          ≡ goes c i s.disk s.seq s.audit
              (written_on s.disk h b)
              (receiving (record h { pos = h.pos + length b }) (written + length b) (hashed ++ b))
      made = ground (arith, fits hashed b (joined chunks) whole, r.counted)

  -- The partial file is opened.
  Opened : ℕ → Bytes → Move → Type 0
  Opened offset hashed move =
      (h : Handle) × (move.stage ≡ receiving h offset hashed) × Ready c i move.disk

  open_part-Opened :
      (s : System) (offset : ℕ) (hashed : Bytes)
      → Ready c i s.disk
      → Opened offset hashed (open_part c i s.disk s.seq s.audit offset hashed true)
  unfolding open_part open_file Opened Ready goes create put put_bytes exists is_symlink
  open_part-Opened s offset hashed (free, plain) = by_entry (s.disk.names (temp c i)) refl
    where
      by_entry :
          (e : Option Entry)
          → s.disk.names (temp c i) ≡ e
          → let o : Option (Disk × ℕ) = elim e [
            | none ↦ some (create s.disk (temp c i) [], s.disk.next)
            | some (file n) ↦ some ((if ltb 0 offset then s.disk else put_bytes s.disk n []), n)
            | some (link n) ↦ none
          ] in
            Opened offset hashed (elim o [
              | none ↦ fails c i s.disk s.seq s.audit s.disk io_failed
              | some (opened, n) ↦
                  goes c i s.disk s.seq s.audit opened
                    (receiving (record { inode = n; append = ltb 0 offset; pos = 0 }) offset hashed)
            ])
      by_entry none k = (
        _,
        refl,
        (
          ground (arith, path_eq_iff (temp c i) (c.dest i)),
          ground (arith, path_eq_refl (temp c i)),
        ),
      )
      by_entry (some (link n)) k = absurd (ground arith)
      by_entry (some (file n)) k = (
        record { inode = n; append = ltb 0 offset; pos = 0 },
        refl,
        if-elim (Ready c i) (ltb 0 offset) (free, plain) (free, plain),
      )

  pub opens_up :
      (s : System) (offset : ℕ) (hashed : Bytes) (chunks : List Bytes)
      → IsTidy s.disk
      → s.stage i ≡ opening offset hashed
      → Ready c i s.disk
      → Opening c i s.disk offset hashed
      → hashed ++ joined chunks ≡ bytes
      → Delivers c i bytes (run c s (events i (opens true ∷ streamed now m chunks)))
  unfolding handle is_active Opened
  opens_up s offset hashed chunks t at ready part whole =
      let (h, next, fine) = open_part-Opened s offset hashed ready in
      let g =
        handle-GoodMove c i s.disk s.seq s.audit t apart (opening offset hashed) (opens true)
          part in
      goes_on c i bytes s (opens true) (streamed now m chunks) (opening offset hashed)
        (receiving h offset hashed) (λ d. IsTidy d × Ready c i d × Receiving c i d h offset hashed)
        (λ e. ground arith) at refl next
        (
          g.tidy,
          fine,
          subst (IsPart c i (handled c i s (opening offset hashed) (opens true)).disk) next g.part,
        )
        (λ u at' (tidy, fine', kept). streams chunks u h offset hashed tidy at' fine' kept whole)

  -- What was received is read again, where there is any.
  pub rereads :
      (s : System) (hashed : Bytes) (chunks : List Bytes)
      → IsTidy s.disk
      → s.stage i ≡ rereading (length hashed)
      → Ready c i s.disk
      → s.disk.dirs (temp c i).parent ≡ true
      → Holding c i s.disk hashed
      → hashed ++ joined chunks ≡ bytes
      → Delivers c i bytes (run c s (events i (reads true ∷ opens true ∷ streamed now m chunks)))
  unfolding handle is_active reread goes
  rereads s hashed chunks t at ready dir (n, leads, same) whole =
      goes_to c i bytes s (reads true) (opens true ∷ streamed now m chunks)
        (rereading (length hashed))
        (goes c i s.disk s.seq s.audit s.disk (opening (length hashed) hashed))
        (λ d. IsTidy d × Ready c i d × Opening c i d (length hashed) hashed) (λ e. ground arith) at
        refl (ground (arith, leads, same)) (t, ready, (dir, inr ((n, leads, same), refl)))
        (λ u at' (tidy, fine, kept).
          opens_up u (length hashed) hashed chunks tidy at' fine kept whole)
