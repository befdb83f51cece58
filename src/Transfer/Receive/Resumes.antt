-- ===== src/Transfer/Receive/Resumes.antt =====
-- crates/zyris-capkit/src/transfer/peer.rs: a transfer from its first step to its answer, from nothing
-- or from what an earlier call left.
use zyris_protocol.Prelude.{
  ℕ, ◌≤◌, ◌≡◌, refl, sym, ap, subst, ◌≢◌, ◌⊎◌, inl, inr, true, false, none, some, List, [], ◌∷◌,
  ◌++◌, arith, ==_refl, Bytes, text_eq_refl, length, length-append,
}
use zyris_protocol.Core.Blobs.Hydrated.{joined}
use zyris_protocol.Proto.Attach.{digest}
use zyris_protocol.Prelude.Named.{insert_name}
use zyris_protocol.Transfer.Disk.{Disk, exists, is_symlink, len}
use zyris_protocol.Transfer.Disk.Tidy.{IsTidy}
use zyris_protocol.Transfer.Undo.{Moves, create_dir}
use zyris_protocol.Transfer.Offer.{
  PullHead, offered, claimed, pulling, rereading, opening, Input, begin, resolves, answers, reads,
  opens, System, Config, temp, is_active,
}
use zyris_protocol.Transfer.Receive.{goes, look, answer, handle}
use zyris_protocol.Transfer.Receive.Calls.{set_stage, is_held, admit, step, run}
use zyris_protocol.Transfer.Receive.Sound.{Holding, Opening}
use zyris_protocol.Transfer.Receive.Handled.{GoodMove}
use zyris_protocol.Transfer.Receive.Placed.{handle-GoodMove}
use zyris_protocol.Transfer.Receive.Completes.{events, streamed, Delivers, Ready, handled, goes_to}
use zyris_protocol.Transfer.Receive.Reopened.{opens_up, rereads}

module _ (c : Config) (i : ℕ) where
  abbrev pub head : PullHead
  head = record { size = (c.offer i).size; sha256 = (c.offer i).sha256 }

  -- What an earlier call left of the bytes.
  unfoldable pub Left : Disk → Bytes → Type 0
  Left d leftover = ((leftover ≡ []) × (d.names (temp c i) ≡ none)) ⊎ Holding c i d leftover

  -- The inputs of a call that nothing goes wrong for, from the answer of pull on, and all.
  module _ (now : ℕ) (m : Moves) where
    unfoldable pub from_pull : Bytes → List Bytes → List Input
    from_pull [] chunks = answers (some head) ∷ opens true ∷ streamed now m chunks
    from_pull (b ∷ leftover) chunks =
        answers (some head) ∷ reads true ∷ opens true ∷ streamed now m chunks

    unfoldable pub script : Bytes → List Bytes → List Input
    unfolding from_pull
    script leftover chunks = begin ∷ resolves true ∷ from_pull leftover chunks

-- The peer has what it offered.
module _ (c : Config) (i : ℕ) (bytes : Bytes) (now : ℕ) (m : Moves) (apart : temp c i ≢ c.dest i)
    (sha : (c.offer i).sha256 ≡ digest c.hash bytes) (size : (c.offer i).size ≡ length bytes) where
  pulls :
      (s : System) (leftover : Bytes) (chunks : List Bytes)
      → IsTidy s.disk
      → s.stage i ≡ pulling (length leftover)
      → Ready c i s.disk
      → s.disk.dirs (temp c i).parent ≡ true
      → Left c i s.disk leftover
      → leftover ++ joined chunks ≡ bytes
      → Delivers c i bytes (run c s (events i (from_pull c i now m leftover chunks)))
  unfolding from_pull handle is_active answer goes Left
  pulls s [] chunks t at ready dir left whole =
      goes_to c i bytes s (answers (some (head c i))) (opens true ∷ streamed now m chunks)
        (pulling 0) (goes c i s.disk s.seq s.audit s.disk (opening 0 []))
        (λ d. IsTidy d × Ready c i d × Opening c i d 0 []) (λ e. ground arith) at refl
        (ground (arith, text_eq_refl (c.offer i).sha256, ==_refl (c.offer i).size))
        (t, ready, (dir, inl (refl, refl)))
        (λ u at' (tidy, fine, kept).
          opens_up c i bytes now m apart sha size u 0 [] chunks tidy at' fine kept whole)
  pulls s (b ∷ l) chunks t at ready dir (inl (none_left, free)) whole = absurd (ground arith)
  pulls s (b ∷ l) chunks t at ready dir (inr held) whole =
      goes_to c i bytes s (answers (some (head c i)))
        (reads true ∷ opens true ∷ streamed now m chunks) (pulling (length (b ∷ l)))
        (goes c i s.disk s.seq s.audit s.disk (rereading (length (b ∷ l))))
        (λ d. IsTidy d × Ready c i d × (d.dirs (temp c i).parent ≡ true) × Holding c i d (b ∷ l))
        (λ e. ground arith) at refl
        (ground (arith, text_eq_refl (c.offer i).sha256, ==_refl (c.offer i).size))
        (t, ready, dir, held)
        (λ u at' (tidy, fine, dir', held').
          rereads c i bytes now m apart sha size u (b ∷ l) chunks tidy at' fine dir' held' whole)

  len-Left :
      (d : Disk) (leftover : Bytes) → Left c i d leftover → len d (temp c i) ≡ length leftover
  unfolding Left len
  len-Left d leftover (inl (none_left, free)) = ground arith
  len-Left d leftover (inr (n, leads, same)) = ground arith

  -- The look at the partial file finds what is left.
  looks :
      (s : System) (leftover : Bytes) (chunks : List Bytes)
      → IsTidy s.disk
      → s.stage i ≡ claimed
      → Ready c i s.disk
      → Left c i s.disk leftover
      → leftover ++ joined chunks ≡ bytes
      → Delivers c i bytes
          (run c s (events i (resolves true ∷ from_pull c i now m leftover chunks)))
  unfolding handle is_active look goes create_dir Ready exists is_symlink Left
  looks s leftover chunks t at ready left whole =
      let g =
        subst (GoodMove c i s.disk) made
          (handle-GoodMove c i s.disk s.seq s.audit t apart claimed (resolves true) tt) in
      goes_to c i bytes s (resolves true) (from_pull c i now m leftover chunks) claimed
        (goes c i s.disk s.seq s.audit (create_dir s.disk (c.dest i).parent)
          (pulling (length leftover)))
        (λ d. IsTidy d × Ready c i d × (d.dirs (temp c i).parent ≡ true) × Left c i d leftover)
        (λ e. ground arith) at refl made (g.tidy, ready, g.part.0, left)
        (λ u at' (tidy, fine, dir, left'). pulls u leftover chunks tidy at' fine dir left' whole)
    where
      made :
          handled c i s claimed (resolves true)
          ≡ goes c i s.disk s.seq s.audit
              (create_dir s.disk (c.dest i).parent)
              (pulling (length leftover))
      made = ground (
        arith,
        ready.0,
        ready.1,
        len-Left s.disk leftover left,
        length-append leftover (joined chunks),
        ap length whole,
        size,
      )

  -- A call whose transfer nobody else receives, of a file that is not too large and whose destination
  -- is free or may be replaced, and whose peer sends what it offered, from where an earlier call
  -- stopped: it answers that it is done, and the destination holds exactly the bytes that were
  -- offered, whatever becomes of the stash and wherever the other calls are.
  pub run-script :
      (s : System) (leftover : Bytes) (chunks : List Bytes)
      → IsTidy s.disk
      → s.stage i ≡ offered
      → is_held s.in_flight (c.offer i).transfer_id ≡ false
      → length bytes ≤ c.max_file_bytes
      → c.has_peer ≡ true
      → Ready c i s.disk
      → Left c i s.disk leftover
      → leftover ++ joined chunks ≡ bytes
      → Delivers c i bytes (run c s (events i (script c i now m leftover chunks)))
  unfolding script run events step admit set_stage
  run-script s leftover chunks t at free small peer ready left whole =
      subst
        (λ u.
          Delivers c i bytes
            (run c u (events i (resolves true ∷ from_pull c i now m leftover chunks))))
        (sym admitted) (looks taken leftover chunks t (claimed_now) ready left whole)
    where
      taken : System
      taken = record s {
        in_flight = insert_name s.in_flight (c.offer i).transfer_id tt;
        stage = set_stage s.stage i claimed;
      }

      claimed_now : taken.stage i ≡ claimed
      claimed_now = rw (==_refl i)

      admitted : step c s i begin ≡ taken
      admitted = ground (arith, small, size)
