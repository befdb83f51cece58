-- ===== src/Transfer/Receive/Completes.antt =====
-- crates/zyris-capkit/src/transfer/peer.rs: a transfer whose peer sends what it offered is delivered.
use zyris_protocol.Prelude.{
  ℕ, ◌≡◌, refl, sym, ap, ◌∙◌, subst, ◌≢◌, Bool, true, false, not, ◌&&◌, Option, none, some, List,
  [], ◌∷◌, arith, ==_refl, Bytes, Text, text_eq_iff, length, if-cases,
}
use zyris_protocol.Proto.Attach.{digest}
use zyris_protocol.Transfer.Part.{FilePath}
use zyris_protocol.Transfer.Disk.{Disk, file, put, exists, is_symlink, len, rename, holds, seen}
use zyris_protocol.Transfer.Disk.Tidy.{IsTidy, path_eq_refl}
use zyris_protocol.Transfer.Undo.{Moves}
use zyris_protocol.Transfer.Undo.Saved.{stash-IsStashed}
use zyris_protocol.Transfer.Offer.{
  TransferDone, Stage, receiving, verified, stashed, returned, done, Handle, Input, begin, arrives,
  ends, rechecks, renames, System, Config, Move, temp, is_active,
}
use zyris_protocol.Transfer.Receive.{goes, verify, recheck, rename_in, handle}
use zyris_protocol.Transfer.Receive.Calls.{set_stage, settle_call, step, run}
use zyris_protocol.Transfer.Receive.Sound.{Holding, Receiving}
use zyris_protocol.Transfer.Receive.Placed.{stash-Keeps}

-- What the steps of one call are fed.
unfoldable pub events : ℕ → List Input → List (ℕ × Input)
events i [] = []
events i (x ∷ xs) = (i, x) ∷ events i xs

-- What closes a stream, and the arrival of its chunks before.
module _ (now : ℕ) (m : Moves) where
  unfoldable pub closing : List Input
  closing = ends true ∷ rechecks now m ∷ renames true ∷ []

  unfoldable pub streamed : List Bytes → List Input
  unfolding closing
  streamed [] = closing
  streamed (b ∷ chunks) = arrives (some b) none ∷ streamed chunks

module _ (c : Config) (i : ℕ) where
  unfoldable pub Delivers : Bytes → System → Type 0
  Delivers bytes s =
      (r : TransferDone) × (s.stage i ≡ returned (done r))
      × (seen s.disk (c.dest i) ≡ some (holds bytes))

  -- The destination is free, or may be replaced; the partial file is no link.
  unfoldable pub Ready : Disk → Type 0
  Ready d =
      (exists d (c.dest i) && not (c.offer i).overwrite ≡ false) × (is_symlink d (temp c i) ≡ false)

  abbrev pub handled : System → Stage → Input → Move
  handled s stage input = handle c i s.disk s.seq s.audit stage input

module _ (c : Config) (i : ℕ) (bytes : Bytes) where
  settle_call-stage : (s : System) (move : Move) → (settle_call c s i move).stage i ≡ move.stage
  unfolding settle_call set_stage
  settle_call-stage s move = rw (==_refl i)

  pub goes_on :
      (s : System) (input : Input) (rest : List Input) (stage next : Stage) (Q : Disk → Type 0)
      → input ≢ begin
      → s.stage i ≡ stage
      → is_active stage ≡ true
      → (handled c i s stage input).stage ≡ next
      → Q (handled c i s stage input).disk
      → ((t : System) → t.stage i ≡ next → Q t.disk → Delivers c i bytes (run c t (events i rest)))
      → Delivers c i bytes (run c s (events i (input ∷ rest)))
  unfolding run events step
  goes_on s begin rest stage next Q no_begin at on h q k = absurd (no_begin refl)
  goes_on s input rest stage next Q no_begin at on h q k =
      if-cases (λ t. Delivers c i bytes (run c t (events i rest))) (is_active (s.stage i))
        (λ active.
          k (settle_call c s i (handled c i s (s.stage i) input))
            (settle_call-stage s (handled c i s (s.stage i) input)
              ∙ ap (λ x. (handled c i s x input).stage) at
              ∙ h)
            (settled_disk (s.stage i) at))
        (λ off. absurd (ground (arith, ap is_active at)))
    where
      settled_disk :
          (now_at : Stage)
          → now_at ≡ stage
          → Q (settle_call c s i (handled c i s now_at input)).disk
      settled_disk now_at e = subst (λ x. Q (handled c i s x input).disk) (sym e) q

  pub goes_to :
      (s : System) (input : Input) (rest : List Input) (stage : Stage) (move : Move)
      (Q : Disk → Type 0)
      → input ≢ begin
      → s.stage i ≡ stage
      → is_active stage ≡ true
      → handled c i s stage input ≡ move
      → Q move.disk
      → ((t : System)
          → t.stage i ≡ move.stage
          → Q t.disk
          → Delivers c i bytes (run c t (events i rest)))
      → Delivers c i bytes (run c s (events i (input ∷ rest)))
  goes_to s input rest stage move Q no_begin at on made q k =
      goes_on s input rest stage move.stage Q no_begin at on (ap (λ (x : Move). x.stage) made)
        (subst (λ (x : Move). Q x.disk) (sym made) q) k

  -- The rename.
  placed :
      (s : System) (written : ℕ) (actual : Text) (replaced : Bool) (undo : Option FilePath)
      → s.stage i ≡ stashed written actual replaced undo
      → Holding c i s.disk bytes
      → Delivers c i bytes (run c s (events i (renames true ∷ [])))
  unfolding handle rename_in goes rename is_active Delivers run events put seen
  placed s written actual replaced undo at (n, leads, same) =
      goes_on s (renames true) [] (stashed written actual replaced undo)
        (returned (
          done (record {
            written = c.dest i;
            bytes = written;
            sha256 = actual;
            replaced = replaced;
            undo = undo;
          })))
        (λ d. seen d (c.dest i) ≡ some (holds bytes)) (λ e. ground arith) at refl (ground arith)
        (ground (arith, path_eq_refl (c.dest i))) (λ t told there. (_, told, there))

module _ (c : Config) (i : ℕ) (bytes : Bytes) (now : ℕ) (m : Moves) where
  -- The second look at the destination; a stash that fails stops nothing.
  Rechecked : ℕ → Text → Move → Type 0
  Rechecked written actual move =
      (replaced : Bool) × (undo : Option FilePath) × (move.stage
        ≡ stashed written actual replaced undo)
      × Holding c i move.disk bytes

  recheck-Rechecked :
      (s : System) (written : ℕ) (actual : Text)
      → temp c i ≢ c.dest i
      → IsTidy s.disk
      → Ready c i s.disk
      → Holding c i s.disk bytes
      → Rechecked written actual (recheck c i s.disk s.seq s.audit written actual now m)
  unfolding recheck goes Ready Rechecked
  recheck-Rechecked s written actual apart t (ready, plain) (n, leads, same) =
      if-cases (Rechecked written actual) (exists s.disk (c.dest i))
        (λ there.
          if-cases (Rechecked written actual) (c.offer i).overwrite
            (λ allowed.
              let k =
                stash-Keeps c i s.disk s.seq s.audit t apart _ (temp c i)
                  (stash-IsStashed c.digits c.undo c.broken now m s.disk s.seq (c.dest i) t) apart
                  (t.filed (temp c i) (file n) leads) in
              (true, _, refl, (n, k.name ∙ leads, k.content n leads ∙ same)))
            (λ banned. absurd (ground arith)))
        (λ free. (false, none, refl, (n, leads, same)))

  rechecked :
      (s : System) (written : ℕ) (actual : Text)
      → temp c i ≢ c.dest i
      → IsTidy s.disk
      → s.stage i ≡ verified written actual
      → Ready c i s.disk
      → Holding c i s.disk bytes
      → Delivers c i bytes (run c s (events i (rechecks now m ∷ renames true ∷ [])))
  unfolding handle is_active Rechecked
  rechecked s written actual apart t at ready held =
      let (replaced, undo, next, kept) = recheck-Rechecked s written actual apart t ready held in
      goes_on c i bytes s (rechecks now m) (renames true ∷ []) (verified written actual)
        (stashed written actual replaced undo) (λ d. Holding c i d bytes) (λ e. ground arith) at
        refl next kept (λ u at' h. placed c i bytes u written actual replaced undo at' h)

  -- The digest and the length.
  pub ended :
      (s : System) (h : Handle) (written : ℕ)
      → temp c i ≢ c.dest i
      → IsTidy s.disk
      → s.stage i ≡ receiving h written bytes
      → Ready c i s.disk
      → Receiving c i s.disk h written bytes
      → (c.offer i).sha256 ≡ digest c.hash bytes
      → (c.offer i).size ≡ length bytes
      → Delivers c i bytes (run c s (events i (closing now m)))
  unfolding closing handle is_active verify goes len
  ended s h written apart t at ready r sha size =
      goes_to c i bytes s (ends true) (rechecks now m ∷ renames true ∷ [])
        (receiving h written bytes)
        (goes c i s.disk s.seq s.audit s.disk (verified written (digest c.hash bytes)))
        (λ d. IsTidy d × Ready c i d × Holding c i d bytes) (λ e. ground arith) at refl
        (ground (arith, r.leads, r.same, text_eq_iff (digest c.hash bytes) (c.offer i).sha256))
        (t, ready, (h.inode, r.leads, r.same))
        (λ u at' (tidy, fine, held).
          rechecked u written (digest c.hash bytes) apart tidy at' fine held)
