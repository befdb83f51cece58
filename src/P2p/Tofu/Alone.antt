-- ===== src/P2p/Tofu/Alone.antt =====
-- While no lock is broken, a writer has the ledger to itself from its lock to its rename.
use zyris_protocol.Prelude.{
  ℕ, zero, suc, ◌+◌, ◌≤◌, ◌≡◌, refl, ap, subst, false, Option, none, some, List, [], ◌∷◌, arith,
  Text, text_eq, get_elem?, set,
}
use zyris_protocol.P2p.Tofu.{
  Ledger, Order, pin, forget, Stage, waiting, holding, writing, verified, over, Writer, publish,
  decide,
}

abbrev pub crit : Stage → ℕ
crit waiting = 0
crit (over outcome) = 0
crit _ = 1

unfoldable pub criticals : List Writer → ℕ
criticals [] = 0
criticals (w ∷ ws) = crit w.stage + criticals ws

abbrev or_else : Writer → Option Writer → Writer
or_else w none = w
or_else w (some v) = v

same_writer : (x w : Writer) → some x ≡ some w → x ≡ w
same_writer x w at = ap (or_else x) at

pub at_criticals :
    (ws : List Writer) (k : ℕ) (w : Writer) → get_elem? ws k ≡ some w → crit w.stage ≤ criticals ws
unfolding criticals
at_criticals [] k w at = absurd (ground arith)
at_criticals (x ∷ ws) zero w at =
    omega (arith, ap (λ (v : Writer). crit v.stage) (same_writer x w at))
at_criticals (x ∷ ws) (suc k) w at = omega (arith, at_criticals ws k w at)

-- The order leaves the pin of a slug.
abbrev pub Spares : Text → Order → Type 0
Spares slug (pin s entry) = Unit {0}
Spares slug (forget s) = text_eq s slug ≡ false

abbrev pub FineStage : Order → Option ℕ → Ledger → Stage → Type 0
FineStage order lock file waiting = Unit {0}
FineStage order lock file (over outcome) = Unit {0}
FineStage order lock file (holding n) = lock ≡ some n
FineStage order lock file (writing n ledger) =
    (lock ≡ some n) × (decide order file ≡ publish ledger)
FineStage order lock file (verified n ledger) =
    (lock ≡ some n) × (decide order file ≡ publish ledger)

pub quiet-FineStage :
    (order : Order) (lock : Option ℕ) (file : Ledger) (s : Stage)
    → crit s ≡ 0
    → FineStage order lock file s
quiet-FineStage order lock file waiting h = tt
quiet-FineStage order lock file (over outcome) h = tt
quiet-FineStage order lock file _ h = absurd (omega arith)

pub unlocked_crit :
    (order : Order) (file : Ledger) (s : Stage) → FineStage order none file s → crit s ≡ 0
unlocked_crit order file waiting h = refl
unlocked_crit order file (over outcome) h = refl
unlocked_crit order file (holding n) h = absurd (ground arith)
unlocked_crit order file (writing n ledger) h = absurd (ground (arith, h.0))
unlocked_crit order file (verified n ledger) h = absurd (ground (arith, h.0))

module _ (slug : Text) where
  unfoldable pub AllFine : Option ℕ → Ledger → List Writer → Type 0
  AllFine lock file [] = Unit {0}
  AllFine lock file (w ∷ ws) =
      (Spares slug w.order × FineStage w.order lock file w.stage) × AllFine lock file ws

  pub quiet-AllFine :
      (ws : List Writer) (lock lock' : Option ℕ) (file file' : Ledger)
      → criticals ws ≡ 0
      → AllFine lock file ws
      → AllFine lock' file' ws
  unfolding AllFine criticals
  quiet-AllFine [] lock lock' file file' c h = tt
  quiet-AllFine (w ∷ ws) lock lock' file file' c ((spares, fine), h) = (
    (spares, quiet-FineStage w.order lock' file' w.stage (omega arith)),
    quiet-AllFine ws lock lock' file file' (omega arith) h,
  )

  pub unlocked_criticals :
      (ws : List Writer) (file : Ledger) → AllFine none file ws → criticals ws ≡ 0
  unfolding AllFine criticals
  unlocked_criticals [] file h = refl
  unlocked_criticals (w ∷ ws) file ((spares, fine), h) =
      omega (arith, unlocked_crit w.order file w.stage fine, unlocked_criticals ws file h)

  pub at-FineStage :
      (ws : List Writer) (k : ℕ) (w : Writer) (lock : Option ℕ) (file : Ledger)
      → AllFine lock file ws
      → get_elem? ws k ≡ some w
      → Spares slug w.order × FineStage w.order lock file w.stage
  unfolding AllFine
  at-FineStage [] k w lock file h at = absurd (ground arith)
  at-FineStage (x ∷ ws) zero w lock file (here, h) at =
      subst (λ (v : Writer). Spares slug v.order × FineStage v.order lock file v.stage)
        (same_writer x w at) here
  at-FineStage (x ∷ ws) (suc k) w lock file (here, h) at = at-FineStage ws k w lock file h at

  pub set-AllFine :
      (ws : List Writer) (k : ℕ) (w : Writer) (s : Stage) (lock : Option ℕ) (file : Ledger)
      → AllFine lock file ws
      → Spares slug w.order
      → FineStage w.order lock file s
      → AllFine lock file (set ws k (record w { stage = s }))
  unfolding AllFine
  set-AllFine [] k w s lock file h spares fine = tt
  set-AllFine (x ∷ ws) zero w s lock file (here, h) spares fine = ((spares, fine), h)
  set-AllFine (x ∷ ws) (suc k) w s lock file (here, h) spares fine =
      (here, set-AllFine ws k w s lock file h spares fine)

  -- The only writer under the lock may change the lock and the file.
  pub set_alone :
      (ws : List Writer) (k : ℕ) (w : Writer) (s : Stage) (lock lock' : Option ℕ)
      (file file' : Ledger)
      → AllFine lock file ws
      → criticals ws ≤ crit w.stage
      → get_elem? ws k ≡ some w
      → Spares slug w.order
      → FineStage w.order lock' file' s
      → AllFine lock' file' (set ws k (record w { stage = s }))
  unfolding AllFine criticals
  set_alone [] k w s lock lock' file file' h c at spares fine = tt
  set_alone (x ∷ ws) zero w s lock lock' file file' (here, h) c at spares fine = (
    (spares, fine),
    quiet-AllFine ws lock lock' file file'
        (omega (arith, ap (λ (v : Writer). crit v.stage) (same_writer x w at))) h,
  )
  set_alone (x ∷ ws) (suc k) w s lock lock' file file' (here, h) c at spares fine = (
    (here.0, quiet-FineStage x.order lock' file' x.stage (omega (arith, at_criticals ws k w at))),
    set_alone ws k w s lock lock' file file' h (omega arith) at spares fine,
  )

pub criticals-set :
    (ws : List Writer) (k : ℕ) (w : Writer) (s : Stage)
    → get_elem? ws k ≡ some w
    → criticals (set ws k (record w { stage = s })) + crit w.stage ≡ criticals ws + crit s
unfolding criticals
criticals-set [] k w s at = absurd (ground arith)
criticals-set (x ∷ ws) zero w s at =
    omega (arith, ap (λ (v : Writer). crit v.stage) (same_writer x w at))
criticals-set (x ∷ ws) (suc k) w s at = omega (arith, criticals-set ws k w s at)
