-- ===== src/Transfer/Undo/Slot.antt =====
-- crates/zyris-capkit/src/transfer/undo.rs: what the claim of a slot keeps.
use zyris_protocol.Prelude.{
  ℕ, zero, suc, ◌≡◌, refl, Bool, true, false, none, some, arith, text_eq_refl, if-elim, if-cases,
}
use zyris_protocol.Transfer.Name.{Chars}
use zyris_protocol.Transfer.Disk.{Disk}
use zyris_protocol.Transfer.Disk.Tidy.{IsTidy}
use zyris_protocol.Transfer.Undo.{
  max_attempts, next_seq, Claimed, create_dir, slot_of, claim_slots, claim_slot,
}

-- A claim changes no file, and the slot is a directory that was not there.
pub record IsClaimed (d : Disk) (c : Claimed) : Type 0 where
  pub tidy : IsTidy c.disk
  pub same_names : c.disk.names ≡ d.names
  pub same_bytes : c.disk.bytes ≡ d.bytes
  pub same_next : c.disk.next ≡ d.next
  pub grown : (dir : Chars) → d.dirs dir ≡ true → c.disk.dirs dir ≡ true
  pub fresh : (s : Chars) → c.slot ≡ some s → (d.dirs s ≡ false) × (c.disk.dirs s ≡ true)

pub create_dir-IsTidy : (d : Disk) (dir : Chars) → IsTidy d → IsTidy (create_dir d dir)
unfolding create_dir
create_dir-IsTidy d dir t = record {
  filed = λ p e h. ground (arith, t.filed p e h);
  known = t.known;
  single = t.single;
}

pub unclaimed :
    (d : Disk) (seq : ℕ) → IsTidy d → IsClaimed d (record { disk = d; seq = seq; slot = none })
unclaimed d seq t = record {
  tidy = t;
  same_names = refl;
  same_bytes = refl;
  same_next = refl;
  grown = λ dir h. h;
  fresh = λ s h. ground arith;
}

claimed :
    (d : Disk) (seq : ℕ) (s : Chars)
    → IsTidy d
    → d.dirs s ≡ false
    → IsClaimed d (record { disk = create_dir d s; seq = seq; slot = some s })
unfolding create_dir
claimed d seq s t free = record {
  tidy = create_dir-IsTidy d s t;
  same_names = refl;
  same_bytes = refl;
  same_next = refl;
  grown = λ dir h. ground arith;
  fresh = λ r h. ground (arith, text_eq_refl s);
}

behind_root :
    (d : Disk) (root : Chars) (c : Claimed) → IsClaimed (create_dir d root) c → IsClaimed d c
unfolding create_dir
behind_root d root c i = record {
  tidy = i.tidy;
  same_names = i.same_names;
  same_bytes = i.same_bytes;
  same_next = i.same_next;
  grown = λ dir h. i.grown dir (ground arith);
  fresh = λ s h. let (free, taken) = i.fresh s h in (ground arith, taken);
}

module _ (digits : ℕ → Chars) (root : Chars) (broken : Chars → Bool) (now : ℕ) where
  claim_slots-IsClaimed :
      (k : ℕ) (d : Disk) (seq : ℕ)
      → IsTidy d
      → IsClaimed d (claim_slots digits root broken now k d seq)
  unfolding claim_slots
  claim_slots-IsClaimed zero d seq t = unclaimed d seq t
  claim_slots-IsClaimed (suc k) d seq t =
      if-cases (IsClaimed d) (d.dirs (slot_of digits root broken now seq))
        (λ taken. claim_slots-IsClaimed k d (next_seq seq) t)
        (λ free.
          if-elim (IsClaimed d) (broken (slot_of digits root broken now seq))
            (unclaimed d (next_seq seq) t)
            (claimed d (next_seq seq) (slot_of digits root broken now seq) t free))

  pub claim_slot-IsClaimed :
      (d : Disk) (seq : ℕ) → IsTidy d → IsClaimed d (claim_slot digits root broken now d seq)
  unfolding claim_slot
  claim_slot-IsClaimed d seq t = if-elim (IsClaimed d) (broken root) (unclaimed d seq t) (
      behind_root d root _
        (claim_slots-IsClaimed max_attempts (create_dir d root) seq (create_dir-IsTidy d root t)))
