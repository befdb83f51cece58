-- ===== src/Transfer/Undo/Saved.antt =====
-- crates/zyris-capkit/src/transfer/undo.rs: what stash keeps.
use zyris_protocol.Prelude.{
  ◌⊎◌, Bytes, Bool-cases, if◌then◌else◌, ℕ, ◌≤◌, ◌<◌, ◌≡◌, refl, sym, ap, ◌∙◌, subst, ◌≢◌, inl, inr,
  Bool, true, false, none, some, arith, Option-cases, if-elim, Option-branches,
}
use zyris_protocol.Transfer.Name.{Chars}
use zyris_protocol.Transfer.Part.{FilePath, path_eq}
use zyris_protocol.Transfer.Disk.{Entry, file, link, Disk, put, put_bytes, create, content_of, seen}
use zyris_protocol.Transfer.Disk.Tidy.{
  IsTidy, path_eq_iff, put-none-IsTidy, moved-IsTidy, create-IsTidy,
}
use zyris_protocol.Transfer.Undo.{
  Claimed, Copy, copied, broken_off, Moves, Stashed, move_aside, claim_slot, stash,
}
use zyris_protocol.Transfer.Undo.Slot.{IsClaimed, unclaimed, claim_slot-IsClaimed}

-- What a stash leaves: with a backup, only the name of the victim and that of the backup differ;
-- without one, only a part of the victim may be new, in a directory that is new; and no file that was
-- there has other bytes.
pub record IsStashed (d : Disk) (victim : FilePath) (r : Stashed) : Type 0 where
  pub tidy : IsTidy r.disk
  pub moved : (p q : FilePath) → r.undo ≡ some p → q ≢ victim → q ≢ p → r.disk.names q ≡ d.names q
  pub untouched : (q : FilePath) → q ≢ victim → d.dirs q.parent ≡ true → r.disk.names q ≡ d.names q
  pub leftover :
      (q : FilePath)
      → r.undo ≡ none
      → (r.disk.names q ≡ d.names q)
        ⊎ ((q.file_name ≡ victim.file_name) × (d.dirs q.parent ≡ false) × (d.names q ≡ none))
  pub same_bytes : (n : ℕ) → n < d.next → r.disk.bytes n ≡ d.bytes n
  pub no_fewer : d.next ≤ r.disk.next
  pub grown : (dir : Chars) → d.dirs dir ≡ true → r.disk.dirs dir ≡ true
  -- The backup is a new file in a new directory, with the content of the victim.
  pub backup :
      (p : FilePath)
      → r.undo ≡ some p
      → (d.dirs p.parent ≡ false) × (d.names p ≡ none) × (seen r.disk p ≡ seen d victim)
  -- Without a backup the stash has not taken the victim away.
  pub unmoved : r.undo ≡ none → r.disk.names victim ≡ d.names victim

-- The victim is moved into a directory that holds nothing.
module _ (m : Moves) (d : Disk) (seq : ℕ) (victim dest : FilePath) (t : IsTidy d)
    (dir : d.dirs dest.parent ≡ true) (new : d.names dest ≡ none) where
  Aside : Stashed → Type 0
  Aside r =
      IsTidy r.disk
      × ((q : FilePath) → q ≢ victim → q ≢ dest → r.disk.names q ≡ d.names q)
      × ((n : ℕ) → n < d.next → r.disk.bytes n ≡ d.bytes n)
      × (d.next ≤ r.disk.next)
      × (r.disk.dirs ≡ d.dirs)
      × ((p : FilePath) → r.undo ≡ some p → (p ≡ dest) × (seen r.disk p ≡ seen d victim))
      × (r.undo ≡ none → r.disk.names victim ≡ d.names victim)

  stays : Aside (record { disk = d; seq = seq; undo = none })
  unfolding Aside
  stays = (t, λ q h k. refl, λ n h. refl, omega arith, refl, λ p h. ground arith, λ h. refl)

  renamed :
      (e : Entry)
      → d.names victim ≡ some e
      → Aside (record { disk = put (put d victim none) dest (some e); seq = seq; undo = some dest })
  unfolding Aside put seen
  renamed e h = (
    moved-IsTidy d victim dest e t h dir,
    λ q other k. ground (arith, path_eq_iff dest q, path_eq_iff victim q),
    λ n k. refl,
    omega arith,
    refl,
    λ p k. ground (arith, path_eq_iff dest p),
    λ k. ground arith,
  )

  copied_whole :
      (n : ℕ)
      → d.names victim ≡ some (file n)
      → Aside (record { disk = create d dest (d.bytes n); seq = seq; undo = some dest })
  unfolding Aside create put put_bytes seen
  copied_whole n h = (
    create-IsTidy d dest (d.bytes n) t dir,
    λ q other k. ground (arith, path_eq_iff dest q),
    λ k l. ground arith,
    omega arith,
    refl,
    λ p k. ground (arith, path_eq_iff dest p, t.known victim n h),
    λ k. ground arith,
  )

  copied_in_part :
      (e : Entry) (part : Bytes)
      → d.names victim ≡ some e
      → Aside (record { disk = create d dest part; seq = seq; undo = none })
  unfolding Aside create put put_bytes seen
  copied_in_part e part h = (
    create-IsTidy d dest part t dir,
    λ q other k. ground (arith, path_eq_iff dest q),
    λ k l. ground arith,
    omega arith,
    refl,
    λ p k. ground arith,
    λ k. ground (arith, path_eq_iff dest victim),
  )

  unlinked :
      (n : ℕ)
      → d.names victim ≡ some (file n)
      → Aside (record {
        disk = put (create d dest (d.bytes n)) victim none;
        seq = seq;
        undo = some dest;
      })
  unfolding Aside create put put_bytes seen
  unlinked n h = (
    put-none-IsTidy (create d dest (d.bytes n)) victim (create-IsTidy d dest (d.bytes n) t dir),
    λ q other k. ground (arith, path_eq_iff dest q, path_eq_iff victim q),
    λ k l. ground arith,
    omega arith,
    refl,
    λ p k. ground (arith, path_eq_iff dest p, path_eq_iff victim p, t.known victim n h),
    λ k. ground arith,
  )

  move_aside-Aside :
      (e : Entry) → d.names victim ≡ some e → Aside (move_aside m d seq victim e dest)
  unfolding move_aside
  move_aside-Aside (link n) h = if-elim Aside m.renames (renamed (link n) h) stays
  move_aside-Aside (file n) h = if-elim Aside m.renames (renamed (file n) h) (tried m.copies)
    where
      tried :
          (c : Copy)
          → Aside (elim c [
            | copied ↦ record {
              disk =
                  if m.unlinks
                  then put (create d dest (d.bytes n)) victim none
                  else create d dest (d.bytes n);
              seq = seq;
              undo = some dest;
            }
            | broken_off none ↦ record { disk = d; seq = seq; undo = none }
            | broken_off (some part) ↦ record { disk = create d dest part; seq = seq; undo = none }
          ])
      tried copied =
          if-elim (λ (k : Disk). Aside (record { disk = k; seq = seq; undo = some dest })) m.unlinks
            (unlinked n h) (copied_whole n h)
      tried (broken_off none) = stays
      tried (broken_off (some part)) = copied_in_part (file n) part h

nothing_moved :
    (d : Disk) (victim : FilePath) (c : Claimed)
    → IsClaimed d c
    → IsStashed d victim (record { disk = c.disk; seq = c.seq; undo = none })
nothing_moved d victim c i = record {
  tidy = i.tidy;
  moved = λ p q h k l. ap (λ f. f q) i.same_names;
  untouched = λ q h k. ap (λ f. f q) i.same_names;
  leftover = λ q h. inl (ap (λ f. f q) i.same_names);
  same_bytes = λ n h. ap (λ f. f n) i.same_bytes;
  no_fewer = omega (arith, i.same_next);
  grown = i.grown;
  backup = λ p h. ground arith;
  unmoved = λ h. ap (λ f. f victim) i.same_names;
}

seen-same :
    (d e : Disk) (p : FilePath) → e.names ≡ d.names → e.bytes ≡ d.bytes → seen e p ≡ seen d p
unfolding seen
seen-same d e p h k = ap (λ b. content_of b (e.names p)) k ∙ ap (λ f. content_of d.bytes (f p)) h

moved_into :
    (m : Moves) (d : Disk) (c : Claimed) (victim : FilePath) (e : Entry) (slot : Chars)
    → IsTidy d
    → IsClaimed d c
    → c.slot ≡ some slot
    → d.names victim ≡ some e
    → IsStashed d victim (
        move_aside m c.disk c.seq victim e (record { parent = slot; file_name = victim.file_name }))
unfolding Aside
moved_into m d c victim e slot t i s h =
    let (free, taken) = i.fresh slot s in
    let dest : FilePath = record { parent = slot; file_name = victim.file_name } in
    let new = vacant free in
    let a =
      move_aside-Aside m c.disk c.seq victim dest i.tidy taken (ap (λ f. f dest) i.same_names ∙ new)
        e (ap (λ f. f victim) i.same_names ∙ h) in
    record {
      tidy = a.0;
      moved = λ p q k l n. a.1 q l (λ e. n (e ∙ sym (a.5 p k).0)) ∙ ap (λ f. f q) i.same_names;
      untouched = λ q k l.
          a.1 q k (λ e. absurd (ground (arith, ap (λ (f : FilePath). d.dirs f.parent) e, free)))
          ∙ ap (λ f. f q) i.same_names;
      leftover = λ q k. elim (Bool-cases (path_eq dest q)) [
        | inl same ↦ inr (
          sym (ap (λ (f : FilePath). f.file_name) ((path_eq_iff dest q).0 same)),
          subst (λ (f : FilePath). d.dirs f.parent ≡ false) ((path_eq_iff dest q).0 same) free,
          subst (λ (f : FilePath). d.names f ≡ none) ((path_eq_iff dest q).0 same) new,
        )
        | inr other ↦ inl (elim (Bool-cases (path_eq victim q)) [
          | inl same ↦
              subst
                (λ (f : FilePath).
                  (move_aside m c.disk c.seq victim e dest).disk.names f ≡ d.names f)
                ((path_eq_iff victim q).0 same) (a.6 k ∙ ap (λ f. f victim) i.same_names)
          | inr apart ↦
              a.1 q (λ l. differ victim q apart (sym l)) (λ l. differ dest q other (sym l))
              ∙ ap (λ f. f q) i.same_names
        ])
      ];
      same_bytes = λ n k. a.2 n (omega (arith, i.same_next, k)) ∙ ap (λ f. f n) i.same_bytes;
      no_fewer = omega (arith, a.3, i.same_next);
      grown = λ dir k. ap (λ f. f dir) a.4 ∙ i.grown dir k;
      backup = λ p k.
          let (at_dest, kept) = a.5 p k in
          (
            subst (λ (q : FilePath). d.dirs q.parent ≡ false) (sym at_dest) free,
            ap d.names at_dest ∙ new,
            kept ∙ seen-same d c.disk victim i.same_names i.same_bytes,
          );
      unmoved = λ k. a.6 k ∙ ap (λ f. f victim) i.same_names;
    }
  where
    differ : (p q : FilePath) → path_eq p q ≡ false → p ≢ q
    differ p q h e = ground (arith, (path_eq_iff p q).1 e)

    vacant :
        d.dirs slot ≡ false
        → d.names (record { parent = slot; file_name = victim.file_name }) ≡ none
    vacant free =
        elim (Option-cases (d.names (record { parent = slot; file_name = victim.file_name }))) [
          | inl none_there ↦ none_there
          | inr (f, there) ↦ absurd (ground (arith, t.filed _ f there))
        ]

module _ (digits : ℕ → Chars) (root : Chars) (broken : Chars → Bool) (now : ℕ) (m : Moves) where
  pub stash-IsStashed :
      (d : Disk) (seq : ℕ) (victim : FilePath)
      → IsTidy d
      → IsStashed d victim (stash digits root broken now m d seq victim)
  unfolding stash
  stash-IsStashed d seq victim t =
      Option-branches (IsStashed d victim) (d.names victim)
        (λ gone. nothing_moved d victim _ (unclaimed d seq t))
        (λ e here.
          Option-branches (IsStashed d victim) (claim_slot digits root broken now d seq).slot
            (λ full. nothing_moved d victim _ (claim_slot-IsClaimed digits root broken now d seq t))
            (λ slot won.
              moved_into m d _ victim e slot t (claim_slot-IsClaimed digits root broken now d seq t)
                won here))
