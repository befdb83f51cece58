-- ===== src/Transfer/Disk/Tidy.antt =====
-- A disk that is in order, and what the calls of the file system keep.
use zyris_protocol.Prelude.{
  ℕ, suc, ◌<◌, ◌≡◌, refl, ap, ◌∙◌, subst, ◌≢◌, ◌↔◌, inl, inr, true, Option, none, some, arith,
  Bool-cases, Option-cases, Bytes, text_eq_iff,
}
use zyris_protocol.Transfer.Name.{Chars}
use zyris_protocol.Transfer.Part.{FilePath, path_eq}
use zyris_protocol.Transfer.Disk.{Entry, file, Disk, put, put_bytes, create, rename}

pub path_eq_iff : (p q : FilePath) → (path_eq p q ≡ true) ↔ (p ≡ q)
unfolding path_eq
path_eq_iff p q = ground (arith, text_eq_iff p.parent q.parent, text_eq_iff p.file_name q.file_name)

pub path_eq_refl : (p : FilePath) → path_eq p p ≡ true
path_eq_refl p = (path_eq_iff p p).1 refl

-- Every name lies in a directory, a file has one name, and the next file is new.
pub record IsTidy (d : Disk) : Type 0 where
  pub filed : (p : FilePath) (e : Entry) → d.names p ≡ some e → d.dirs p.parent ≡ true
  pub known : (p : FilePath) (n : ℕ) → d.names p ≡ some (file n) → n < d.next
  pub single :
      (p q : FilePath) (n : ℕ) → d.names p ≡ some (file n) → d.names q ≡ some (file n) → p ≡ q

pub names-put_same : (d : Disk) (p : FilePath) (e : Option Entry) → (put d p e).names p ≡ e
unfolding put
names-put_same d p e = rw (path_eq_refl p)

pub names-put_other :
    (d : Disk) (p q : FilePath) (e : Option Entry) → p ≢ q → (put d p e).names q ≡ d.names q
unfolding put
names-put_other d p q e h = ground (arith, path_eq_iff p q)

pub put-none-IsTidy : (d : Disk) (p : FilePath) → IsTidy d → IsTidy (put d p none)
unfolding put
put-none-IsTidy d p t = record {
  filed = λ q e h. ground (arith, t.filed q e, path_eq_iff p q);
  known = λ q n h. ground (arith, t.known q n, path_eq_iff p q);
  single = λ q r n h k. ground (arith, t.single q r n, path_eq_iff p q, path_eq_iff p r);
}

dirs-put :
    (d : Disk) (p : FilePath) (e : Option Entry) (dir : Chars)
    → d.dirs dir ≡ true
    → (put d p e).dirs dir ≡ true
unfolding put
dirs-put d p e dir h = h

-- A name for an entry that no other name leads to.
pub put-some-IsTidy :
    (d : Disk) (p : FilePath) (e : Entry)
    → IsTidy d
    → d.dirs p.parent ≡ true
    → ((n : ℕ) → e ≡ file n → n < d.next)
    → ((q : FilePath) (n : ℕ) → e ≡ file n → q ≢ p → d.names q ≢ some (file n))
    → IsTidy (put d p (some e))
unfolding put
put-some-IsTidy d p e t dir old free = record {
  filed = λ q f h. elim (Bool-cases (path_eq p q)) [
    | inl same ↦ subst (λ (r : FilePath). d.dirs r.parent ≡ true) ((path_eq_iff p q).0 same) dir
    | inr other ↦ t.filed q f (ground arith)
  ];
  known = λ q n h. ground (arith, t.known q n, old n, path_eq_iff p q);
  single = λ q r n h k.
      ground (arith, t.single q r n, free q n, free r n, path_eq_iff p q, path_eq_iff p r);
}

-- What `rename` makes of a disk on which `p` leads to `e`.
pub moved-IsTidy :
    (d : Disk) (p q : FilePath) (e : Entry)
    → IsTidy d
    → d.names p ≡ some e
    → d.dirs q.parent ≡ true
    → IsTidy (put (put d p none) q (some e))
unfolding put
moved-IsTidy d p q e t at_p dir =
    put-some-IsTidy (put d p none) q e (put-none-IsTidy d p t) (dirs-put d p none q.parent dir)
      (λ n is. known_here n is) (λ r n is other. free r n is)
  where
    known_here : (n : ℕ) → e ≡ file n → n < (put d p none).next
    known_here n is = t.known p n (at_p ∙ ap some is)

    free : (r : FilePath) (n : ℕ) → e ≡ file n → (put d p none).names r ≢ some (file n)
    free r n is h = ground (arith, t.single p r n (at_p ∙ ap some is), path_eq_iff p r)

pub rename-IsTidy :
    (d d' : Disk) (p q : FilePath)
    → IsTidy d
    → d.dirs q.parent ≡ true
    → rename d p q ≡ some d'
    → IsTidy d'
unfolding rename
rename-IsTidy d d' p q t dir h = elim (Option-cases (d.names p)) [
  | inl gone ↦ ground arith
  | inr (e, at_p) ↦ subst IsTidy (ground arith) (moved-IsTidy d p q e t at_p dir)
]

pub create-IsTidy :
    (d : Disk) (p : FilePath) (content : Bytes)
    → IsTidy d
    → d.dirs p.parent ≡ true
    → IsTidy (create d p content)
unfolding create put put_bytes
create-IsTidy d p content t dir = record { filed = u.filed; known = u.known; single = u.single }
  where
    -- The disk that already counts the new file.
    grown : Disk
    grown = record d { next = suc d.next }

    grown-IsTidy : IsTidy grown
    grown-IsTidy = record {
      filed = t.filed;
      known = λ q n h. omega (arith, t.known q n h);
      single = t.single;
    }

    u : IsTidy (put grown p (some (file d.next)))
    u =
        put-some-IsTidy grown p (file d.next) grown-IsTidy dir (λ n e. ground arith)
          (λ q n e other h. ground (arith, t.known q n h))
