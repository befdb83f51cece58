-- ===== src/Transfer/Inbox/Jail.antt =====
-- crates/zyris-capkit/src/transfer/inbox.rs: a path that resolve gives lies in the inbox.
use zyris_protocol.Prelude.{
  ℕ, ◌≡◌, refl, subst, ◌≢◌, Bool, true, false, not, Option, none, some, [], ◌∷◌, ◌++◌, arith,
  text_eq_refl, if-elim, if-cases, Option-branches,
}
use zyris_protocol.Transfer.Name.{Chars, safe_name}
use zyris_protocol.Transfer.Name.Washed.{IsWashed, safe_name-IsWashed}
use zyris_protocol.Transfer.Inbox.{
  PathBuf, symlink_in_path, Resolved, resolved, refused, Answers, strip_prefix, starts_with,
  replace_char, walk, ensure_no_symlink, settle_in, resolve_in, resolve,
}

-- The path is one washed component below the real directory of the sender, which lies below the real
-- inbox; neither is a link, as far as the file system says.
pub record IsJailed (os : Answers) (inbox parent path : PathBuf) : Type 0 where
  pub root : PathBuf
  pub real_parent : PathBuf
  pub name : Chars
  pub real_root : os.canonicalize inbox ≡ some root
  pub real : os.canonicalize parent ≡ some real_parent
  pub inside : starts_with real_parent root ≡ true
  pub washed : IsWashed name
  pub below : path ≡ real_parent ++ (name ∷ [])
  pub plain_parent : os.symlink_metadata parent ≡ some false
  pub plain_path : os.symlink_metadata path ≢ some true

strip_prefix-append : (root rest : PathBuf) → strip_prefix (root ++ rest) root ≡ some rest
unfolding strip_prefix
strip_prefix-append [] rest = refl
strip_prefix-append (r ∷ root) rest = rw (text_eq_refl r) (strip_prefix-append root rest)

-- A sender's directory that passes is no link.
walk_one :
    (os : Answers) (root : PathBuf) (c : Chars)
    → walk os root (c ∷ []) ≡ none
    → os.symlink_metadata (root ++ (c ∷ [])) ≡ some false
unfolding walk
walk_one os root c h = ground arith

ensure_no_symlink-plain :
    (os : Answers) (root : PathBuf) (c : Chars)
    → ensure_no_symlink os root (root ++ (c ∷ [])) ≡ none
    → os.symlink_metadata (root ++ (c ∷ [])) ≡ some false
unfolding ensure_no_symlink
ensure_no_symlink-plain os root c h =
    walk_one os root c (ground (arith, strip_prefix-append root (c ∷ [])))

module _ (os : Answers) (inbox : PathBuf) (sender name : Chars) (w : IsWashed name) where
  Fits : Resolved → Type 0
  Fits r = elim r [
    | resolved path ↦ IsJailed os inbox (inbox ++ (sender ∷ [])) path
    | refused e ↦ Unit {0}
  ]

  settle_in-Fits :
      (root real_parent : PathBuf)
      → os.canonicalize inbox ≡ some root
      → os.canonicalize (inbox ++ (sender ∷ [])) ≡ some real_parent
      → os.symlink_metadata (inbox ++ (sender ∷ [])) ≡ some false
      → Fits (settle_in os root real_parent name)
  unfolding settle_in Fits
  settle_in-Fits root real_parent h k plain =
      if-cases Fits (not (starts_with real_parent root)) (λ out. tt)
        (λ inside.
          if-elim Fits (not (starts_with (real_parent ++ (name ∷ [])) root)) tt
            (at_path inside (os.symlink_metadata (real_parent ++ (name ∷ []))) refl))
    where
      found :
          not (starts_with real_parent root) ≡ false
          → os.symlink_metadata (real_parent ++ (name ∷ [])) ≢ some true
          → IsJailed os inbox (inbox ++ (sender ∷ [])) (real_parent ++ (name ∷ []))
      found inside plain_path = record {
        root = root;
        real_parent = real_parent;
        name = name;
        real_root = h;
        real = k;
        inside = ground arith;
        washed = w;
        below = refl;
        plain_parent = plain;
        plain_path = plain_path;
      }

      at_path :
          not (starts_with real_parent root) ≡ false
          → (answer : Option Bool) → os.symlink_metadata (real_parent ++ (name ∷ [])) ≡ answer
          → Fits (elim answer [
            | some true ↦ refused symlink_in_path
            | _ ↦ resolved (real_parent ++ (name ∷ []))
          ])
      at_path inside (some true) q = tt
      at_path inside (some false) q = found inside (λ l. ground arith)
      at_path inside none q = found inside (λ l. ground arith)

  resolve_in-Fits : Fits (resolve_in os inbox (inbox ++ (sender ∷ [])) name)
  unfolding resolve_in Fits
  resolve_in-Fits = if-elim Fits (not (os.create_dir_all (inbox ++ (sender ∷ [])))) tt (
      Option-branches Fits (os.canonicalize inbox) (λ h. tt)
        (λ root h.
          Option-branches Fits (ensure_no_symlink os inbox (inbox ++ (sender ∷ [])))
            (λ fine.
              Option-branches Fits (os.canonicalize (inbox ++ (sender ∷ []))) (λ k. tt)
                (λ real_parent k.
                  settle_in-Fits root real_parent h k
                    (ensure_no_symlink-plain os inbox sender fine)))
            (λ e bad. tt)))

-- Whatever a peer is called and proposes, and whatever the file system answers: a path that resolve
-- gives is jailed.
pub resolve-IsJailed :
    (os : Answers) (space : ℕ → Bool) (inbox : PathBuf) (peer proposed : Chars) (path : PathBuf)
    → resolve os space inbox peer proposed ≡ resolved path
    → IsJailed os inbox (inbox ++ (safe_name space (replace_char b'/' b'_' peer) ∷ [])) path
unfolding resolve Fits
resolve-IsJailed os space inbox peer proposed path h =
    subst
      (Fits os inbox (safe_name space (replace_char b'/' b'_' peer)) (safe_name space proposed)
        (safe_name-IsWashed space proposed))
      h
      (resolve_in-Fits os inbox (safe_name space (replace_char b'/' b'_' peer))
        (safe_name space proposed) (safe_name-IsWashed space proposed))
