-- ===== src/Transfer/Receive/Sound.antt =====
-- crates/zyris-capkit/src/transfer/peer.rs: what a call knows of its partial file at every stage.
use zyris_protocol.Prelude.{
  ℕ, ◌≡◌, refl, ◌∙◌, ◌⊎◌, inl, inr, true, false, some, [], Bytes, Text, length,
}
use zyris_protocol.Proto.Attach.{digest}
use zyris_protocol.Transfer.Part.{FilePath, part_path}
use zyris_protocol.Transfer.Disk.{Disk, file}
use zyris_protocol.Transfer.Offer.{
  Stage, offered, claimed, pulling, rereading, opening, receiving, verified, stashed, returned,
  Handle, Config, temp,
}

pub temp-parent : (c : Config) (i : ℕ) → (temp c i).parent ≡ (c.dest i).parent
unfolding temp part_path
temp-parent c i = refl

module _ (c : Config) (i : ℕ) where
  abbrev pub Holding : Disk → Bytes → Type 0
  Holding d content = (n : ℕ) × (d.names (temp c i) ≡ some (file n)) × (d.bytes n ≡ content)

  -- The directory is there, and a transfer that goes on at an offset has that many bytes already.
  abbrev pub Resumed : Disk → ℕ → Type 0
  Resumed d offset =
      (d.dirs (temp c i).parent ≡ true)
      × ((offset ≡ 0) ⊎ ((content : Bytes) × Holding d content × (length content ≡ offset)))

  abbrev pub Partial : Disk → ℕ → Type 0
  Partial d offset =
      (d.dirs (temp c i).parent ≡ true)
      × (content : Bytes) × Holding d content
      × (length content ≡ offset)

  abbrev pub Opening : Disk → ℕ → Bytes → Type 0
  Opening d offset hashed =
      (d.dirs (temp c i).parent ≡ true)
      × (((offset ≡ 0) × (hashed ≡ [])) ⊎ (Holding d hashed × (length hashed ≡ offset)))

  -- The bytes on disk are those that were hashed.
  pub record Receiving (d : Disk) (h : Handle) (written : ℕ) (hashed : Bytes) : Type 0 where
    pub leads : d.names (temp c i) ≡ some (file h.inode)
    pub same : d.bytes h.inode ≡ hashed
    pub counted : length hashed ≡ written
    pub place : h.append ≡ false → h.pos ≡ written

  -- The partial file is the one that was offered.
  pub record Matches (d : Disk) (written : ℕ) (actual : Text) : Type 0 where
    pub content : Bytes
    pub held : Holding d content
    pub digested : digest c.hash content ≡ (c.offer i).sha256
    pub measured : length content ≡ (c.offer i).size
    pub reported : actual ≡ (c.offer i).sha256
    pub counted : written ≡ (c.offer i).size

  abbrev pub IsPart : Disk → Stage → Type 0
  IsPart d (pulling offset) = Resumed d offset
  IsPart d (rereading offset) = Partial d offset
  IsPart d (opening offset hashed) = Opening d offset hashed
  IsPart d (receiving h written hashed) = Receiving d h written hashed
  IsPart d (verified written actual) = Matches d written actual
  IsPart d (stashed written actual replaced undo) = Matches d written actual
  IsPart d _ = Unit {0}

-- What of a path is the same on two disks.
pub record Keeps (d d' : Disk) (p : FilePath) : Type 0 where
  pub name : d'.names p ≡ d.names p
  pub content : (n : ℕ) → d.names p ≡ some (file n) → d'.bytes n ≡ d.bytes n
  pub dir : d.dirs p.parent ≡ true → d'.dirs p.parent ≡ true

pub Keeps-refl : (d : Disk) (p : FilePath) → Keeps d d p
Keeps-refl d p = record { name = refl; content = λ n h. refl; dir = λ h. h }

module _ (c : Config) (i : ℕ) (d d' : Disk) (k : Keeps d d' (temp c i)) where
  Holding-Keeps : {content : Bytes} → Holding c i d content → Holding c i d' content
  Holding-Keeps (n, leads, same) = (n, k.name ∙ leads, k.content n leads ∙ same)

  pub IsPart-Keeps : (stage : Stage) → IsPart c i d stage → IsPart c i d' stage
  IsPart-Keeps (pulling offset) (there, inl zero_offset) = (k.dir there, inl zero_offset)
  IsPart-Keeps (pulling offset) (there, inr (b, held, long)) =
      (k.dir there, inr (b, Holding-Keeps held, long))
  IsPart-Keeps (rereading offset) (there, b, held, long) =
      (k.dir there, b, Holding-Keeps held, long)
  IsPart-Keeps (opening offset hashed) (there, inl fresh) = (k.dir there, inl fresh)
  IsPart-Keeps (opening offset hashed) (there, inr (held, long)) =
      (k.dir there, inr (Holding-Keeps held, long))
  IsPart-Keeps (receiving h written hashed) r = record {
    leads = k.name ∙ r.leads;
    same = k.content h.inode r.leads ∙ r.same;
    counted = r.counted;
    place = r.place;
  }
  IsPart-Keeps (verified written actual) m = record {
    content = m.content;
    held = Holding-Keeps m.held;
    digested = m.digested;
    measured = m.measured;
    reported = m.reported;
    counted = m.counted;
  }
  IsPart-Keeps (stashed written actual replaced undo) m = record {
    content = m.content;
    held = Holding-Keeps m.held;
    digested = m.digested;
    measured = m.measured;
    reported = m.reported;
    counted = m.counted;
  }
  IsPart-Keeps offered p = tt
  IsPart-Keeps claimed p = tt
  IsPart-Keeps (returned a) p = tt
