-- ===== src/Transfer/Receive/Invariant.antt =====
-- crates/zyris-capkit/src/transfer/peer.rs: the invariant of all calls of push_offer on one disk.
use zyris_protocol.Prelude.{
  ℕ, ◌≡◌, refl, ◌≢◌, true, false, List, arith, if◌then◌else◌, Text, text_eq,
}
use zyris_protocol.Prelude.Named.{
  remove_name, insert_name, lookup_name-remove_name, lookup_name-insert_name,
}
use zyris_protocol.Transfer.Disk.{Disk}
use zyris_protocol.Transfer.Disk.Tidy.{IsTidy}
use zyris_protocol.Transfer.Offer.{
  Stage, offered, claimed, pulling, rereading, opening, receiving, verified, stashed, returned,
  System, Config, temp, is_active,
}
use zyris_protocol.Transfer.Receive.Calls.{is_held}
use zyris_protocol.Transfer.Receive.Sound.{IsPart, Keeps, IsPart-Keeps}

-- Partial files of different transfers differ, and none is a destination.
pub record IsSeparate (c : Config) : Type 0 where
  pub parts : (i j : ℕ) → (c.offer i).transfer_id ≢ (c.offer j).transfer_id → temp c i ≢ temp c j
  pub dests : (i j : ℕ) → temp c i ≢ c.dest j

-- Calls that are under way hold their transfer, no two the same, and each knows its partial file.
pub record IsSound (c : Config) (s : System) : Type 0 where
  pub tidy : IsTidy s.disk
  pub held :
      (i : ℕ) → is_active (s.stage i) ≡ true → is_held s.in_flight (c.offer i).transfer_id ≡ true
  pub alone :
      (i j : ℕ)
      → is_active (s.stage i) ≡ true
      → is_active (s.stage j) ≡ true
      → (c.offer i).transfer_id ≡ (c.offer j).transfer_id
      → i ≡ j
  pub part : (i : ℕ) → IsPart c i s.disk (s.stage i)

pub is_held-insert :
    (held : List (Text × Unit {0})) (k j : Text)
    → is_held (insert_name held k tt) j ≡ (if text_eq k j then true else is_held held j)
unfolding is_held
is_held-insert held k j = ground (arith, lookup_name-insert_name held k j tt)

pub is_held-remove :
    (held : List (Text × Unit {0})) (k j : Text)
    → is_held (remove_name held k) j ≡ (if text_eq k j then false else is_held held j)
unfolding is_held
is_held-remove held k j = ground (arith, lookup_name-remove_name held k j)

-- A partial file survives what leaves its path alone.
module _ (c : Config) (i : ℕ) (d d' : Disk) (t : IsTidy d) where
  pub IsPart-kept :
      (stage : Stage)
      → (is_active stage ≡ true → d.dirs (temp c i).parent ≡ true → Keeps d d' (temp c i))
      → IsPart c i d stage
      → IsPart c i d' stage
  unfolding is_active
  IsPart-kept (pulling offset) k p = IsPart-Keeps c i d d' (k refl p.0) (pulling offset) p
  IsPart-kept (rereading offset) k p = IsPart-Keeps c i d d' (k refl p.0) (rereading offset) p
  IsPart-kept (opening offset hashed) k p =
      IsPart-Keeps c i d d' (k refl p.0) (opening offset hashed) p
  IsPart-kept (receiving h written hashed) k p =
      IsPart-Keeps c i d d' (k refl (t.filed _ _ p.leads)) (receiving h written hashed) p
  IsPart-kept (verified written actual) k p =
      IsPart-Keeps c i d d' (k refl (t.filed _ _ p.held.1)) (verified written actual) p
  IsPart-kept (stashed written actual replaced undo) k p =
      IsPart-Keeps c i d d' (k refl (t.filed _ _ p.held.1)) (stashed written actual replaced undo) p
  IsPart-kept offered k p = tt
  IsPart-kept claimed k p = tt
  IsPart-kept (returned a) k p = tt
