-- ===== src/Transfer/Receive/Integrity.antt =====
-- crates/zyris-capkit/src/transfer/peer.rs: any number of calls of push_offer, in any interleaving of
-- their steps.
use zyris_protocol.Prelude.{ℕ, ◌≡◌}
use zyris_protocol.Transfer.Disk.{Disk}
use zyris_protocol.Transfer.Offer.{TransferDone, returned, done, System, Config}
use zyris_protocol.Transfer.Receive.Delivered.{Delivered}
use zyris_protocol.Transfer.Receive.Invariant.{IsSeparate, IsSound}

module _ (c : Config) (sep : IsSeparate c) (s : System) (i : ℕ) (v : IsSound c s) where
  Told : System → TransferDone → Type 0
  Told t r = t.stage i ≡ returned (done r) → Delivered c i t.disk t.audit r
