-- ===== src/Transfer/Receive/Calls.antt =====
-- crates/zyris-capkit/src/transfer/peer.rs: the calls of push_offer together, with InFlight::claim and
-- the guard that gives a transfer free again.
use zyris_protocol.Prelude.{
  ℕ, Bool, true, false, not, none, some, List, [], ◌∷◌, ltb, ◌==◌, if◌then◌else◌, Text,
}
use zyris_protocol.Transfer.Disk.{Disk}
use zyris_protocol.Transfer.Offer.{
  too_large, transfer_in_flight, no_receiver, Stage, offered, claimed, returned, failed, Input,
  begin, System, Move, Config, is_active,
}
use zyris_protocol.Transfer.Receive.{handle}
use zyris_protocol.Prelude.Named.{lookup_name, remove_name, insert_name}

unfoldable pub set_stage : (ℕ → Stage) → ℕ → Stage → ℕ → Stage
set_stage stages i stage j = if i == j then stage else stages j

-- `held.insert(transfer_id)`.
unfoldable pub is_held : List (Text × Unit {0}) → Text → Bool
unfolding lookup_name
is_held held id = elim (lookup_name held id) [ none ↦ false | some u ↦ true ]

module _ (c : Config) where
  -- Up to the destination: the size, the claim, and whether this node receives at all.
  unfoldable pub admit : System → ℕ → System
  unfolding set_stage is_held insert_name
  admit s i =
      if ltb c.max_file_bytes (c.offer i).size
      then record s { stage = set_stage s.stage i (returned (failed too_large)) }
      else if is_held s.in_flight (c.offer i).transfer_id
      then record s { stage = set_stage s.stage i (returned (failed transfer_in_flight)) }
      else if not c.has_peer
      then record s { stage = set_stage s.stage i (returned (failed no_receiver)) }
      else record s {
        in_flight = insert_name s.in_flight (c.offer i).transfer_id tt;
        stage = set_stage s.stage i claimed;
      }

  -- A call that returns drops its guard.
  unfoldable pub settle_call : System → ℕ → Move → System
  unfolding set_stage is_active remove_name
  settle_call s i m = record s {
    disk = m.disk;
    seq = m.seq;
    audit = m.audit;
    in_flight =
        if is_active m.stage then s.in_flight else remove_name s.in_flight (c.offer i).transfer_id;
    stage = set_stage s.stage i m.stage;
  }

  unfoldable pub step : System → ℕ → Input → System
  unfolding settle_call
  step s i begin = elim (s.stage i) [ offered ↦ admit s i | _ ↦ s ]
  step s i input =
      if is_active (s.stage i)
      then settle_call s i (handle c i s.disk s.seq s.audit (s.stage i) input)
      else s

  unfoldable pub run : System → List (ℕ × Input) → System
  run s [] = s
  run s ((i, input) ∷ events) = run (step s i input) events

-- No call has begun; whatever lies on the disk.
unfoldable pub start : Disk → System
start d = record { disk = d; seq = 0; in_flight = []; audit = []; stage = λ i. offered }
