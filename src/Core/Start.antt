-- ===== src/Core/Start.antt =====
-- The state that `establish` starts a connection with.
use zyris_protocol.Prelude.{ℕ, true, none, List, [], Text}
use zyris_protocol.Core.State.{Shared}

pub data Side : Type 0 where
  dialer acceptor : Side

-- Streams that this side opens have the parity of the first.
abbrev pub first_stream : Side → ℕ
first_stream dialer = 1
first_stream acceptor = 2

abbrev pub start : Side → List Text → Shared
start side caps = record {
  out = [];
  writer_alive = true;
  next_req_id = 1;
  next_stream_id = first_stream side;
  pending = [];
  results = [];
  next_channel = 0;
  incoming = [];
  events = [];
  gates = [];
  credits = [];
  attachments = [];
  spawned = [];
  inflight = [];
  calls = [];
  caps = caps;
  peer_caps = [];
  announced = 0;
  graceful = none;
  closed = none;
}
