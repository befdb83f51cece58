-- ===== src/Tests/Handshakes.antt =====
-- A handshake.
use zyris_protocol.Prelude.{ℕ, ◌≡◌, refl, false, none, some, [], ◌∷◌, Text, codes}
use zyris_protocol.Proto.Value.{Payload, nil}
use zyris_protocol.Proto.Envelope.{
  Hello, hello, hello_ack, default_limits, default_heartbeat, feature_cancel,
}
use zyris_protocol.Core.State.{WireResult, success}
use zyris_protocol.Core.Handshake.{
  AcceptOptions, Settled, Agree, dial, accept, dial_hello, answer_ack, settle_accept, accept-dial,
}

-- An acceptor that can only cancel.
abbrev offer : AcceptOptions
offer = record {
  node_id = codes "n1";
  node = none;
  conn_id = codes "c1";
  resume_token = codes "t1";
  resumed = false;
  limits = default_limits;
  heartbeat = default_heartbeat;
  reserved_capabilities = [];
  features = feature_cancel ∷ [];
}

abbrev greeting : Hello
greeting = dial_hello (codes "zyris/1") (codes "daemon") (codes "laptop")

abbrev take_all_comers : Hello → WireResult AcceptOptions
take_all_comers h = success offer

abbrev no_digits : ℕ → Text
no_digits n = []

abbrev no_data : ℕ → Payload
no_data n = nil

accept-dial_example :
    (d : Settled) × (dial no_digits no_data (hello_ack (answer_ack greeting offer)) ≡ success d)
    × (accept no_digits take_all_comers (hello greeting) ≡ (
      some (hello_ack (answer_ack greeting offer)),
      none,
      success (settle_accept greeting offer),
    ))
    × Agree (settle_accept greeting offer) d
accept-dial_example =
    accept-dial no_digits no_data take_all_comers (codes "zyris/1") (codes "daemon")
      (codes "laptop") offer refl
