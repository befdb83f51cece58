-- ===== src/Core/Handshake.antt =====
-- The handshake (`establish`): what each side does with the other's first envelope, and what both
-- settle on. Reading that envelope off the transport, and a failed send, are left out.
use zyris_protocol.Prelude.{
  ℕ, ◌+◌, ◌-◌, ◌^◌, min, max, ◌≡◌, refl, ap, Bool, true, false, ◌&&◌, ◌||◌, Option, none, some,
  List, [], ◌∷◌, ◌++◌, ◌==◌, if◌then◌else◌, Text, codes, text_eq,
}
use zyris_protocol.Proto.Value.{Payload}
use zyris_protocol.Proto.Error.{new, with_data, unsupported_version, parse_error}
use zyris_protocol.Proto.Envelope.{
  Serialization, msgpack, json, HeartbeatConfig, Limits, Hello, HelloAck, NodeAddress, Envelope,
  hello, hello_ack, err, protocol_major, protocol_minor, feature_attachments, feature_cancel,
  feature_heartbeat,
}
use zyris_protocol.Core.CloseReason.{truncate_close_reason}
use zyris_protocol.Core.Requests.{close_normal}
use zyris_protocol.Core.State.{WireResult, success, failure}

pub record ConnectionInfo : Type 0 where
  pub conn_id : Text
  pub node_id : Text
  pub resume_token : Text
  pub resumed : Bool
  pub serialization : Serialization
  pub peer_agent : Option Text
  pub peer_kind : Option Text
  pub node : Option NodeAddress

pub record AcceptOptions : Type 0 where
  pub node_id : Text
  pub node : Option NodeAddress
  pub conn_id : Text
  pub resume_token : Text
  pub resumed : Bool
  pub limits : Limits
  pub heartbeat : HeartbeatConfig
  pub reserved_capabilities : List Text
  pub features : List Text

pub record Features : Type 0 where
  pub local : List Text
  pub peer : List Text

-- What the roles leave for the common part.
pub record Settled : Type 0 where
  pub serialization : Serialization
  pub limits : Limits
  pub info : ConnectionInfo
  pub reserved : List Text
  pub features : Features
  pub heartbeat : HeartbeatConfig

-- `iter().any(|f| f == feature)`.
abbrev pub lists : List Text → Text → Bool
lists [] feature = false
lists (f ∷ fs) feature = text_eq f feature || lists fs feature

unfoldable pub agreed : Features → Text → Bool
agreed features feature = lists features.local feature && lists features.peer feature

abbrev pub dialer_features : List Text
dialer_features = feature_cancel ∷ feature_attachments ∷ feature_heartbeat ∷ []

unfoldable pub dial_hello : Text → Text → Text → Hello
dial_hello agent kind name = record {
  protocol = record { major = protocol_major; minors_supported = protocol_minor ∷ [] };
  serialization = msgpack ∷ json ∷ [];
  agent = agent;
  kind = some kind;
  node_name = some name;
  features = dialer_features;
  resume = none;
}

-- `digits` writes a number; `peer_major` makes the payload that holds it.
module _ (digits : ℕ → Text) (peer_major : ℕ → Payload) where
  -- The dialer, on the first message that came.
  unfoldable pub settle_ack : HelloAck → WireResult Settled
  unfolding new with_data
  settle_ack ack =
      if ack.protocol.major == protocol_major
      then success (record {
        serialization = ack.serialization;
        limits = ack.limits;
        info = record {
          conn_id = ack.conn_id;
          node_id = ack.node_id;
          resume_token = ack.resume_token;
          resumed = ack.resumed;
          serialization = ack.serialization;
          peer_agent = none;
          peer_kind = none;
          node = ack.node;
        };
        reserved = [];
        features = record { local = dialer_features; peer = ack.features };
        heartbeat = ack.heartbeat;
      })
      else failure (
          with_data (new unsupported_version (codes "server speaks v" ++ digits ack.protocol.major))
            (peer_major ack.protocol.major))

  unfoldable pub dial : Envelope → WireResult Settled
  unfolding settle_ack new
  dial (hello_ack ack) = settle_ack ack
  dial (err id error) = failure error
  dial _ = failure (new parse_error (codes "expected hello_ack"))

abbrev pub first_or_msgpack : List Serialization → Serialization
first_or_msgpack [] = msgpack
first_or_msgpack (s ∷ ss) = s

-- `CLOSE_UNSUPPORTED_VERSION`.
abbrev pub close_unsupported_version : ℕ
close_unsupported_version = 4400

-- The acceptor's answer, and what it settles on.
unfoldable pub answer_ack : Hello → AcceptOptions → HelloAck
answer_ack h options = record {
  protocol = record { major = protocol_major; minor = protocol_minor };
  serialization = first_or_msgpack h.serialization;
  conn_id = options.conn_id;
  resume_token = options.resume_token;
  node_id = options.node_id;
  node = options.node;
  heartbeat = options.heartbeat;
  limits = options.limits;
  resumed = options.resumed;
  features = options.features;
}

unfoldable pub settle_accept : Hello → AcceptOptions → Settled
settle_accept h options = record {
  serialization = first_or_msgpack h.serialization;
  limits = options.limits;
  info = record {
    conn_id = options.conn_id;
    node_id = options.node_id;
    resume_token = options.resume_token;
    resumed = options.resumed;
    serialization = first_or_msgpack h.serialization;
    peer_agent = some h.agent;
    peer_kind = h.kind;
    node = options.node;
  };
  reserved = options.reserved_capabilities;
  features = record { local = options.features; peer = h.features };
  heartbeat = options.heartbeat;
}

-- What is answered (if anything), the close frame that is sent (if any), and the outcome. `decide` is
-- the acceptor's owner.
unfoldable pub accept :
    (ℕ → Text)
    → (Hello → WireResult AcceptOptions)
    → Envelope
    → Option Envelope × Option (ℕ × Text) × WireResult Settled
unfolding answer_ack settle_accept new truncate_close_reason
accept digits decide (hello h) =
    if h.protocol.major == protocol_major
    then elim (decide h) [
      | failure error ↦ (
        some (err 0 error),
        some (close_normal, truncate_close_reason error.message),
        failure error,
      )
      | success options ↦
          (some (hello_ack (answer_ack h options)), none, success (settle_accept h options))
    ]
    else (
      some (err 0 (new unsupported_version (codes "supported major " ++ digits protocol_major))),
      some (close_unsupported_version, codes "unsupported version"),
      failure (new unsupported_version (codes "peer speaks v" ++ digits h.protocol.major)),
    )
accept digits decide _ = (none, none, failure (new parse_error (codes "expected hello")))

-- The common part: the timeout is longer than the interval, up to the largest u32.
unfoldable pub effective : HeartbeatConfig → HeartbeatConfig
effective h = record {
  interval_s = h.interval_s;
  timeout_s = max h.timeout_s (min (h.interval_s + 1) (2 ^ 32 - 1));
}

-- Both ends of one connection.
pub record Agree (a d : Settled) : Type 0 where
  pub same_serialization : a.serialization ≡ d.serialization
  pub same_limits : a.limits ≡ d.limits
  pub same_heartbeat : effective a.heartbeat ≡ effective d.heartbeat
  pub same_node : a.info.node ≡ d.info.node
  pub same_token : a.info.resume_token ≡ d.info.resume_token
  pub same_features : (feature : Text) → agreed a.features feature ≡ agreed d.features feature

and_comm : (a b : Bool) → (a && b) ≡ (b && a)
and_comm true true = refl
and_comm true false = refl
and_comm false true = refl
and_comm false false = refl

-- When an acceptor takes a dialer's hello, its answer makes the dialer settle on the same
-- serialization, limits, heartbeat, node and resume token, and the same features are usable on
-- both ends.
pub accept-dial :
    (digits : ℕ → Text) (peer_major : ℕ → Payload) (decide : Hello → WireResult AcceptOptions)
    (agent kind name : Text) (options : AcceptOptions)
    → decide (dial_hello agent kind name) ≡ success options
    → let h = dial_hello agent kind name in
      (d : Settled) × (dial digits peer_major (hello_ack (answer_ack h options)) ≡ success d)
      × (accept digits decide (hello h)
          ≡ (some (hello_ack (answer_ack h options)), none, success (settle_accept h options)))
      × Agree (settle_accept h options) d
unfolding dial settle_ack accept answer_ack settle_accept dial_hello agreed
accept-dial digits peer_major decide agent kind name options q =
    let h = dial_hello agent kind name in
    let info : ConnectionInfo = record {
      conn_id = options.conn_id;
      node_id = options.node_id;
      resume_token = options.resume_token;
      resumed = options.resumed;
      serialization = msgpack;
      peer_agent = none;
      peer_kind = none;
      node = options.node;
    } in
    let d : Settled = record {
      serialization = msgpack;
      limits = options.limits;
      info = info;
      reserved = [];
      features = record { local = dialer_features; peer = options.features };
      heartbeat = options.heartbeat;
    } in
    (
      d,
      refl,
      ap
          (λ (o : WireResult AcceptOptions).
            elim o as (λ _. Option Envelope × Option (ℕ × Text) × WireResult Settled) [
              | failure error ↦ (
                some (err 0 error),
                some (close_normal, truncate_close_reason error.message),
                failure error,
              )
              | success chosen ↦
                  (some (hello_ack (answer_ack h chosen)), none, success (settle_accept h chosen))
            ])
          q,
      record {
        same_serialization = refl;
        same_limits = refl;
        same_heartbeat = refl;
        same_node = refl;
        same_token = refl;
        same_features =
            λ feature. and_comm (lists options.features feature) (lists dialer_features feature);
      },
    )
