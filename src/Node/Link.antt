-- ===== src/Node/Link.antt =====
-- The link that keeps a node connected: `Link` and `maintain` in crates/zyris-core/src/node.rs.
-- The loop waits at three places, its phases; what it waits for is an event. A time is its number
-- of milliseconds. A wait of `jitter` of the back-off ends when `woke` comes.
pub mod Stopping
pub mod Sound
pub mod Retrying
use zyris_protocol.Prelude.{
  ℕ, ◌+◌, ◌*◌, ◌/◌, ◌%◌, min, Bool, Option, none, some, List, [], ◌∷◌, leb, if◌then◌else◌, Text,
}
use zyris_protocol.Core.Handshake.{ConnectionInfo}
use zyris_protocol.Node.Refusal.{ConnectError, is_fatal, Ending, asked, ending_of, into_result}
use zyris_protocol.Proto.Envelope.{NodeAddress}

abbrev pub stable_after : ℕ
stable_after = 30000

abbrev pub backoff_min : ℕ
backoff_min = 1000

abbrev pub backoff_max : ℕ
backoff_max = 30000

-- What the loop knows of its `Link`: nothing yet, `disconnect` was called, or it was dropped.
pub data Stop : Type 0 where
  running told gone : Stop

-- Spawned with the first connection held, in `select!` with the sleep of `wait_then_widen`, in
-- `redial`, in `select!` with the connection, or returned with what it left in `done`.
pub data Phase : Type 0 where
  resting dialing : Phase
  spawned up : ConnectionInfo → Phase
  finished : Ending → Phase

-- What the loop has done, newest first: a dial begun, the hook spawned, the connection closed.
pub data Act : Type 0 where
  dialed : Act
  hooked closed_by_us : ConnectionInfo → Act

pub record Link : Type 0 where
  pub phase : Phase
  pub backoff : ℕ
  pub stop : Stop
  pub current : Option ConnectionInfo
  pub acts : List Act

pub data Dialed : Type 0 where
  connected : ConnectionInfo → Dialed
  refused : ConnectError → Dialed

-- `disconnect` and `let_go`, the drop, are the caller's. `began` is the spawned task's first run,
-- `noticed` is the `stop.changed()` arm of a `select!`.
pub data Event : Type 0 where
  disconnect let_go began woke noticed : Event
  answered : Dialed → Event
  lost : ℕ → Event

-- `Link::node_id`, `none` for the empty text before the first connection, and `Link::address`.
unfoldable pub node_id : Link → Option Text
node_id l = elim l.current [ none ↦ none | some info ↦ some info.node_id ]

unfoldable pub address : Link → Option NodeAddress
address l = elim l.current [ none ↦ none | some info ↦ info.node ]

-- `Link::wait_closed`, once the loop has left its ending: `none` while it has not.
unfoldable pub wait_closed : Link → Option (Option ConnectError)
wait_closed l = elim l.phase [ finished ending ↦ some (into_result ending) | _ ↦ none ]

unfoldable pub widen : ℕ → ℕ
widen backoff = min (backoff * 2) backoff_max

-- `jitter`, for what the hasher gives; the source multiplies a floating-point number.
unfoldable pub jitter : ℕ → ℕ → ℕ
jitter base hash = base * (800 + hash % 400) / 1000

-- `stop.changed()` is ready once the link was told or dropped.
unfoldable pub heard : Link → Link → Link
heard l then_ = elim l.stop [ running ↦ l | _ ↦ then_ ]

-- The caller has one link to end: the first word stays.
unfoldable pub stopped : Stop → Stop → Stop
stopped running s = s
stopped told s = told
stopped gone s = gone

module _ (has_hook : Bool) where
  -- A connection is in hand.
  unfoldable pub come_up : Link → ConnectionInfo → Link
  come_up l info = record l {
    phase = up info;
    current = some info;
    acts = if has_hook then hooked info ∷ l.acts else l.acts;
  }

  -- The top of the loop, with a connection held or none. A link that was dropped is not told of
  -- here: `borrow` still reads `false`.
  unfoldable pub turn : Link → Option ConnectionInfo → Link
  unfolding come_up
  turn l held = elim l.stop [
    | told ↦ record l { phase = finished asked }
    | _ ↦ elim held [
      | some info ↦ come_up l info
      | none ↦ record l { phase = dialing; acts = dialed ∷ l.acts }
    ]
  ]

  unfoldable pub settle : Link → Dialed → Link
  unfolding come_up is_fatal ending_of
  settle l (connected info) = come_up l info
  settle l (refused error) =
      if is_fatal error
      then record l { phase = finished (ending_of error) }
      else record l { phase = resting }

  unfoldable pub step : Link → Event → Link
  unfolding turn heard settle widen stopped
  step l disconnect = record l { stop = stopped l.stop told }
  step l let_go = record l { stop = stopped l.stop gone }
  step l began = elim l.phase [ spawned info ↦ turn l (some info) | _ ↦ l ]
  step l woke = elim l.phase [
    | resting ↦ turn (record l { backoff = widen l.backoff }) none
    | _ ↦ l
  ]
  step l noticed = elim l.phase [
    | resting ↦ heard l (record l { phase = finished asked; backoff = widen l.backoff })
    | up info ↦ heard l (record l { phase = finished asked; acts = closed_by_us info ∷ l.acts })
    | _ ↦ l
  ]
  step l (answered r) = elim l.phase [ dialing ↦ settle l r | _ ↦ l ]
  step l (lost elapsed) = elim l.phase [
    | up info ↦ record l {
      phase = resting;
      backoff = if leb stable_after elapsed then backoff_min else l.backoff;
    }
    | _ ↦ l
  ]

  unfoldable pub run : Link → List Event → Link
  unfolding step
  run l [] = l
  run l (e ∷ es) = run (step l e) es

-- `Link::start`, with what the first dial came to, and `maintain` up to where it first waits.
unfoldable pub start : Dialed → Option Link
unfolding is_fatal
start (connected info) = some (record {
  phase = spawned info;
  backoff = backoff_min;
  stop = running;
  current = some info;
  acts = dialed ∷ [];
})
start (refused error) =
    if is_fatal error
    then none
    else some (record {
      phase = resting;
      backoff = backoff_min;
      stop = running;
      current = none;
      acts = dialed ∷ [];
    })
