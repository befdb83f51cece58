-- ===== src/Core/Ending/Outcome.antt =====
-- What a shutdown leaves behind.
use zyris_protocol.Prelude.{
  Bool-cases, inl, inr, subst, arith, ◌==◌, if◌then◌else◌, ℕ, ◌≡◌, refl, ap, ◌∙◌, true, none, some,
  List, [], ◌∷◌, ◌++◌, map, get_elem?, if-elim, Option-elim, lookup, Text,
}
use zyris_protocol.Proto.Error.{connection_lost}
use zyris_protocol.Core.State.{
  failure, CloseReason, graceful, WriterCmd, close, failed, IncomingStreamEntry, InflightCall,
  Shared,
}
use zyris_protocol.Core.Sending.{put_out}
use zyris_protocol.Core.Serving.{update_call, abort_call}
use zyris_protocol.Core.Ending.{
  fail_pending, fail_incoming, cancel_gates, abort_all, shutdown, said, first_reason, reason_text,
}
use zyris_protocol.Core.Ending.Gates.{holds_at, is_canceled, cancel_gates-hits, cancel_gates-only}
use zyris_protocol.Core.Requests.{close_normal}
use zyris_protocol.Core.Ending.Aborted.{is_aborted, Keeps, abort_call-Keeps, abort_call-hits}

abort_call-only :
    (s : Shared) (k : ℕ) → abort_call s k ≡ record s { calls = (abort_call s k).calls }
unfolding abort_call update_call
abort_call-only s k =
    Option-elim (λ (t : Shared). t ≡ record s { calls = t.calls }) (get_elem? s.calls k) refl
      (λ call _. refl)

abort_all-only :
    (m : List (ℕ × InflightCall)) (s : Shared)
    → abort_all s m ≡ record s { calls = (abort_all s m).calls }
unfolding abort_all
abort_all-only [] s = refl
abort_all-only ((id, entry) ∷ m) s =
    let next = abort_call s entry.task in
    abort_all-only m next
    ∙ ap (λ (t : Shared). record t { calls = (abort_all next m).calls })
        (abort_call-only s entry.task)

-- Every waiting caller and every open stream is told, the tables are empty, a task that waits for
-- credit is refused, and the connection counts as closed.
pub record IsShut (s : Shared) (reason : CloseReason) (later : Shared) : Type 0 where
  pub no_pending : later.pending ≡ []
  pub no_incoming : later.incoming ≡ []
  pub no_inflight : later.inflight ≡ []
  pub no_attachments : later.attachments ≡ []
  pub no_credits : later.credits ≡ []
  pub callers_told :
      later.results ≡ s.results ++ map (λ (p : ℕ × ℕ). (p.1, failure connection_lost)) s.pending
  pub streams_told :
      later.events
      ≡ s.events
        ++ map (λ (p : ℕ × IncomingStreamEntry). (p.1.tx, failed connection_lost)) s.incoming
  pub gates_canceled :
      (stream gate : ℕ)
      → lookup s.credits stream ≡ some gate
      → holds_at is_canceled later.gates gate ≡ true
  -- The first reason stays; a peer that said that it closes gives the reason.
  pub closed_before : (old : CloseReason) → s.closed ≡ some old → later.closed ≡ some old
  pub closed_by_peer :
      (msg : Text) → s.closed ≡ none → s.graceful ≡ some msg → later.closed ≡ some (graceful msg)
  pub closed_now : s.closed ≡ none → s.graceful ≡ none → later.closed ≡ some reason
  -- The peer is told the reason of this shutdown, or its own.
  pub peer_told :
      s.writer_alive ≡ true
      → s.graceful ≡ none
      → later.out ≡ s.out ++ (close close_normal (reason_text reason) ∷ [])
  pub peer_told_back :
      (msg : Text)
      → s.writer_alive ≡ true
      → s.graceful ≡ some msg
      → later.out ≡ s.out ++ (close close_normal (reason_text (graceful msg)) ∷ [])
  pub tasks_aborted :
      (id : ℕ) (entry : InflightCall)
      → lookup s.inflight id ≡ some entry
      → is_aborted later entry.task ≡ true

fail_pending_lem :
    (m : List (ℕ × ℕ)) → fail_pending m ≡ map (λ (p : ℕ × ℕ). (p.1, failure connection_lost)) m
unfolding fail_pending
fail_pending_lem [] = refl
fail_pending_lem ((id, tx) ∷ m) = ap (◌∷◌ (tx, failure connection_lost)) (fail_pending_lem m)

fail_incoming_lem :
    (m : List (ℕ × IncomingStreamEntry))
    → fail_incoming m ≡ map (λ (p : ℕ × IncomingStreamEntry). (p.1.tx, failed connection_lost)) m
unfolding fail_incoming
fail_incoming_lem [] = refl
fail_incoming_lem ((stream, entry) ∷ m) =
    ap (◌∷◌ (entry.tx, failed connection_lost)) (fail_incoming_lem m)

put_out-only :
    (s : Shared) (cmd : WriterCmd) → put_out s cmd ≡ record s { out = (put_out s cmd).out }
unfolding put_out
put_out-only s cmd = if-elim (λ (t : Shared). t ≡ record s { out = t.out }) s.writer_alive refl refl

put_out-alive :
    (s t : Shared) (cmd : WriterCmd)
    → s ≡ t
    → t.writer_alive ≡ true
    → (put_out s cmd).out ≡ t.out ++ (cmd ∷ [])
unfolding put_out
put_out-alive s t cmd e alive =
    ap (λ (u : Shared). (put_out u cmd).out) e
    ∙ ap (λ b. (if b then record t { out = t.out ++ (cmd ∷ []) } else t).out) alive

abort_all-Keeps : (m : List (ℕ × InflightCall)) (s : Shared) → Keeps s (abort_all s m)
unfolding abort_all Keeps
abort_all-Keeps [] s k h = h
abort_all-Keeps ((id, entry) ∷ m) s k h =
    abort_all-Keeps m (abort_call s entry.task) k (abort_call-Keeps s entry.task k h)

abort_all-hits :
    (m : List (ℕ × InflightCall)) (s : Shared) (id : ℕ) (entry : InflightCall)
    → lookup m id ≡ some entry
    → is_aborted (abort_all s m) entry.task ≡ true
unfolding abort_all lookup Keeps
abort_all-hits [] s id entry h = absurd (ground arith)
abort_all-hits ((j, x) ∷ m) s id entry h = elim (Bool-cases (j == id)) [
  | inl same ↦
      let at_head : x ≡ entry = ground (arith, same) in
      abort_all-Keeps m (abort_call s x.task) entry.task (
        subst (λ (e : InflightCall). is_aborted (abort_call s x.task) e.task ≡ true) at_head
          (abort_call-hits s x.task))
  | inr other ↦ abort_all-hits m (abort_call s x.task) id entry (ground (arith, other))
]

-- A shutdown tells every waiting caller and every open stream that the connection is lost, empties
-- the tables, cancels every gate of a stream, aborts the task of every call, tells the peer why, if
-- the writer is there, and closes the connection: with the reason that it was closed with before,
-- else with the one that the peer announced, else with the given one.
pub shutdown-IsShut : (s : Shared) (reason : CloseReason) → IsShut s reason (shutdown s reason)
unfolding shutdown
shutdown-IsShut s reason =
    let final = said s.graceful reason in
    let told = record s {
      graceful = none;
      results = s.results ++ fail_pending s.pending;
      pending = [];
      events = s.events ++ fail_incoming s.incoming;
      incoming = [];
    } in
    let gated = cancel_gates told s.credits in
    let cleared = record gated { credits = []; attachments = [] } in
    let stopped = abort_all cleared s.inflight in
    let last = record stopped { inflight = []; closed = some (first_reason s.closed final) } in
    let cmd = close close_normal (reason_text final) in
    let same : last ≡ record told {
      gates = gated.gates;
      calls = stopped.calls;
      credits = [];
      attachments = [];
      inflight = [];
      closed = some (first_reason s.closed final);
    } =
      ap (λ (t : Shared). record t { inflight = []; closed = some (first_reason s.closed final) })
        (abort_all-only s.inflight cleared)
      ∙ ap
          (λ (t : Shared). record t {
            calls = stopped.calls;
            credits = [];
            attachments = [];
            inflight = [];
            closed = some (first_reason s.closed final);
          })
          (cancel_gates-only s.credits told) in
    let whole : shutdown s reason ≡ record told {
      out = (shutdown s reason).out;
      gates = gated.gates;
      calls = stopped.calls;
      credits = [];
      attachments = [];
      inflight = [];
      closed = some (first_reason s.closed final);
    } =
      put_out-only last cmd
      ∙ ap (λ (t : Shared). record t { out = (shutdown s reason).out }) same in
    record {
      no_pending = ap (λ (t : Shared). t.pending) whole;
      no_incoming = ap (λ (t : Shared). t.incoming) whole;
      no_inflight = ap (λ (t : Shared). t.inflight) whole;
      no_attachments = ap (λ (t : Shared). t.attachments) whole;
      no_credits = ap (λ (t : Shared). t.credits) whole;
      callers_told =
          ap (λ (t : Shared). t.results) whole ∙ ap (◌++◌ s.results) (fail_pending_lem s.pending);
      streams_told =
          ap (λ (t : Shared). t.events) whole ∙ ap (◌++◌ s.events) (fail_incoming_lem s.incoming);
      gates_canceled = λ stream gate h.
          ap (λ (t : Shared). holds_at is_canceled t.gates gate) whole
          ∙ cancel_gates-hits s.credits told stream gate h;
      closed_before =
          λ old h. ap (λ (t : Shared). t.closed) whole ∙ ap (λ o. some (first_reason o final)) h;
      closed_by_peer = λ msg h k.
          ap (λ (t : Shared). t.closed) whole
          ∙ ap (λ o. some (first_reason o final)) h
          ∙ ap (λ g. some (said g reason)) k;
      closed_now = λ h k.
          ap (λ (t : Shared). t.closed) whole
          ∙ ap (λ o. some (first_reason o final)) h
          ∙ ap (λ g. some (said g reason)) k;
      peer_told = λ alive h.
          put_out-alive last _ cmd same alive
          ∙ ap (λ g. s.out ++ (close close_normal (reason_text (said g reason)) ∷ [])) h;
      peer_told_back = λ msg alive h.
          put_out-alive last _ cmd same alive
          ∙ ap (λ g. s.out ++ (close close_normal (reason_text (said g reason)) ∷ [])) h;
      tasks_aborted = λ id entry h.
          ap (λ (t : Shared). is_aborted t entry.task) whole
          ∙ abort_all-hits s.inflight cleared id entry h;
    }
