-- ===== src/Tests/Reconnects.antt =====
-- Links that lose their server, come back, and are told to stop.
use zyris_protocol.Prelude.{ℕ, ◌≤◌, ◌≡◌, refl, true, false, none, some, List, [], ◌∷◌, arith, codes}
use zyris_protocol.Core.Handshake.{ConnectionInfo}
use zyris_protocol.Proto.Envelope.{msgpack}
use zyris_protocol.Node.Refusal.{unreachable, closed, io, unauthorized_token, is_fatal, into_result}
use zyris_protocol.Node.Link.{
  running, resting, dialed, Link, connected, refused, Event, disconnect, began, woke, noticed,
  answered, lost, wait_closed, jitter, step, run, start,
}
use zyris_protocol.Node.Link.Stopping.{dials, HasFinished, run-disconnect}
use zyris_protocol.Node.Link.Sound.{IsSound, run-start}
use zyris_protocol.Node.Link.Retrying.{GoesOn, run-rounds}

abbrev laptop : ConnectionInfo
laptop = record {
  conn_id = codes "c";
  node_id = codes "n";
  resume_token = [];
  resumed = false;
  serialization = msgpack;
  peer_agent = none;
  peer_kind = none;
  node = none;
}

abbrev first_failed : Link
first_failed = record {
  phase = resting;
  backoff = 1000;
  stop = running;
  current = none;
  acts = dialed ∷ [];
}

-- Up for a minute, lost, and refused: the back-off started again from the bottom.
abbrev a_day : List Event
a_day =
    woke
    ∷ answered (connected laptop)
    ∷ lost 60000
    ∷ woke
    ∷ answered (refused (unreachable closed))
    ∷ []

waited : (run true first_failed a_day).backoff ≡ 2000
unfolding run step
waited = refl

refused_for_good :
    wait_closed (run true first_failed (woke ∷ answered (refused unauthorized_token) ∷ []))
    ≡ some (some unauthorized_token)
unfolding run step wait_closed into_result
refused_for_good = refl

run-start_example :
    IsSound (run true first_failed a_day)
    × ((hash : ℕ)
        → (800 ≤ jitter (run true first_failed a_day).backoff hash)
          × (jitter (run true first_failed a_day).backoff hash ≤ 36000))
unfolding start is_fatal
run-start_example = run-start true (refused (unreachable closed)) first_failed a_day refl

run-rounds_example : GoesOn true (closed ∷ io [] ∷ []) laptop first_failed
run-rounds_example =
    run-rounds true first_failed (closed ∷ io [] ∷ []) laptop refl refl (omega arith)

run-disconnect_example :
    let told_one = run true (step true first_failed disconnect) (woke ∷ []) in
    (dials told_one.acts ≡ dials first_failed.acts)
    × HasFinished (run true told_one (began ∷ answered (connected laptop) ∷ noticed ∷ a_day)).phase
run-disconnect_example = run-disconnect true first_failed (woke ∷ []) a_day (connected laptop) refl
