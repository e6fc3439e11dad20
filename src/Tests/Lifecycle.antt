-- ===== src/Tests/Lifecycle.antt =====
-- The threads of an agent (agent/src/agent/main.cpp) at concrete runs.
use webhook_ops.Common.{◌≡◌, refl, true, false, List, arith, [], ◌∷◌, ◌+◌, codes}
use webhook_ops.Wire.{open_stream}
use webhook_ops.Agent.Session.{Agent, socket, receive}
use webhook_ops.Agent.Lifecycle.{
  testing, connecting, in_session, ended, Lifecycle, request_stop, Event, run_moves, beats,
  stop_requested, session, run,
}
use webhook_ops.Agent.Lifecycle.Orderly.{IsOrderly, run-IsOrderly}
use webhook_ops.Agent.Lifecycle.Stopping.{
  request_stop-ends, stop_lost, reconnects, reconnects-heartbeats,
}

abbrev agent : Agent
agent = record {
  allowlist = codes "db:80" ∷ [];
  connected = false;
  channel_valid = false;
  sent = [];
  objects = [];
  streams = [];
  connects = [];
  closes = [];
}

abbrev at_start : Lifecycle
at_start = record { agent = agent; stopping = false; place = testing; heartbeats = 0 }

abbrev at_connect : Lifecycle
at_connect = record at_start { place = connecting }

abbrev at_work : Lifecycle
at_work = record at_start {
  agent = record agent { connected = true; channel_valid = true };
  place = in_session;
  heartbeats = 1;
}

-- A session in which a frame comes, the connection is lost, and the agent is asked to stop.
abbrev events : List Event
events =
    run_moves true
    ∷ run_moves true
    ∷ run_moves true
    ∷ run_moves true
    ∷ session (
        receive (λ e. socket 7) true true
          (record { frame_type = open_stream; stream_id = 1; payload = codes "db\n80" }))
    ∷ beats false
    ∷ run_moves true
    ∷ stop_requested
    ∷ []

run-IsOrderly_example : IsOrderly (run events at_start)
run-IsOrderly_example =
    run-IsOrderly events at_start (record { idle = refl; halted = refl; beating = refl })

-- A frame is handled and a heartbeat fails before the thread moves.
abbrev around : List Event
around =
    session (
      receive (λ e. socket 7) true true
        (record { frame_type = open_stream; stream_id = 1; payload = codes "db\n80" }))
    ∷ beats false
    ∷ run_moves true
    ∷ stop_requested
    ∷ []

request_stop-ends_example : (run (stop_requested ∷ around) at_work).place ≡ ended
request_stop-ends_example = request_stop-ends around at_work refl refl (omega arith)

stop_lost_example :
    let l' = run (stop_requested ∷ run_moves true ∷ run_moves true ∷ []) at_connect in
    (l'.place ≡ in_session)
    × (l'.agent.connected ≡ true)
    × (l'.stopping ≡ true)
    × (request_stop l' ≡ l')
    × (run (run_moves true ∷ run_moves true ∷ []) l' ≡ l')
stop_lost_example = stop_lost at_connect refl refl

reconnects-heartbeats_example : (run (reconnects 3) at_work).heartbeats ≡ 3 + 1
reconnects-heartbeats_example = reconnects-heartbeats 3 at_work refl refl
