-- ===== src/Tests/Agent.antt =====
-- An agent (agent/src/agent/main.cpp) at a concrete run.
use webhook_ops.Common.{refl, true, some, List, [], ◌∷◌, codes}
use webhook_ops.Streams.{count}
use webhook_ops.Wire.{Frame, open_stream}
use webhook_ops.Agent.Session.{Agent, socket, Event, receive, read_target, end_session, run}
use webhook_ops.Agent.Session.Closing.{IsClosedOnce, closings, run-IsClosedOnce}
use webhook_ops.Agent.Session.Allowlist.{IsAllowed, run-IsAllowed}

abbrev agent : Agent
agent = record {
  allowlist = codes "db:80" ∷ [];
  connected = true;
  channel_valid = true;
  sent = [];
  objects = [];
  streams = [];
  connects = [];
  closes = [];
}

abbrev to_db : Frame
to_db = record { frame_type = open_stream; stream_id = 1; payload = codes "db\n80" }

abbrev to_other : Frame
to_other = record { frame_type = open_stream; stream_id = 2; payload = codes "db\n22" }

abbrev events : List Event
events =
    receive (λ e. socket 7) true true to_db
    ∷ receive (λ e. socket 8) true true to_other
    ∷ read_target true 0 (some (codes "hi"))
    ∷ end_session
    ∷ []

run-IsAllowed_example : IsAllowed (codes "db:80" ∷ []) (run events agent)
run-IsAllowed_example = run-IsAllowed events agent (record { same = refl; allowed = tt })

run-IsClosedOnce_example : IsClosedOnce (run events agent)
unfolding count closings
run-IsClosedOnce_example = run-IsClosedOnce events agent (λ n. refl)
