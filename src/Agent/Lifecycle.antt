-- ===== src/Agent/Lifecycle.antt =====
-- The threads of an agent: `Agent::run` with `Agent::session_loop`, `Agent::heartbeat_loop` and
-- `Agent::request_stop` of agent/src/agent/main.cpp, in steps that end where a thread sleeps, waits or
-- tests a flag.
pub mod Down
pub mod Orderly
pub mod Stopping
use webhook_ops.Common.{
  ℕ, zero, suc, ◌≡◌, refl, Bool, true, false, Option, none, some, List, [], ◌∷◌, codes,
  if◌then◌else◌, ◌&&◌,
}
use webhook_ops.Wire.{Frame, heartbeat, control_stream, text_payload}
use webhook_ops.Agent.Session
use webhook_ops.Agent.Session.{Agent, reply, send, close_all_streams}

-- Where the thread of `run` is: before its test of `stopping_`, in `connect_once` before the channel is
-- there, before the test of `session_loop`, in the `recv_frame` of `session_loop`, in one of its sleeps,
-- or behind its loop.
pub data Place : Type 0 where
  testing connecting looping in_session asleep ended : Place

pub record Lifecycle : Type 0 where
  pub agent : Agent
  pub stopping : Bool
  pub place : Place
  -- How many threads run `heartbeat_loop`.
  pub heartbeats : ℕ

-- `connect_once`, with its answer.
unfoldable pub connect : Bool → Lifecycle → Lifecycle
connect succeeds l =
    if succeeds
    then record l {
      agent = record l.agent { connected = true; channel_valid = true };
      place = looping;
      heartbeats = suc l.heartbeats;
    }
    else record l { place = asleep }

-- The end of `session_loop` and what stands behind it.
unfoldable pub leave_session : Lifecycle → Lifecycle
unfolding close_all_streams
leave_session l = record l {
  agent = record (close_all_streams (record l.agent { connected = false })) {
    channel_valid = false;
  };
  place = if l.stopping then ended else asleep;
}

-- The tests at the begin of a round of `session_loop`.
unfoldable pub test_session : Lifecycle → Lifecycle
unfolding leave_session
test_session l =
    if l.agent.connected && l.agent.channel_valid
    then record l { place = in_session }
    else leave_session l

-- The `recv_frame` of `session_loop` ends; on a channel that was closed it gives no frame. What is done
-- with the frame is an event of the session.
unfoldable pub receive_frame : Bool → Lifecycle → Lifecycle
unfolding leave_session
receive_frame arrives l =
    if arrives && l.agent.channel_valid then record l { place = looping } else leave_session l

-- The next step of the thread of `run`; the flag is the answer of `connect_once` or says that
-- `recv_frame` has a frame.
unfoldable pub advance : Bool → Place → Lifecycle → Lifecycle
unfolding connect leave_session test_session receive_frame
advance succeeds testing l = record l { place = if l.stopping then ended else connecting }
advance succeeds connecting l = connect succeeds l
advance succeeds looping l = test_session l
advance succeeds in_session l = receive_frame succeeds l
advance succeeds asleep l = record l { place = testing }
advance succeeds ended l = l

-- A thread of `heartbeat_loop` wakes up.
unfoldable pub beat : Bool → ℕ → Lifecycle → Lifecycle
unfolding send
beat delivered zero l = l
beat delivered (suc others) l =
    let tried =
      send delivered (reply heartbeat control_stream (text_payload (codes "alive"))) l.agent in
    if l.agent.connected
    then (if tried.0
        then record l { agent = tried.1 }
        else record l { agent = record tried.1 { connected = false }; heartbeats = others })
    else record l { heartbeats = others }

unfoldable pub request_stop : Lifecycle → Lifecycle
unfolding close_all_streams
request_stop l = if l.stopping then l else record l {
  agent = close_all_streams (record l.agent { connected = false; channel_valid = false });
  stopping = true;
}

pub data Event : Type 0 where
  run_moves : Bool → Event
  beats : Bool → Event
  stop_requested : Event
  session : Session.Event → Event

unfoldable pub step : Event → Lifecycle → Lifecycle
unfolding advance beat request_stop
step (run_moves succeeds) l = advance succeeds l.place l
step (beats delivered) l = beat delivered l.heartbeats l
step stop_requested l = request_stop l
step (session e) l = record l { agent = Session.step e l.agent }

unfoldable pub run : List Event → Lifecycle → Lifecycle
unfolding step
run [] l = l
run (e ∷ events) l = run events (step e l)
