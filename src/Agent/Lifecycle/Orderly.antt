-- ===== src/Agent/Lifecycle/Orderly.antt =====
-- What holds between the steps of an agent's threads (agent/src/agent/main.cpp).
use webhook_ops.Common.{
  ℕ, zero, suc, ◌≡◌, refl, ap, Bool, true, false, ◌||◌, ◌&&◌, not, List, [], ◌∷◌, arith, codes, ltb,
  if◌then◌else◌, Bool-cases, inl, inr,
}
use webhook_ops.Wire.{Frame, heartbeat, control_stream, text_payload}
use webhook_ops.CommandLine.Accepted.{if-holds}
use webhook_ops.Agent.Session
use webhook_ops.Agent.Lifecycle.Down.{
  StaysDown, session-StaysDown, close_all_streams-connected, send-StaysDown,
}
use webhook_ops.Agent.Session.{
  Agent, Connected, socket, no_socket, reply, send, find_stream, is_open, close_object,
  remove_stream, open_object, connect_target, handle_open, contains, close_found, handle_close,
  data_found, handle_data, handle_frame, object_id, pass_on, reader_round, close_each,
  close_all_streams, receive, read_target, end_session,
}
use webhook_ops.Agent.Lifecycle.{
  Place, testing, connecting, looping, in_session, asleep, ended, Lifecycle, connect, leave_session,
  test_session, receive_frame, advance, beat, request_stop, Event, run_moves, beats, stop_requested,
  session, step, run,
}

-- In `session_loop`.
abbrev is_in_session : Place → Bool
is_in_session looping = true
is_in_session in_session = true
is_in_session _ = false

abbrev is_ended : Place → Bool
is_ended ended = true
is_ended _ = false

pub record IsOrderly (l : Lifecycle) : Type 0 where
  -- Out of a session the agent is not connected.
  pub idle : is_in_session l.place || not l.agent.connected ≡ true
  -- The thread of `run` ends only for a stop.
  pub halted : not (is_ended l.place) || l.stopping ≡ true
  -- A connected agent has a thread that sends heartbeats.
  pub beating : not l.agent.connected || ltb 0 l.heartbeats ≡ true

-- An agent that is not connected is orderly, unless its thread has ended without a stop.
down-IsOrderly :
    (l : Lifecycle)
    → l.agent.connected ≡ false
    → not (is_ended l.place) || l.stopping ≡ true
    → IsOrderly l
down-IsOrderly l down halted = record {
  idle = ground (arith, down);
  halted = halted;
  beating = rw down refl;
}

idle_down :
    (l : Lifecycle) → IsOrderly l → is_in_session l.place ≡ false → l.agent.connected ≡ false
idle_down l v out = outside (is_in_session l.place) l.agent.connected v.idle out
  where
    outside : (b c : Bool) → b || not c ≡ true → b ≡ false → c ≡ false
    outside true c e h = absurd (cc)
    outside false true e h = absurd (cc)
    outside false false e h = refl

or_right : (b : Bool) {c : Bool} → c ≡ true → b || c ≡ true
or_right true e = refl
or_right false e = e

halts :
    (stopping : Bool) (p : Place)
    → is_ended p ≡ false
    → not (is_ended (if stopping then ended else p)) || stopping ≡ true
halts true p e = refl
halts false p e = rw e refl

-- A change of the agent that does not connect it.
changed-IsOrderly :
    (l : Lifecycle) (a : Agent)
    → IsOrderly l
    → (l.agent.connected ≡ false → a.connected ≡ false)
    → IsOrderly (record l { agent = a })
changed-IsOrderly l a v keeps = elim (Bool-cases l.agent.connected) [
  | inl up ↦ record {
    idle =
        or_left (is_in_session l.place) (not l.agent.connected) (not a.connected) v.idle
          (ap not up);
    halted = v.halted;
    beating = or_right (not a.connected) (beats_on (not l.agent.connected) v.beating (ap not up));
  }
  | inr down ↦ down-IsOrderly (record l { agent = a }) (keeps down) v.halted
]
  where
    or_left : (b c d : Bool) → b || c ≡ true → c ≡ false → b || d ≡ true
    or_left true c d e h = refl
    or_left false c d e h = absurd (cc)

    beats_on : (b : Bool) {c : Bool} → b || c ≡ true → b ≡ false → c ≡ true
    beats_on true e h = absurd (cc)
    beats_on false e h = e

IsDown : Bool → Bool → Type 0
IsDown connected valid = connected ≡ false

send_down :
    (delivered : Bool) (f : Frame) (a : Agent)
    → a.connected ≡ false
    → (send delivered f a).1.connected ≡ false
unfolding IsDown StaysDown
send_down delivered f a = send-StaysDown IsDown (λ _ _ _. refl) delivered f a

session_down :
    (e : Session.Event) (a : Agent) → a.connected ≡ false → (Session.step e a).connected ≡ false
unfolding IsDown StaysDown
session_down e a = session-StaysDown IsDown (λ _ _ _. refl) e a

connect-IsOrderly :
    (succeeds : Bool) (l : Lifecycle)
    → IsOrderly l
    → l.place ≡ connecting
    → IsOrderly (connect succeeds l)
unfolding connect
connect-IsOrderly true l v e = record { idle = refl; halted = refl; beating = ground arith }
connect-IsOrderly false l v e =
    down-IsOrderly (record l { place = asleep }) (idle_down l v (ap is_in_session e)) refl

leave_session-IsOrderly : (l : Lifecycle) → IsOrderly (leave_session l)
unfolding leave_session
leave_session-IsOrderly l =
    down-IsOrderly _ (close_all_streams-connected (record l.agent { connected = false })).0
      (halts l.stopping asleep refl)

-- Another place in `session_loop`.
looping-IsOrderly :
    (p : Place) (l : Lifecycle)
    → IsOrderly l
    → is_in_session p ≡ true
    → is_ended p ≡ false
    → IsOrderly (record l { place = p })
looping-IsOrderly p l v e h = record { idle = rw e refl; halted = rw h refl; beating = v.beating }

advance-IsOrderly :
    (succeeds : Bool) (p : Place) (l : Lifecycle)
    → IsOrderly l
    → l.place ≡ p
    → IsOrderly (advance succeeds p l)
unfolding advance test_session receive_frame
advance-IsOrderly succeeds testing l v e =
    down-IsOrderly _ (idle_down l v (ap is_in_session e)) (halts l.stopping connecting refl)
advance-IsOrderly succeeds connecting l v e = connect-IsOrderly succeeds l v e
advance-IsOrderly succeeds looping l v e =
    if-holds IsOrderly (l.agent.connected && l.agent.channel_valid) _ _
      (looping-IsOrderly in_session l v refl refl) (leave_session-IsOrderly l)
advance-IsOrderly succeeds in_session l v e =
    if-holds IsOrderly (succeeds && l.agent.channel_valid) _ _
      (looping-IsOrderly looping l v refl refl) (leave_session-IsOrderly l)
advance-IsOrderly succeeds asleep l v e =
    down-IsOrderly (record l { place = testing }) (idle_down l v (ap is_in_session e)) refl
advance-IsOrderly succeeds ended l v e = v

if-either :
    (P : Lifecycle → Type 0) (b : Bool) (x y : Lifecycle)
    → P x
    → (b ≡ false → P y)
    → P (if b then x else y)
if-either P true x y k l = k
if-either P false x y k l = l refl

beat-IsOrderly :
    (delivered : Bool) (n : ℕ) (l : Lifecycle)
    → IsOrderly l
    → l.heartbeats ≡ n
    → IsOrderly (beat delivered n l)
unfolding beat
beat-IsOrderly delivered zero l v e = v
beat-IsOrderly delivered (suc n) l v e =
    let f = reply heartbeat control_stream (text_payload (codes "alive")) in
    let tried = send delivered f l.agent in
    if-either IsOrderly l.agent.connected _ (record l { heartbeats = n })
      (if-holds IsOrderly tried.0 (record l { agent = tried.1 }) _
        (changed-IsOrderly l tried.1 v (send_down delivered f l.agent))
        (down-IsOrderly (record l { agent = record tried.1 { connected = false }; heartbeats = n })
          refl v.halted))
      (λ down. down-IsOrderly (record l { heartbeats = n }) down v.halted)

request_stop-IsOrderly : (l : Lifecycle) → IsOrderly l → IsOrderly (request_stop l)
unfolding request_stop
request_stop-IsOrderly l v = if-holds IsOrderly l.stopping l _ v (
    down-IsOrderly _
      (close_all_streams-connected (record l.agent { connected = false; channel_valid = false })).0
      (or_right _ refl))

step-IsOrderly : (e : Event) (l : Lifecycle) → IsOrderly l → IsOrderly (step e l)
unfolding step
step-IsOrderly (run_moves succeeds) l v = advance-IsOrderly succeeds l.place l v refl
step-IsOrderly (beats delivered) l v = beat-IsOrderly delivered l.heartbeats l v refl
step-IsOrderly stop_requested l v = request_stop-IsOrderly l v
step-IsOrderly (session e) l v =
    changed-IsOrderly l (Session.step e l.agent) v (session_down e l.agent)

-- An orderly agent stays orderly, whatever its threads, the tunnel, the targets and the operator do, in
-- any order: out of a session it is not connected, its main thread ends only for a stop, and while it
-- is connected a thread sends heartbeats.
pub run-IsOrderly : (events : List Event) (l : Lifecycle) → IsOrderly l → IsOrderly (run events l)
unfolding run
run-IsOrderly [] l v = v
run-IsOrderly (e ∷ events) l v = run-IsOrderly events (step e l) (step-IsOrderly e l v)
