-- ===== src/Agent/Session.antt =====
-- The streams of a connected agent: `handle_open`, `handle_data`, `handle_close`, `target_reader` and
-- `close_all_streams` of class `Agent` in agent/src/agent/main.cpp, as steps on one state. The stream
-- objects are shared between the map and the reader threads, so they stand in a store and are named
-- by their place in it.
pub mod Allowlist
pub mod Closing
use webhook_ops.Common.{
  ℕ, zero, suc, ◌+◌, ◌≡◌, refl, Bool, true, false, ◌&&◌, ◌||◌, not, Option, none, some, List, [],
  ◌∷◌, ◌++◌, Bytes, codes, length, eqb, ◌==◌, if◌then◌else◌,
}
use webhook_ops.Net.Endpoint.{Endpoint, endpoint_to_string}
use webhook_ops.Open.{parse_open_payload}
use webhook_ops.Streams.{lookup, erase}
use webhook_ops.Wire.{
  Frame, FrameType, hello, hello_ok, heartbeat, open_stream, open_ok, stream_data, close, error,
  auth_challenge, auth_response, unnamed, frame_type_name, text_payload, payload_text,
}

pub record TargetStream : Type 0 where
  pub id : ℕ
  pub target : ℕ
  pub closed : Bool

pub record Agent : Type 0 where
  pub allowlist : List Bytes
  pub connected : Bool
  -- `channel_` is there and valid.
  pub channel_valid : Bool
  -- The frames that went to the tunnel.
  pub sent : List Frame
  -- Every stream object made so far.
  pub objects : List TargetStream
  -- From stream ids to objects.
  pub streams : List (ℕ × ℕ)
  -- What `connect_tcp` was asked for.
  pub connects : List Endpoint
  -- The objects whose sockets were shut down and closed.
  pub closes : List ℕ

unfoldable pub contains : Bytes → List Bytes → Bool
contains e [] = false
contains e (a ∷ allowed) = eqb a e || contains e allowed

-- `send`; the flag is the answer of `Channel::send_frame`.
unfoldable pub send : Bool → Frame → Agent → Bool × Agent
send delivered f a =
    if a.channel_valid
    then if delivered
      then (true, record a { sent = a.sent ++ f ∷ [] })
      else (false, record a { connected = false })
    else (false, a)

abbrev pub reply : FrameType → ℕ → Bytes → Frame
reply t id text = record { frame_type = t; stream_id = id; payload = text }

unfoldable pub find_stream : ℕ → Agent → Option ℕ
unfolding lookup
find_stream id a = lookup id a.streams

-- `streams_[stream->id] = stream`
unfoldable pub add_stream : ℕ → ℕ → Agent → Agent
unfolding erase
add_stream id h a = record a { streams = (id, h) ∷ erase id a.streams }

unfoldable pub remove_stream : ℕ → Agent → Agent
unfolding erase
remove_stream id a = record a { streams = erase id a.streams }

-- The object is there and its `closed` is not set.
unfoldable pub is_open : ℕ → List TargetStream → Bool
is_open h [] = false
is_open zero (t ∷ objects) = not t.closed
is_open (suc h) (t ∷ objects) = is_open h objects

unfoldable pub set_closed : ℕ → List TargetStream → List TargetStream
set_closed h [] = []
set_closed zero (t ∷ objects) = record t { closed = true } ∷ objects
set_closed (suc h) (t ∷ objects) = t ∷ set_closed h objects

-- `closed.exchange(true)` found it unset: the socket is shut down and closed.
unfoldable pub close_object : ℕ → Agent → Agent
unfolding set_closed
close_object h a = record a { objects = set_closed h a.objects; closes = h ∷ a.closes }

-- What `connect_tcp` answered: a socket, or why there is none.
pub data Connected : Type 0 where
  socket : ℕ → Connected
  no_socket : Bytes → Connected

-- The stream to a target that was connected.
unfoldable pub open_object : Bool → ℕ → ℕ → Agent → Agent
unfolding send add_stream
open_object delivered id target a =
    let h = length a.objects in
    let object : TargetStream = record { id = id; target = target; closed = false } in
    (send delivered (reply open_ok id (text_payload (codes "ok")))
      (add_stream id h (record a { objects = a.objects ++ object ∷ [] }))).1

unfoldable pub connect_target : (Endpoint → Connected) → Bool → ℕ → Endpoint → Agent → Agent
unfolding send open_object
connect_target connect delivered id e a =
    let asked = record a { connects = e ∷ a.connects } in
    elim (connect e) [
      | socket target ↦ open_object delivered id target asked
      | no_socket reason ↦
          (send delivered (reply error id (codes "target connect failed: " ++ reason)) asked).1
    ]

unfoldable pub handle_open : (Endpoint → Connected) → Bool → Frame → Agent → Agent
unfolding send connect_target contains
handle_open connect delivered f a = elim (parse_open_payload (payload_text f.payload)) [
  | none ↦ (send delivered (reply error f.stream_id (codes "invalid OPEN payload")) a).1
  | some e ↦
      let endpoint = endpoint_to_string e.host e.port in
      if contains endpoint a.allowlist
      then connect_target connect delivered f.stream_id e a
      else (send delivered (reply error f.stream_id (codes "target not allowed: " ++ endpoint)) a).1
]

unfoldable pub close_found : Bool → ℕ → Bool → ℕ → Agent → Agent
unfolding send close_object remove_stream is_open
close_found delivered id notify h a =
    let gone = remove_stream id (close_object h a) in
    if is_open h a.objects
    then (if notify then (send delivered (reply close id []) gone).1 else gone)
    else a

unfoldable pub handle_close : Bool → ℕ → Bool → Agent → Agent
unfolding find_stream close_found
handle_close delivered id notify a = elim (find_stream id a) [
  | none ↦ a
  | some h ↦ close_found delivered id notify h a
]

-- `forwarded` is the answer of `send_all` to the target.
unfoldable pub data_found : Bool → Bool → ℕ → ℕ → Agent → Agent
unfolding send handle_close is_open
data_found delivered forwarded id h a =
    if is_open h a.objects
    then (if forwarded then a else handle_close delivered id true a)
    else (send delivered (reply error id (codes "unknown stream")) a).1

unfoldable pub handle_data : Bool → Bool → Frame → Agent → Agent
unfolding send data_found find_stream
handle_data delivered forwarded f a = elim (find_stream f.stream_id a) [
  | none ↦ (send delivered (reply error f.stream_id (codes "unknown stream")) a).1
  | some h ↦ data_found delivered forwarded f.stream_id h a
]

-- One frame from the tunnel in `session_loop`.
unfoldable pub handle_frame :
    (Endpoint → Connected) → Bool → Bool → Frame → FrameType → Agent → Agent
unfolding handle_open handle_data handle_close send
handle_frame connect delivered forwarded f open_stream a = handle_open connect delivered f a
handle_frame connect delivered forwarded f stream_data a = handle_data delivered forwarded f a
handle_frame connect delivered forwarded f close a = handle_close delivered f.stream_id true a
handle_frame connect delivered forwarded f t a =
    (send delivered (reply error f.stream_id (codes "unsupported frame: " ++ frame_type_name t))
      a).1

-- The id of the object that a reader thread holds.
unfoldable pub object_id : ℕ → List TargetStream → ℕ
object_id h [] = 0
object_id zero (t ∷ objects) = t.id
object_id (suc h) (t ∷ objects) = object_id h objects

unfoldable pub pass_on : Bool → ℕ → Bytes → Agent → Agent
unfolding send handle_close
pass_on delivered id bytes a =
    let passed = send delivered (reply stream_data id bytes) a in
    if passed.0 then passed.1 else handle_close delivered id true passed.1

-- One round of `target_reader`, its test of `closed` and `connected_` first: bytes came from the
-- target, or the reading ended.
unfoldable pub reader_round : Bool → ℕ → Option Bytes → Agent → Agent
unfolding handle_close object_id is_open pass_on
reader_round delivered h none a = handle_close delivered (object_id h a.objects) true a
reader_round delivered h (some bytes) a =
    let id = object_id h a.objects in
    if is_open h a.objects && a.connected
    then pass_on delivered id bytes a
    else handle_close delivered id true a

unfoldable pub close_each : List (ℕ × ℕ) → Agent → Agent
unfolding close_object is_open
close_each [] a = a
close_each ((id, h) ∷ rest) a =
    close_each rest (if is_open h a.objects then close_object h a else a)

unfoldable pub close_all_streams : Agent → Agent
unfolding close_each
close_all_streams a = close_each a.streams (record a { streams = [] })

-- What happens to an agent, one whole call at a time: the tunnel's frames, its reader threads, and
-- the end of a session.
pub data Event : Type 0 where
  receive : (Endpoint → Connected) → Bool → Bool → Frame → Event
  read_target : Bool → ℕ → Option Bytes → Event
  end_session : Event

unfoldable pub step : Event → Agent → Agent
unfolding handle_frame reader_round close_all_streams
step (receive connect delivered forwarded f) a =
    handle_frame connect delivered forwarded f f.frame_type a
step (read_target delivered h bytes) a = reader_round delivered h bytes a
step end_session a = close_all_streams (record a { connected = false })

unfoldable pub run : List Event → Agent → Agent
unfolding step
run [] a = a
run (e ∷ events) a = run events (step e a)
