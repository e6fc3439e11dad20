-- ===== src/Tunnel/Session.antt =====
-- The streams of the proxy clients that one agent serves: class `AgentSession` of
-- agent/src/tunnel/main.cpp, as steps on one state. A stream is shared between the map, the reader
-- of the session and the thread of its client, so streams stand in a store and are named by their
-- place in it.
pub mod Clean
use webhook_ops.Common.{
  ℕ, zero, suc, ◌+◌, ◌%◌, ◌^◌, ◌≡◌, refl, Bool, true, false, ◌||◌, not, Option, none, some, List,
  [], ◌∷◌, ◌++◌, Bytes, codes, length, get_elem?, is_empty, if◌then◌else◌,
}
use webhook_ops.Wire.{
  Frame, FrameType, hello, hello_ok, heartbeat, open_stream, open_ok, stream_data, close, error,
  auth_challenge, auth_response, unnamed, text_payload, payload_text,
}
use webhook_ops.Streams.{lookup, erase}
use webhook_ops.Streams.Store.{modify, flag}
use webhook_ops.Tunnel.Request.{ParsedProxyRequest}

-- Where the thread of a client stands in `handle_proxy_client`: before the end of its wait, before
-- its answer to the client, in the last loop, or behind the function.
pub data Phase : Type 0 where
  waiting greeting pumping finished : Phase

-- A `ProxyStream`, with the request and the place of the thread that serves its client.
pub record ProxyStream : Type 0 where
  pub id : ℕ
  pub client_closed : Bool
  pub opened : Bool
  pub closed : Bool
  pub error_text : Bytes
  pub request : ParsedProxyRequest
  pub phase : Phase

pub record Session : Type 0 where
  pub alive : Bool
  -- The frames that went to the agent.
  pub sent : List Frame
  -- Every stream made so far.
  pub clients : List ProxyStream
  pub streams : List (ℕ × ℕ)
  -- The counter of the controller.
  pub next_stream_id : ℕ
  -- What `send_all` was given for the clients, in order.
  pub writes : List (ℕ × Bytes)
  -- The streams whose client sockets were shut down and closed.
  pub closes : List ℕ

-- `delivered` is the answer of `Channel::send_frame`.
unfoldable pub send : Bool → Frame → Session → Bool × Session
send delivered f s =
    if s.alive
    then if delivered
      then (true, record s { sent = s.sent ++ f ∷ [] })
      else (false, record s { alive = false })
    else (false, s)

abbrev pub stream_frame : FrameType → ℕ → Bytes → Frame
stream_frame t id text = record { frame_type = t; stream_id = id; payload = text }

unfoldable pub register_stream : ℕ → ℕ → Session → Session
unfolding erase
register_stream id h s = record s { streams = (id, h) ∷ erase id s.streams }

unfoldable pub unregister_stream : ℕ → Session → Session
unfolding erase
unregister_stream id s = record s { streams = erase id s.streams }

unfoldable pub find_stream : ℕ → Session → Option ℕ
unfolding lookup
find_stream id s = lookup id s.streams

abbrev pub change_client : ℕ → (ProxyStream → ProxyStream) → Session → Session
change_client h f s = record s { clients = modify h f s.clients }

-- `client_closed.exchange(true)`, and the closing if it was unset.
unfoldable pub close_proxy_client : ℕ → Session → Session
unfolding modify flag
close_proxy_client h s =
    if flag (λ c. not c.client_closed) h s.clients
    then record s {
      clients = modify h (λ c. record c { client_closed = true }) s.clients;
      closes = h ∷ s.closes;
    }
    else s

unfoldable pub write_client : ℕ → Bytes → Session → Session
write_client h bytes s = record s { writes = s.writes ++ (h, bytes) ∷ [] }

unfoldable pub fail_stream : ℕ → Bytes → Session → Session
unfolding modify
fail_stream h reason s = change_client h (λ c. record c { error_text = reason; closed = true }) s

unfoldable pub close_each : List (ℕ × ℕ) → Bytes → Session → Session
unfolding fail_stream close_proxy_client
close_each [] reason s = s
close_each ((id, h) ∷ rest) reason s =
    close_each rest reason (close_proxy_client h (fail_stream h reason s))

unfoldable pub close_all_streams : Bytes → Session → Session
unfolding close_each
close_all_streams reason s = close_each s.streams reason (record s { streams = [] })

-- The cases of `read_loop` for a stream that is registered. `forwarded` is the answer of `send_all`.
unfoldable pub on_error : ℕ → Bytes → Session → Session
unfolding fail_stream close_proxy_client flag
on_error h text s =
    let failed = fail_stream h text s in
    if flag (λ c. c.opened) h s.clients then close_proxy_client h failed else failed

unfoldable pub on_data : Bool → Bool → ℕ → ℕ → Bytes → Session → Session
unfolding write_client send unregister_stream close_proxy_client
on_data delivered forwarded id h payload s =
    let written = write_client h payload s in
    if forwarded
    then written
    else close_proxy_client h
        (unregister_stream id (send delivered (stream_frame close id []) written).1)

unfoldable pub on_close : ℕ → ℕ → Session → Session
unfolding modify unregister_stream close_proxy_client
on_close id h s =
    close_proxy_client h
      (unregister_stream id (change_client h (λ c. record c { closed = true }) s))

unfoldable pub on_frame : Bool → Bool → Frame → ℕ → FrameType → Session → Session
unfolding modify on_error on_data on_close
on_frame delivered forwarded f h open_ok s = change_client h (λ c. record c { opened = true }) s
on_frame delivered forwarded f h error s = on_error h (payload_text f.payload) s
on_frame delivered forwarded f h stream_data s =
    on_data delivered forwarded f.stream_id h f.payload s
on_frame delivered forwarded f h close s = on_close f.stream_id h s
on_frame delivered forwarded f h t s = s

unfoldable pub is_heartbeat : FrameType → Bool
is_heartbeat heartbeat = true
is_heartbeat _ = false

-- One frame from the agent. What a heartbeat reports to the control plane is left out.
unfoldable pub receive_frame : Bool → Bool → Frame → Session → Session
unfolding find_stream on_frame is_heartbeat
receive_frame delivered forwarded f s =
    if is_heartbeat f.frame_type then s else elim (find_stream f.stream_id s) [
      | none ↦ s
      | some h ↦ on_frame delivered forwarded f h f.frame_type s
    ]

-- A frame that arrived, with the answers of the calls that its handling makes.
pub record Arrival : Type 0 where
  pub frame : Frame
  pub delivered : Bool
  pub forwarded : Bool

-- The loop of `read_loop`: it goes on while the session is alive.
unfoldable pub read_frames : List Arrival → Session → Session
read_frames [] s = s
read_frames (a ∷ arrivals) s =
    if s.alive then read_frames arrivals (receive_frame a.delivered a.forwarded a.frame s) else s

-- The end of `read_loop`, and the session's part of `request_stop`.
unfoldable pub end_reader : Session → Session
unfolding close_all_streams
end_reader s = close_all_streams (codes "agent disconnected") (record s { alive = false })

unfoldable pub stop_session : Session → Session
unfolding close_all_streams
stop_session s = close_all_streams (codes "tunnel shutting down") (record s { alive = false })
