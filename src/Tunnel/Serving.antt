-- ===== src/Tunnel/Serving.antt =====
-- `Controller::handle_proxy_client` of agent/src/tunnel/main.cpp behind the choice of an agent, in the
-- steps between which other threads run, and what happens to a session in any order.
pub mod Clean
pub mod Kept
pub mod Delivery
pub mod InOrder
pub mod Race
use webhook_ops.Common.{
  ℕ, ◌+◌, ◌%◌, ◌^◌, ◌≡◌, refl, Bool, true, false, Option, none, some, List, [], ◌∷◌, ◌++◌, Bytes,
  codes, length, get_elem?, is_empty, if◌then◌else◌,
}
use webhook_ops.Stdlib.Decimal.{to_string}
use webhook_ops.Wire.{Frame, close, open_stream, stream_data, text_payload}
use webhook_ops.Open.{make_open_payload}
use webhook_ops.Streams.Store.{modify}
use webhook_ops.Tunnel.Request.{ParsedProxyRequest}
use webhook_ops.Tunnel.Session.{
  Phase, waiting, greeting, pumping, finished, ProxyStream, Session, send, stream_frame,
  register_stream, unregister_stream, change_client, close_proxy_client, write_client,
  receive_frame, end_reader, stop_session,
}

-- The response of `send_http_error`.
unfoldable pub http_error : ℕ → Bytes → Bytes
unfolding to_string
http_error code reason =
    let status = to_string code ++ b' ' ∷ reason in
    let body = status ++ b'\n' ∷ [] in
    codes "HTTP/1.1 "
    ++ (status
        ++ (codes "\r\nConnection: close\r\nContent-Type: text/plain\r\nContent-Length: "
            ++ (to_string (length body) ++ (codes "\r\n\r\n" ++ body))))

-- The exits of `handle_proxy_client` behind the registration.
unfoldable pub leave : ℕ → ℕ → Session → Session
unfolding unregister_stream close_proxy_client modify
leave id h s =
    change_client h (λ c. record c { phase = finished })
      (close_proxy_client h (unregister_stream id s))

unfoldable pub refuse : ℕ → ℕ → Bytes → Session → Session
unfolding leave write_client
refuse id h reason s = leave id h (write_client h (http_error 502 reason) s)

abbrev pub new_stream : ℕ → ParsedProxyRequest → ProxyStream
new_stream id request = record {
  id = id;
  client_closed = false;
  opened = false;
  closed = false;
  error_text = [];
  request = request;
  phase = waiting;
}

-- A client whose request was accepted: a stream, its registration and the OPEN frame.
unfoldable pub open_client : Bool → ParsedProxyRequest → Session → Session
open_client delivered request s =
    let id = s.next_stream_id in
    let h = length s.clients in
    let registered = register_stream id h (record s {
      clients = s.clients ++ new_stream id request ∷ [];
      next_stream_id = (id + 1) % 2 ^ 32;
    }) in
    let opening =
      stream_frame open_stream id (text_payload (make_open_payload request.host request.port)) in
    let tried = send delivered opening registered in
    if tried.0 then tried.1 else refuse id h (codes "agent send failed") tried.1

-- What the wait found: the stream is ready to be used, or why it is not. A wait that runs out asks
-- its condition once more.
unfoldable pub verdict : ProxyStream → Option Bytes
verdict c =
    if is_empty c.error_text
    then if c.opened then none else some (codes "agent open timeout")
    else some c.error_text

unfoldable pub end_wait : ℕ → ProxyStream → Session → Session
end_wait h c s = elim (verdict c) [
  | none ↦ change_client h (λ d. record d { phase = greeting }) s
  | some reason ↦ refuse c.id h reason s
]

abbrev pub established : Bytes
established = codes "HTTP/1.1 200 Connection Established\r\n\r\n"

unfoldable pub pump_on : ℕ → Session → Session
unfolding modify
pump_on h s = change_client h (λ d. record d { phase = pumping }) s

-- The answer to a CONNECT request, or the first bytes for the target.
unfoldable pub greet_client : Bool → Bool → ℕ → ProxyStream → Session → Session
greet_client delivered forwarded h c s =
    let written = write_client h established s in
    let tried = send delivered (stream_frame stream_data c.id c.request.initial_data) s in
    if c.request.is_connect
    then (if forwarded
        then pump_on h written
        else leave c.id h (send delivered (stream_frame close c.id []) written).1)
    else (if is_empty c.request.initial_data
        then pump_on h s
        else (if tried.0 then pump_on h tried.1 else leave c.id h tried.1))

unfoldable pub end_pump : Bool → ℕ → ProxyStream → Session → Session
end_pump delivered h c s = leave c.id h (send delivered (stream_frame close c.id []) s).1

-- One round of the last loop: bytes came from the client, or the reading ended. `closing` is the answer
-- for the CLOSE frame.
unfoldable pub pump_client : Bool → Bool → Option Bytes → ℕ → ProxyStream → Session → Session
pump_client delivered closing none h c s = end_pump closing h c s
pump_client delivered closing (some bytes) h c s =
    let tried = send delivered (stream_frame stream_data c.id bytes) s in
    if tried.0 then tried.1 else end_pump closing h c tried.1

-- The next step of a client's thread, by where it stands.
unfoldable pub serve : Bool → Bool → Option Bytes → ℕ → ProxyStream → Phase → Session → Session
serve delivered answered bytes h c waiting s = end_wait h c s
serve delivered answered bytes h c greeting s = greet_client delivered answered h c s
serve delivered answered bytes h c pumping s = pump_client delivered answered bytes h c s
serve delivered answered bytes h c finished s = s

unfoldable pub serve_client : Bool → Bool → Option Bytes → ℕ → Session → Session
serve_client delivered answered bytes h s = elim (get_elem? s.clients h) [
  | none ↦ s
  | some c ↦ serve delivered answered bytes h c c.phase s
]

-- What happens to a session: a client, a stream id that another session took, a step of a client's
-- thread, a frame of the agent, the end of the reader, and the stop of the tunnel.
pub data Event : Type 0 where
  client_came : Bool → ParsedProxyRequest → Event
  id_taken : Event
  client_step : Bool → Bool → Option Bytes → ℕ → Event
  frame_came : Bool → Bool → Frame → Event
  reader_ended : Event
  stopped : Event

unfoldable pub step : Event → Session → Session
step (client_came delivered request) s = open_client delivered request s
step id_taken s = record s { next_stream_id = (s.next_stream_id + 1) % 2 ^ 32 }
step (client_step delivered answered bytes h) s = serve_client delivered answered bytes h s
step (frame_came delivered forwarded f) s = receive_frame delivered forwarded f s
step reader_ended s = end_reader s
step stopped s = stop_session s

unfoldable pub run : List Event → Session → Session
unfolding step
run [] s = s
run (e ∷ events) s = run events (step e s)
