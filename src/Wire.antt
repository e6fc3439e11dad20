-- ===== src/Wire.antt =====
-- The frames of agent/src/common/protocol.hpp and their header, and the two functions that move them,
-- `Channel::send_frame` and `Channel::recv_frame` of agent/src/common/channel.cpp (protocol.cpp has the
-- same two over a plain socket).
pub mod Header
pub mod Sending
pub mod Receiving
pub mod Conversation
use webhook_ops.Common.{
  ℕ, zero, suc, ◌+◌, ◌-◌, ◌*◌, ◌/◌, ◌%◌, ◌^◌, ◌≤◌, ◌<◌, ◌≡◌, refl, Bool, true, false, List, [], ◌∷◌,
  ◌++◌, arith, Bytes, IsByte, codes, length, drop, ltb, ◌==◌, if◌then◌else◌,
}
use webhook_ops.Net.Stream.{Stream, Received, got, closed, failed}

-- The enumeration has a fixed underlying type, so a cast from any byte is one of its values.
pub data FrameType : Type 0 where
  hello hello_ok heartbeat open_stream open_ok stream_data close error auth_challenge
        auth_response :
      FrameType
  unnamed : ℕ → FrameType

abbrev pub type_to_byte : FrameType → ℕ
type_to_byte hello = 1
type_to_byte hello_ok = 2
type_to_byte heartbeat = 3
type_to_byte open_stream = 4
type_to_byte open_ok = 5
type_to_byte stream_data = 6
type_to_byte close = 7
type_to_byte error = 8
type_to_byte auth_challenge = 9
type_to_byte auth_response = 10
type_to_byte (unnamed b) = b

abbrev pub type_of_byte : ℕ → FrameType
type_of_byte b =
    if b == 1
    then hello
    else if b == 2
    then hello_ok
    else if b == 3
    then heartbeat
    else if b == 4
    then open_stream
    else if b == 5
    then open_ok
    else if b == 6
    then stream_data
    else if b == 7
    then close
    else if b == 8
    then error
    else if b == 9
    then auth_challenge
    else if b == 10
    then auth_response
    else unnamed b

pub record Frame : Type 0 where
  pub frame_type : FrameType
  pub stream_id : ℕ
  pub payload : Bytes

abbrev pub control_stream : ℕ
control_stream = 0

-- kMaxFramePayload
abbrev pub max_frame_payload : ℕ
max_frame_payload = 16 * 1024 * 1024

-- A `uint32_t` in network order.
unfoldable pub be32 : ℕ → Bytes
be32 n = n / 2 ^ 24 % 256 ∷ (n / 2 ^ 16 % 256 ∷ (n / 2 ^ 8 % 256 ∷ (n % 256 ∷ [])))

-- Four bytes of a buffer as a `uint32_t` in network order.
unfoldable pub load_be32 : Bytes → ℕ
load_be32 (a ∷ b ∷ c ∷ d ∷ _) = a * 2 ^ 24 + b * 2 ^ 16 + c * 2 ^ 8 + d
load_be32 _ = 0

-- The nine bytes before a payload.
unfoldable pub make_header : Frame → Bytes
unfolding be32
make_header f = type_to_byte f.frame_type ∷ (be32 f.stream_id ++ be32 (length f.payload % 2 ^ 32))

unfoldable pub header_type : Bytes → FrameType
header_type [] = unnamed 0
header_type (b ∷ _) = type_of_byte b

abbrev pub header_length : ℕ
header_length = 9

unfoldable pub frame_type_name : FrameType → Bytes
frame_type_name hello = codes "HELLO"
frame_type_name hello_ok = codes "HELLO_OK"
frame_type_name heartbeat = codes "HEARTBEAT"
frame_type_name open_stream = codes "OPEN"
frame_type_name open_ok = codes "OPEN_OK"
frame_type_name stream_data = codes "DATA"
frame_type_name close = codes "CLOSE"
frame_type_name error = codes "ERROR"
frame_type_name auth_challenge = codes "AUTH_CHALLENGE"
frame_type_name auth_response = codes "AUTH_RESPONSE"
frame_type_name (unnamed b) = codes "UNKNOWN"

-- `text_payload` and `payload_text` copy the bytes of a text.
abbrev pub text_payload : Bytes → Bytes
text_payload value = value

abbrev pub payload_text : Bytes → Bytes
payload_text payload = payload

pub data Reason : Type 0 where
  payload_too_large connection_closed io_error : Reason

pub data Exact : Type 0 where
  complete : Bytes → Exact
  incomplete : Reason → Exact
  out_of_rounds : Exact

pub data Incoming : Type 0 where
  frame : Frame → Incoming
  refused : Reason → Incoming
  unfinished : Incoming

-- The payload is sent behind a header that went out, unless it is empty.
unfoldable pub send_payload : {C : Type 0} → (C → Bytes → Bool × C) → Bytes → Bool × C → Bool × C
send_payload send bytes (false, c) = (false, c)
send_payload send [] (true, c) = (true, c)
send_payload send (b ∷ rest) (true, c) = send c (b ∷ rest)

-- One result of `recv_some` in the loop of `recv_exact`: `need` bytes are missing behind `bytes`.
unfoldable pub recv_next :
    {C : Type 0} → (C → ℕ → Bytes → Exact × C) → ℕ → Bytes → Received × C → Exact × C
recv_next continue need bytes (got bs, c) = continue c (need - length bs) (bytes ++ bs)
recv_next continue need bytes (closed, c) = (incomplete connection_closed, c)
recv_next continue need bytes (failed, c) = (incomplete io_error, c)

-- `recv_frame` behind the payload, and behind the header.
unfoldable pub with_payload : {C : Type 0} → Bytes → Exact × C → Incoming × C
unfolding header_type load_be32
with_payload header (complete bytes, c) = (
  frame (record {
    frame_type = header_type header;
    stream_id = load_be32 (drop 1 header);
    payload = bytes;
  }),
  c,
)
with_payload header (incomplete r, c) = (refused r, c)
with_payload header (out_of_rounds, c) = (unfinished, c)

unfoldable pub with_header : {C : Type 0} → (C → ℕ → Exact × C) → Exact × C → Incoming × C
unfolding load_be32 with_payload
with_header recv (complete header, c) =
    let len = load_be32 (drop 5 header) in
    if ltb max_frame_payload len
    then (refused payload_too_large, c)
    else with_payload header (recv c len)
with_header recv (incomplete r, c) = (refused r, c)
with_header recv (out_of_rounds, c) = (unfinished, c)

module _ (stream : Stream) where
  open stream use {Conn, recv_some, send_all}

  unfoldable pub send_frame : Conn → Frame → Bool × Conn
  unfolding send_payload
  send_frame c f =
      if ltb max_frame_payload (length f.payload)
      then (false, c)
      else send_payload send_all f.payload (send_all c (make_header f))

  -- The loop of `recv_exact`; each round reads at least one byte.
  unfoldable pub recv_loop : ℕ → Conn → ℕ → Bytes → Exact × Conn
  unfolding recv_next
  recv_loop rounds c zero bytes = (complete bytes, c)
  recv_loop zero c (suc need) bytes = (out_of_rounds, c)
  recv_loop (suc rounds) c (suc need) bytes =
      recv_next (recv_loop rounds) (suc need) bytes (recv_some c (suc need))

  unfoldable pub recv_exact : Conn → ℕ → Exact × Conn
  recv_exact c len = recv_loop len c len []

  unfoldable pub recv_frame : Conn → Incoming × Conn
  unfolding with_header
  recv_frame c = with_header recv_exact (recv_exact c header_length)
