-- ===== src/Handshake.antt =====
-- The handshake of an agent with the tunnel: `Agent::connect_once` of agent/src/agent/main.cpp and one round
-- of `Controller::control_accept_loop` of agent/src/tunnel/main.cpp, over the frames that they
-- exchange. What each call of the operating system, of TLS and of `send_frame` answered is an argument.
pub mod Agreement
use webhook_ops.Common.{
  ℕ, ◌≡◌, refl, Bool, true, false, ◌&&◌, Option, none, some, List, [], ◌∷◌, ◌++◌, Bytes, codes,
  is_empty, eqb, if◌then◌else◌,
}
use webhook_ops.Crypto.{OpenSsl, hmac_sha256_hex}
use webhook_ops.Text.{trim_copy}
use webhook_ops.Wire.{
  Frame, FrameType, hello, hello_ok, auth_challenge, auth_response, control_stream, text_payload,
  payload_text,
}
use webhook_ops.Tunnel.Settings.{Config}
use webhook_ops.Tunnel.Callback.{Network}
use webhook_ops.Tunnel.Auth.{authenticate_agent, signed_text}

abbrev pub control_frame : FrameType → Bytes → Frame
control_frame t text = record {
  frame_type = t;
  stream_id = control_stream;
  payload = text_payload text;
}

abbrev is_challenge : FrameType → Bool
is_challenge auth_challenge = true
is_challenge _ = false

abbrev is_hello_ok : FrameType → Bool
is_hello_ok hello_ok = true
is_hello_ok _ = false

-- Why a connection did not come about, or that it did.
pub data Connect : Type 0 where
  tcp_failed tls_failed send_failed challenge_missing hello_rejected connected : Connect

-- The agent's answer to a challenge.
unfoldable pub proof_frame : OpenSsl → Bytes → Bytes → Frame → Frame
proof_frame ssl secret id challenge =
    control_frame auth_response
      (hmac_sha256_hex ssl secret (id ++ b'\n' ∷ payload_text challenge.payload))

-- The last frame of the handshake.
unfoldable pub await_reply : Option Frame → Connect
await_reply none = hello_rejected
await_reply (some reply) = if is_hello_ok reply.frame_type then connected else hello_rejected

-- The challenge, the proof and the reply: the outcome and the frames that were sent.
unfoldable pub await_challenge :
    OpenSsl → Bytes → Bytes → Option Frame → Bool → Option Frame → Connect × List Frame
unfolding await_reply proof_frame
await_challenge ssl secret id none proof_sent reply = (challenge_missing, [])
await_challenge ssl secret id (some challenge) proof_sent reply =
    if is_challenge challenge.frame_type
    then (
      (if proof_sent then await_reply reply else send_failed),
      proof_frame ssl secret id challenge ∷ [],
    )
    else (challenge_missing, [])

unfoldable pub connect_once :
    OpenSsl
    → Bytes
    → Bytes
    → Bool
    → Bool
    → Bool
    → Option Frame
    → Bool
    → Option Frame
    → Connect × List Frame
unfolding await_challenge
connect_once ssl secret id tcp tls hello_sent challenge proof_sent reply =
    let first = control_frame hello id in
    let rest = await_challenge ssl secret id challenge proof_sent reply in
    if tcp
    then if tls
      then if hello_sent then (rest.0, first ∷ rest.1) else (send_failed, first ∷ [])
      else (tls_failed, [])
    else (tcp_failed, [])

-- How the tunnel's round ends.
pub data Admission : Type 0 where
  no_channel rejected challenge_failed auth_failed : Admission
  admitted : Bytes → Admission

unfoldable pub parse_hello : Bytes → Option Bytes
parse_hello payload = let id = trim_copy payload in if is_empty id then none else some id

abbrev is_hello : FrameType → Bool
is_hello hello = true
is_hello _ = false

abbrev is_auth_response : FrameType → Bool
is_auth_response auth_response = true
is_auth_response _ = false

-- The id in the first frame.
unfoldable pub hello_id : Option Frame → Option Bytes
unfolding parse_hello
hello_id none = none
hello_id (some f) = if is_hello f.frame_type then parse_hello (payload_text f.payload) else none

module _ (ssl : OpenSsl) (network : Network) (config : Config) (peer : Bytes) where
  unfoldable pub check_proof : Bytes → Bytes → Option Frame → Admission
  check_proof id nonce none = auth_failed
  check_proof id nonce (some f) =
      if is_auth_response f.frame_type
        && authenticate_agent ssl network config id nonce (payload_text f.payload) peer
      then admitted id
      else auth_failed

  unfoldable pub challenge_agent : Bytes → Bytes → Bool → Option Frame → Admission
  unfolding check_proof
  challenge_agent id nonce challenge_sent auth =
      if is_empty nonce
      then challenge_failed
      else if challenge_sent
      then check_proof id nonce auth
      else challenge_failed

  -- One accepted connection: whether TLS came up, the first frame, the nonce (empty if there was
  -- none), whether the challenge was sent, and the frame behind it.
  unfoldable pub accept_agent : Bool → Option Frame → Bytes → Bool → Option Frame → Admission
  unfolding challenge_agent hello_id
  accept_agent tls first nonce challenge_sent auth =
      if tls
      then elim (hello_id first) [
        | none ↦ rejected
        | some id ↦ challenge_agent id nonce challenge_sent auth
      ]
      else no_channel
