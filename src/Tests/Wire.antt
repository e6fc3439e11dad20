-- ===== src/Tests/Wire.antt =====
-- Frames (agent/src/common/protocol.hpp, channel.cpp) over a scripted socket.
use webhook_ops.Common.{◌≡◌, refl, true, [], ◌∷◌, ◌++◌, arith, codes}
use webhook_ops.Net.Scripted.{Script, scripted}
use webhook_ops.Net.Transfer.{recv_some}
use webhook_ops.Net.Transfer.Sending.{socket_stream}
use webhook_ops.Net.Stream.{Stream}
use webhook_ops.Wire.{
  Frame, hello, send_frame, recv_frame, refused, connection_closed, make_header, recv_loop,
  recv_exact,
}
use webhook_ops.Wire.Header.{IsFrame, encode}
use webhook_ops.Wire.Sending.{send_frame-up}
use webhook_ops.Wire.Receiving.Frames.{recv_frame-cut}
use webhook_ops.Wire.Receiving.Sound.{recv_frame_sound}

abbrev stream : Stream
stream = socket_stream scripted

abbrev greeting : Frame
greeting = record { frame_type = hello; stream_id = 0; payload = codes "a" }

greeting-IsFrame : IsFrame greeting
greeting-IsFrame = record { typed = refl; id_fits = omega arith; fits = omega arith }

abbrev fresh : Script
fresh = record { incoming = []; outgoing = []; piece = 3 }

-- The greeting and a byte behind it.
abbrev waiting : Script
waiting = record { incoming = encode greeting ++ 7 ∷ []; outgoing = []; piece = 3 }

abbrev cut : Script
cut = record { incoming = 1 ∷ 0 ∷ 0 ∷ []; outgoing = []; piece = 3 }

send_frame-up_example :
    (s : Script) × (send_frame stream fresh greeting ≡ (true, s))
    × (s.outgoing ≡ [] ++ encode greeting)
    × Unit {0}
send_frame-up_example = send_frame-up stream fresh greeting tt (omega arith)

recv_frame-cut_example : (s : Script) × (recv_frame stream cut ≡ (refused connection_closed, s))
unfolding make_header
recv_frame-cut_example =
    recv_frame-cut stream cut greeting (0 ∷ 0 ∷ 0 ∷ 0 ∷ 0 ∷ 1 ∷ b'a' ∷ []) greeting-IsFrame tt refl
      (λ e. cc)

abbrev sent_greeting : Script
sent_greeting = record { incoming = []; outgoing = encode greeting; piece = 3 }

abbrev read_greeting : Script
read_greeting = record { incoming = 7 ∷ []; outgoing = []; piece = 3 }

recv_frame_sound_example : IsFrame greeting × (waiting.incoming ≡ encode greeting ++ 7 ∷ [])
unfolding recv_frame make_header recv_exact recv_loop recv_some
recv_frame_sound_example =
    recv_frame_sound stream waiting read_greeting greeting (ground arith) refl
