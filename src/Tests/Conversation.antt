-- ===== src/Tests/Conversation.antt =====
-- Frames from one channel to another (agent/src/common/channel.cpp), over scripted calls.
use webhook_ops.Common.{◌≡◌, refl, true, List, [], ◌∷◌, ◌++◌, arith, All, length, codes}
use webhook_ops.Net.Scripted.{scripted}
use webhook_ops.Net.Stream.{Stream}
use webhook_ops.Channel.Transfer.{bare, wrapped, channel_stream}
use webhook_ops.Wire.{Frame, hello, stream_data}
use webhook_ops.Wire.Header.{IsFrame}
use webhook_ops.Wire.Conversation.{send_frames, recv_frames, recv_frames-send_frames}

abbrev stream : Stream
stream = channel_stream scripted scripted

abbrev frames : List Frame
frames =
    record { frame_type = hello; stream_id = 0; payload = codes "a" }
    ∷ record { frame_type = stream_data; stream_id = 7; payload = [] }
    ∷ []

frames-IsFrame : All IsFrame frames
frames-IsFrame = (
  record { typed = refl; id_fits = omega arith; fits = omega arith },
  (record { typed = refl; id_fits = omega arith; fits = omega arith }, tt),
)

abbrev sender : stream.Conn
sender = wrapped (record { incoming = []; outgoing = []; piece = 3 })

abbrev receiver : stream.Conn
receiver = bare (record {
  incoming = stream.written (send_frames stream frames sender).1 ++ 9 ∷ [];
  outgoing = [];
  piece = 1;
})

recv_frames-send_frames_example :
    ((send_frames stream frames sender).0 ≡ true)
    × ((recv_frames stream (length frames) receiver).0 ≡ frames)
    × (stream.pending (recv_frames stream (length frames) receiver).1 ≡ 9 ∷ [])
recv_frames-send_frames_example =
    recv_frames-send_frames stream stream frames sender receiver (9 ∷ []) frames-IsFrame tt tt refl
      refl
