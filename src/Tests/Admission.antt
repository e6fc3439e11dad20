-- ===== src/Tests/Admission.antt =====
-- A proxy client (agent/src/tunnel/main.cpp) over a scripted socket.
use webhook_ops.Common.{refl, none, [], ◌∷◌, true, codes}
use webhook_ops.Net.Scripted.{Script, scripted}
use webhook_ops.Net.Stream.{Stream}
use webhook_ops.Net.Transfer.Sending.{socket_stream}
use webhook_ops.Tunnel.Controller.{Controller, session_id}
use webhook_ops.Tunnel.Controller.Names.{IsNamed}
use webhook_ops.Tunnel.Admission.{admit_client}
use webhook_ops.Tunnel.Admission.Composed.{AdmitHolds, admit_client-AdmitHolds}

abbrev stream : Stream
stream = socket_stream scripted

abbrev client : Script
client = record { incoming = codes "CONNECT db:80 HTTP/1.1\r\n\r\nhi"; outgoing = []; piece = 9 }

-- One agent is there.
abbrev one : Controller
one = record {
  state_path = [];
  initial_selected_agent = [];
  state_writable = true;
  state_file = none;
  sessions = record { id = codes "edge"; alive = true } ∷ [];
  agents = (codes "edge", 0) ∷ [];
  selected_agent = codes "edge";
}

one-IsNamed : IsNamed one
unfolding session_id
one-IsNamed = (refl, tt)

admit_client-AdmitHolds_example : AdmitHolds stream client one (admit_client stream client one)
admit_client-AdmitHolds_example = admit_client-AdmitHolds stream client one one-IsNamed
