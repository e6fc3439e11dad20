-- ===== src/Tests/Header.antt =====
-- The header of a request (agent/src/tunnel/main.cpp) over a scripted socket.
use webhook_ops.Common.{◌≢◌, [], codes}
use webhook_ops.Net.Scripted.{Script, scripted}
use webhook_ops.Net.Stream.{Stream}
use webhook_ops.Net.Transfer.Sending.{socket_stream}
use webhook_ops.Tunnel.Header.{out_of_rounds, read_http_header}
use webhook_ops.Tunnel.Header.Reading.{read_http_header_ends}

abbrev stream : Stream
stream = socket_stream scripted

-- A header and two bytes behind it, of which the last piece brings one.
abbrev client : Script
client = record { incoming = codes "A\r\n\r\nxy"; outgoing = []; piece = 2 }

abbrev read_client : Script
read_client = record { incoming = codes "y"; outgoing = []; piece = 2 }

read_http_header_ends_example : (read_http_header stream client).0 ≢ out_of_rounds
read_http_header_ends_example = read_http_header_ends stream client
