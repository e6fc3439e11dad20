-- ===== src/Lib.antt =====
-- The tunnel and the agent of webhook-ops, the C++ programs under agent/src. A private application has
-- no public address: the agent runs beside it and keeps a connection to the tunnel, which listens for
-- agents (control port) and for HTTP proxy clients (proxy port). The tunnel authenticates an agent by a
-- challenge, turns each proxy request into an OPEN frame, and the two move bytes in DATA frames until
-- one side sends CLOSE. The agent connects only to the endpoints of its allowlist.
--
-- Files:
--   Common   lists, options, texts as lists of byte codes, and tests over the native numbers.
--   Stdlib   what the C++ standard library does where the programs use it: searching in strings,
--            std::stoi, std::to_string, hexadecimal digits.
--   Net      agent/src/common/net.cpp: Net.Endpoint is parse_host_port and endpoint_to_string,
--            Net.Sockets is connect_tcp, listen_tcp and accept_tcp, Net.Transfer is send_all and
--            recv_some over the system calls of Net.Posix, Net.Stream what they promise to the frames,
--            Net.Scripted a socket that meets what Net.Posix asks.
--   Channel  agent/src/common/channel.cpp: Channel::client, Channel::server and Channel::close, and in
--            Channel.Transfer send_all and recv_some; OpenSSL is a parameter.
--   Log      agent/src/common/log.cpp: quote_value and log.
--   Wire     agent/src/common/protocol.hpp and channel.cpp: frames, send_frame, recv_frame, recv_exact.
--   Text     agent/src/common/config.cpp (trim_copy, lower_copy) and agent/src/tunnel/main.cpp
--            (split_lines, starts_with_ci).
--   Config   agent/src/common/config.cpp: load_config_file, config_get, config_get_all.
--   CommandLine  detect_command, load_config_arg and the loop of parse_args, which both programs have
--            alike.
--   Json     agent/src/tunnel/main.cpp: json_escape, make_status_payload, make_auth_payload.
--   Crypto   agent/src/common/crypto.cpp; OpenSSL is a parameter.
--   Open     make_open_payload (agent/src/tunnel/main.cpp), parse_open_payload (agent/src/agent/main.cpp).
--   Tunnel   agent/src/tunnel/main.cpp: Tunnel.Header is read_http_header, Tunnel.Request is
--            parse_proxy_request, Tunnel.Callback the calls to the control plane, Tunnel.Auth is
--            authenticate_agent, Tunnel.Settings its Config, Tunnel.Controller the agents of
--            class Controller, the selected one and its state file,
--            Tunnel.Session class AgentSession: its streams and its reader, and Tunnel.Serving is
--            handle_proxy_client behind the choice of an agent, with send_http_error,
--            Tunnel.Admission is what stands before it there, and Tunnel.Options
--            apply_controller_config and parse_args.
--   Streams  the stream maps of both programs, and the store of the shared stream objects.
--   Handshake  Agent::connect_once against one round of Controller::control_accept_loop.
--   Agent    agent/src/agent/main.cpp: Agent.Session is the state and the handlers of class Agent,
--            Agent.Lifecycle is run, session_loop, heartbeat_loop and request_stop, Agent.Options is
--            apply_node_config and parse_args.
--   Tests    the theorems at concrete inputs.
--
-- A text is a list of byte codes. A handler of the agent is one step on the state: the threads of the
-- agent run whole handlers in any order, which the list of events of a run gives. The loops of send_all,
-- recv_exact and read_http_header run on fuel, as many rounds as there are bytes to move (at most 64 KiB
-- for a header); each round moves at least one byte, so the fuel does not run out. The controller changes one
-- locked section at a time. A client's thread moves in steps that end where it waits or
-- reads, and the steps of the threads of a session come in any order.
--
-- Not modelled: what is printed but for the log lines, the accept loops, the commands on the tunnel's
-- standard input, and the Python service. A part of the operating system, of OpenSSL or of the network
-- stands as a parameter.
pub mod Common
pub mod Stdlib
pub mod Net
pub mod Wire
pub mod Text
pub mod Config
pub mod CommandLine
pub mod Log
pub mod Channel
pub mod Open
pub mod Json
pub mod Crypto
pub mod Streams
pub mod Agent
pub mod Tunnel
pub mod Handshake
pub mod Tests
