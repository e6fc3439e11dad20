-- ===== src/Tests/Options.antt =====
-- Command lines of both programs (agent/src/agent/main.cpp, agent/src/tunnel/main.cpp) at concrete
-- arguments.
use webhook_ops.Common.{
  ◌≡◌, refl, Option, none, some, List, [], ◌∷◌, arith, All, Bytes, codes, true,
}
use webhook_ops.Stdlib.{find_if, rfind}
use webhook_ops.Stdlib.Decimal.{stoi}
use webhook_ops.Text.{trim_copy, lower_copy}
use webhook_ops.Net.Endpoint.{Endpoint, parse_host_port}
use webhook_ops.Config.{
  ConfigFile, loaded, load_config_file, parse_line, push_back, config_get, config_get_all,
}
use webhook_ops.CommandLine.{accepted, and_then, detect_command, load_config_arg, parse_options}
use webhook_ops.Wire.{open_stream}
use webhook_ops.Agent.Session.{Event, socket, receive, run}
use webhook_ops.Agent.Options.{
  Config, default_config, file_tunnel, file_allow, apply_node_config, file_tls, parse_args,
}
use webhook_ops.Agent.Options.Ready.{IsReady, parse_args-IsReady}
use webhook_ops.Agent.Options.Settings.{
  Setting, tunnel, allow, tls, arguments, set_all, parse_args-arguments, IsPlain,
}
use webhook_ops.Agent.Options.Reach.{Gives, start_agent, run-Gives}
use webhook_ops.Tunnel.Settings
use webhook_ops.Tunnel.Options
use webhook_ops.Tunnel.Options.Ready.{IsServable, parse_args-IsServable}

abbrev to_tunnel : Endpoint
to_tunnel = record { host = codes "t"; port = 97 }

abbrev to_db : Endpoint
to_db = record { host = codes "db"; port = 80 }

abbrev settings : List Setting
settings = tunnel to_tunnel ∷ tls ∷ allow to_db ∷ []

abbrev files : Bytes → Option Bytes
files path = some (codes "id = dev\n")

abbrev file : ConfigFile
file = (codes "id", codes "dev" ∷ []) ∷ []

abbrev file_c : Config
file_c = record default_config { id = codes "dev" }

abbrev command_line : List Bytes
command_line = codes "agent" ∷ codes "join" ∷ codes "--config" ∷ codes "f" ∷ arguments settings

file_read : load_config_file files (codes "f") [] ≡ (loaded, file)
unfolding load_config_file parse_line trim_copy lower_copy find_if push_back
file_read = refl

file_applied : apply_node_config file default_config ≡ accepted file_c
unfolding apply_node_config config_get config_get_all lower_copy and_then file_tls file_tunnel
    file_allow
file_applied = refl

to_tunnel-IsPlain : IsPlain to_tunnel
to_tunnel-IsPlain = record {
  first = b't';
  others = [];
  host = refl;
  plain = λ e. omega arith;
  positive = omega arith;
  fits = omega arith;
}

to_db-IsPlain : IsPlain to_db
to_db-IsPlain = record {
  first = b'd';
  others = codes "b";
  host = refl;
  plain = λ e. omega arith;
  positive = omega arith;
  fits = omega arith;
}

parse_args-arguments_example :
    parse_args files command_line default_config ≡ accepted (set_all settings file_c)
unfolding set_all
parse_args-arguments_example =
    parse_args-arguments files (codes "agent") (codes "f") settings default_config file_c file_read
      file_applied (to_tunnel-IsPlain, (tt, (to_db-IsPlain, tt))) refl

parse_args-IsReady_example : IsReady (set_all settings file_c)
parse_args-IsReady_example = parse_args-IsReady files command_line parse_args-arguments_example

abbrev events : List Event
events =
    receive (λ e. socket 7) true true
      (record { frame_type = open_stream; stream_id = 1; payload = codes "db\n80" })
    ∷ receive (λ e. socket 8) true true
        (record { frame_type = open_stream; stream_id = 2; payload = codes "db\n22" })
    ∷ []

run-Gives_example :
    All (Gives settings) (run events (start_agent (set_all settings file_c))).connects
run-Gives_example =
    run-Gives files (codes "agent") (codes "f") settings file_c events file_read file_applied refl
      (to_tunnel-IsPlain, (tt, (to_db-IsPlain, tt))) parse_args-arguments_example

abbrev tunnel_line : List Bytes
tunnel_line =
    codes "tunnel"
    ∷ codes "--proxy"
    ∷ codes "p:80"
    ∷ codes "--tls-key"
    ∷ codes "k"
    ∷ codes "--tls-cert"
    ∷ codes "c"
    ∷ []

abbrev tunnel_c : Settings.Config
tunnel_c = Options.with_cert (codes "c") (
    Options.with_key (codes "k")
      (Options.with_proxy (record { host = codes "p"; port = 80 }) Settings.default_config))

tunnel_accepted :
    Options.parse_args (λ path. none) tunnel_line Settings.default_config ≡ accepted tunnel_c
unfolding Options.parse_args Options.option parse_options load_config_arg detect_command
    parse_host_port stoi find_if rfind and_then
tunnel_accepted = refl

parse_args-IsServable_example : IsServable tunnel_c
parse_args-IsServable_example = parse_args-IsServable (λ path. none) tunnel_line tunnel_accepted
