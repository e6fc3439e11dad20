-- ===== src/Agent/Options.antt =====
-- The settings of the agent: `Config`, `apply_node_config` and `parse_args` of agent/src/agent/main.cpp.
pub mod Sound
pub mod Ready
pub mod Settings
pub mod Reach
use webhook_ops.Common.{
  ℕ, ◌≡◌, refl, Bool, true, false, ◌||◌, Option, none, some, List, [], ◌∷◌, ◌++◌, Bytes, codes, eqb,
  drop, is_empty, ◌==◌, if◌then◌else◌,
}
use webhook_ops.Stdlib.{find_if, rfind}
use webhook_ops.Stdlib.Decimal.{stoi}
use webhook_ops.Net.Endpoint.{Endpoint, parse_host_port, endpoint_to_string}
use webhook_ops.Config.{ConfigFile, config_get, config_get_all}
use webhook_ops.Tunnel.Settings.{TlsOptions, default_tls}
use webhook_ops.Agent.Session.{contains}
use webhook_ops.CommandLine.{
  Command, Parsed, accepted, refused, helped, and_then, Taken, alone, with_value, stop,
  detect_command, load_config_arg, parse_options,
}

pub record Config : Type 0 where
  pub controller_host : Bytes
  pub controller_port : ℕ
  pub id : Bytes
  pub secret : Bytes
  -- A std::set, by its members.
  pub allowlist : List Bytes
  pub tls : TlsOptions

abbrev pub default_config : Config
default_config = record {
  controller_host = [];
  controller_port = 0;
  id = codes "agent-01";
  secret = codes "dev-secret";
  allowlist = [];
  tls = default_tls;
}

unfoldable pub insert : Bytes → List Bytes → List Bytes
unfolding contains
insert text members = if contains text members then members else text ∷ members

abbrev pub with_controller : Endpoint → Config → Config
with_controller e c = record c { controller_host = e.host; controller_port = e.port }

abbrev pub with_allowed : Endpoint → Config → Config
with_allowed e c = record c { allowlist = insert (endpoint_to_string e.host e.port) c.allowlist }

abbrev pub with_tls : Config → Config
with_tls c = record c { tls = record c.tls { enabled = true } }

abbrev pub with_ca : Bytes → Config → Config
with_ca path c = record c { tls = record c.tls { enabled = true; ca_path = path } }

abbrev pub with_insecure : Config → Config
with_insecure c = record c { tls = record c.tls { enabled = true; insecure_skip_verify = true } }

-- An endpoint is parsed, and then set or refused.
abbrev pub set_endpoint : Bytes → Bytes → (Endpoint → Config → Config) → Config → Parsed Config
set_endpoint text message set c = elim (parse_host_port text 0) [
  | none ↦ refused message
  | some e ↦ accepted (set e c)
]

unfoldable pub file_tunnel : Bytes → Config → Parsed Config
file_tunnel value c =
    if is_empty value
    then accepted c
    else set_endpoint value (codes "invalid config tunnel endpoint") with_controller c

unfoldable pub file_id : Bytes → Config → Config
file_id value c = if is_empty value then c else record c { id = value }

unfoldable pub file_secret : Bytes → Bytes → Config → Config
file_secret value legacy c =
    if is_empty value
    then if is_empty legacy then c else record c { secret = legacy }
    else record c { secret = value }

unfoldable pub file_allow : List Bytes → Config → Parsed Config
file_allow [] c = accepted c
file_allow (value ∷ values) c =
    and_then (set_endpoint value (codes "invalid config allow endpoint: " ++ value) with_allowed c)
      (file_allow values)

abbrev pub is_yes : Bytes → Bool
is_yes value = eqb value (codes "true") || eqb value (codes "1") || eqb value (codes "yes")

unfoldable pub file_tls : ConfigFile → Config → Config
file_tls file c =
    let enabled = if is_yes (config_get file (codes "tls") []) then with_tls c else c in
    let ca = config_get file (codes "tls_ca") [] in
    let trusted = if is_empty ca then enabled else with_ca ca enabled in
    if is_yes (config_get file (codes "tls_insecure") []) then with_insecure trusted else trusted

unfoldable pub apply_node_config : ConfigFile → Config → Parsed Config
unfolding file_id file_secret
apply_node_config file c = and_then (file_tunnel (config_get file (codes "tunnel") []) c) (λ tunnel.
    let named = file_id (config_get file (codes "id") []) tunnel in
    let keyed =
      file_secret (config_get file (codes "secret") []) (config_get file (codes "token") [])
        named in
    and_then (file_allow (config_get_all file (codes "allow")) keyed)
      (λ allowed. accepted (file_tls file allowed)))

pub data OptionName : Type 0 where
  help_option config_option tunnel_option id_option secret_option allow_option tls_option ca_option
        insecure_option unknown_option :
      OptionName

unfoldable pub option_of : Bytes → OptionName
option_of arg =
    if eqb arg (codes "--help") || eqb arg (codes "-h")
    then help_option
    else if eqb arg (codes "--config")
    then config_option
    else if eqb arg (codes "--tunnel")
    then tunnel_option
    else if eqb arg (codes "--id")
    then id_option
    else if eqb arg (codes "--secret") || eqb arg (codes "--token")
    then secret_option
    else if eqb arg (codes "--allow")
    then allow_option
    else if eqb arg (codes "--tls")
    then tls_option
    else if eqb arg (codes "--tls-ca")
    then ca_option
    else if eqb arg (codes "--tls-insecure")
    then insecure_option
    else unknown_option

abbrev pub valued : Parsed Config → Taken Config
valued (accepted c) = with_value c
valued (refused message) = stop (refused message)
valued helped = stop helped

-- The body of the loop of `parse_args`.
unfoldable pub apply_option : OptionName → Bytes → Bytes → Config → Taken Config
apply_option help_option arg value c = stop helped
apply_option config_option arg value c = with_value c
apply_option tunnel_option arg value c =
    valued (set_endpoint value (codes "invalid --tunnel endpoint") with_controller c)
apply_option id_option arg value c =
    if is_empty value
    then stop (refused (codes "--id cannot be empty"))
    else with_value (record c { id = value })
apply_option secret_option arg value c =
    if is_empty value
    then stop (refused (arg ++ codes " cannot be empty"))
    else with_value (record c { secret = value })
apply_option allow_option arg value c =
    valued (set_endpoint value (codes "invalid --allow endpoint") with_allowed c)
apply_option tls_option arg value c = alone (with_tls c)
apply_option ca_option arg value c = with_value (with_ca value c)
apply_option insecure_option arg value c = alone (with_insecure c)
apply_option unknown_option arg value c = stop (refused (codes "unknown argument: " ++ arg))

unfoldable pub option : Bytes → Bytes → Config → Taken Config
unfolding option_of apply_option
option arg value c = apply_option (option_of arg) arg value c

unfoldable pub check_tunnel : Config → Parsed Config
check_tunnel c =
    if is_empty c.controller_host || c.controller_port == 0
    then refused (codes "--tunnel is required")
    else accepted c

abbrev pub agent_command : List Bytes → Command × ℕ
agent_command argv = detect_command (codes "join") argv

abbrev pub load_agent_config : (Bytes → Option Bytes) → List Bytes → Config → Parsed Config
load_agent_config files options c = load_config_arg files apply_node_config options c

unfoldable pub parse_args : (Bytes → Option Bytes) → List Bytes → Config → Parsed Config
unfolding check_tunnel
parse_args files argv c =
    let options = drop (agent_command argv).1 argv in
    and_then (load_agent_config files options c)
      (λ loaded. and_then (parse_options option options loaded) check_tunnel)

runs :
    (parse_args
        (λ _. none)
        (codes "agent" ∷ codes "join" ∷ codes "--tunnel" ∷ codes "t:9700" ∷ codes "--tls" ∷ [])
        default_config
      ≡ accepted
          (with_tls (with_controller (record { host = codes "t"; port = 9700 }) default_config)))
    × (parse_args (λ _. none) (codes "agent" ∷ codes "--tunnel" ∷ []) default_config
        ≡ refused (codes "invalid --tunnel endpoint"))
    × (parse_args (λ _. none) (codes "agent" ∷ codes "join" ∷ codes "-h" ∷ []) default_config
        ≡ helped)
unfolding parse_args option parse_options load_config_arg detect_command parse_host_port stoi
    find_if rfind and_then
runs = (refl, refl, refl)
