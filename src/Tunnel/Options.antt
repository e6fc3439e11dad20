-- ===== src/Tunnel/Options.antt =====
-- The settings of the tunnel: `apply_controller_config` and `parse_args` of agent/src/tunnel/main.cpp.
pub mod Sound
pub mod Ready
use webhook_ops.Common.{
  ℕ, ◌≡◌, refl, Bool, true, false, ◌&&◌, ◌||◌, Option, none, some, List, [], ◌∷◌, ◌++◌, Bytes,
  codes, eqb, drop, is_empty, if◌then◌else◌,
}
use webhook_ops.Stdlib.{find_if, rfind}
use webhook_ops.Stdlib.Decimal.{stoi}
use webhook_ops.Net.Endpoint.{Endpoint, parse_host_port}
use webhook_ops.Config.{ConfigFile, config_get}
use webhook_ops.Tunnel.Settings.{Config, default_config}
use webhook_ops.CommandLine.{
  Command, Parsed, accepted, refused, helped, and_then, Taken, alone, with_value, stop,
  detect_command, load_config_arg, parse_options,
}

abbrev pub with_control : Endpoint → Config → Config
with_control e c = record c { control_host = e.host; control_port = e.port }

abbrev pub with_proxy : Endpoint → Config → Config
with_proxy e c = record c { proxy_host = e.host; proxy_port = e.port }

abbrev pub with_cert : Bytes → Config → Config
with_cert path c = record c { tls = record c.tls { cert_path = path; enabled = true } }

abbrev pub with_key : Bytes → Config → Config
with_key path c = record c { tls = record c.tls { key_path = path; enabled = true } }

-- An endpoint is parsed, and then set or refused.
abbrev pub set_endpoint : Bytes → Bytes → (Endpoint → Config → Config) → Config → Parsed Config
set_endpoint text message set c = elim (parse_host_port text 0) [
  | none ↦ refused message
  | some e ↦ accepted (set e c)
]

-- An entry of the file that counts unless it is empty.
abbrev pub unless_empty : Bytes → (Config → Config) → Config → Config
unless_empty value set c = if is_empty value then c else set c

unfoldable pub file_endpoint : Bytes → Bytes → (Endpoint → Config → Config) → Config → Parsed Config
file_endpoint value message set c =
    if is_empty value then accepted c else set_endpoint value message set c

unfoldable pub file_secret : Bytes → Bytes → Config → Config
file_secret value legacy c =
    if is_empty value
    then unless_empty legacy (λ d. record d { secret = legacy }) c
    else record c { secret = value }

-- The entries that are texts, in their order, with what they set.
abbrev pub text_entries : List (Bytes × (Bytes → Config → Config))
text_entries =
    (codes "state", λ value c. record c { state_path = value })
    ∷ (codes "selected_agent", λ value c. record c { initial_selected_agent = value })
    ∷ (codes "auth_url", λ value c. record c { auth_url = value })
    ∷ (codes "auth_token", λ value c. record c { auth_token = value })
    ∷ (codes "status_url", λ value c. record c { status_url = value })
    ∷ (codes "status_token", λ value c. record c { status_token = value })
    ∷ []

unfoldable pub file_texts : ConfigFile → List (Bytes × (Bytes → Config → Config)) → Config → Config
file_texts file [] c = c
file_texts file ((key, set) ∷ entries) c =
    file_texts file entries (unless_empty (config_get file key []) (set (config_get file key [])) c)

unfoldable pub file_tls : ConfigFile → Config → Config
file_tls file c =
    let cert = config_get file (codes "tls_cert") [] in
    let key = config_get file (codes "tls_key") [] in
    unless_empty key (with_key key) (unless_empty cert (with_cert cert) c)

unfoldable pub apply_controller_config : ConfigFile → Config → Parsed Config
unfolding file_secret
apply_controller_config file c =
    and_then
      (file_endpoint (config_get file (codes "control") [])
        (codes "invalid config control endpoint") with_control c)
      (λ controlled.
        and_then
          (file_endpoint (config_get file (codes "proxy") [])
            (codes "invalid config proxy endpoint") with_proxy controlled)
          (λ proxied.
            let keyed =
              file_secret (config_get file (codes "secret") []) (config_get file (codes "token") [])
                proxied in
            accepted (file_tls file (file_texts file text_entries keyed))))

pub data OptionName : Type 0 where
  help_option config_option control_option proxy_option secret_option state_option selected_option
        auth_url_option auth_token_option status_url_option status_token_option cert_option
        key_option unknown_option :
      OptionName

unfoldable pub option_of : Bytes → OptionName
option_of arg =
    if eqb arg (codes "--help") || eqb arg (codes "-h")
    then help_option
    else if eqb arg (codes "--config")
    then config_option
    else if eqb arg (codes "--control")
    then control_option
    else if eqb arg (codes "--proxy")
    then proxy_option
    else if eqb arg (codes "--secret") || eqb arg (codes "--token")
    then secret_option
    else if eqb arg (codes "--state")
    then state_option
    else if eqb arg (codes "--selected")
    then selected_option
    else if eqb arg (codes "--auth-url")
    then auth_url_option
    else if eqb arg (codes "--auth-token")
    then auth_token_option
    else if eqb arg (codes "--status-url")
    then status_url_option
    else if eqb arg (codes "--status-token")
    then status_token_option
    else if eqb arg (codes "--tls-cert")
    then cert_option
    else if eqb arg (codes "--tls-key")
    then key_option
    else unknown_option

abbrev pub valued : Parsed Config → Taken Config
valued (accepted c) = with_value c
valued (refused message) = stop (refused message)
valued helped = stop helped

-- The body of the loop of `parse_args`.
unfoldable pub apply_option : OptionName → Bytes → Bytes → Config → Taken Config
apply_option help_option arg value c = stop helped
apply_option config_option arg value c = with_value c
apply_option control_option arg value c =
    valued (set_endpoint value (codes "invalid --control endpoint") with_control c)
apply_option proxy_option arg value c =
    valued (set_endpoint value (codes "invalid --proxy endpoint") with_proxy c)
apply_option secret_option arg value c =
    if is_empty value
    then stop (refused (arg ++ codes " cannot be empty"))
    else with_value (record c { secret = value })
apply_option state_option arg value c = with_value (record c { state_path = value })
apply_option selected_option arg value c =
    if is_empty value
    then stop (refused (codes "--selected cannot be empty"))
    else with_value (record c { initial_selected_agent = value })
apply_option auth_url_option arg value c = with_value (record c { auth_url = value })
apply_option auth_token_option arg value c = with_value (record c { auth_token = value })
apply_option status_url_option arg value c = with_value (record c { status_url = value })
apply_option status_token_option arg value c = with_value (record c { status_token = value })
apply_option cert_option arg value c = with_value (with_cert value c)
apply_option key_option arg value c = with_value (with_key value c)
apply_option unknown_option arg value c = stop (refused (codes "unknown argument: " ++ arg))

unfoldable pub option : Bytes → Bytes → Config → Taken Config
unfolding option_of apply_option
option arg value c = apply_option (option_of arg) arg value c

unfoldable pub check_tls : Config → Parsed Config
check_tls c =
    if c.tls.enabled && (is_empty c.tls.cert_path || is_empty c.tls.key_path)
    then refused (codes "TLS requires both --tls-cert and --tls-key")
    else accepted c

abbrev pub tunnel_command : List Bytes → Command × ℕ
tunnel_command argv = detect_command (codes "run") argv

abbrev pub load_tunnel_config : (Bytes → Option Bytes) → List Bytes → Config → Parsed Config
load_tunnel_config files options c = load_config_arg files apply_controller_config options c

unfoldable pub parse_args : (Bytes → Option Bytes) → List Bytes → Config → Parsed Config
unfolding check_tls
parse_args files argv c =
    let options = drop (tunnel_command argv).1 argv in
    and_then (load_tunnel_config files options c)
      (λ loaded. and_then (parse_options option options loaded) check_tls)

runs :
    (parse_args
        (λ _. none)
        (codes "tunnel" ∷ codes "--proxy" ∷ codes "p:80" ∷ codes "--state" ∷ [])
        default_config
      ≡ accepted (record (with_proxy (record { host = codes "p"; port = 80 }) default_config) {
        state_path = [];
      }))
    × (parse_args
          (λ _. none)
          (codes "tunnel" ∷ codes "run" ∷ codes "--tls-key" ∷ codes "k" ∷ [])
          default_config
        ≡ refused (codes "TLS requires both --tls-cert and --tls-key"))
    × (parse_args (λ _. none) (codes "tunnel" ∷ codes "x" ∷ []) default_config
        ≡ refused (codes "unknown argument: x"))
unfolding parse_args option parse_options load_config_arg detect_command parse_host_port stoi
    find_if rfind and_then
runs = (refl, refl, refl)
