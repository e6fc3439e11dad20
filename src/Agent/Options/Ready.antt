-- ===== src/Agent/Options/Ready.antt =====
-- What an agent can rely on in the settings that it was started with (agent/src/agent/main.cpp).
use webhook_ops.Common.{
  ◌<◌, ◌≡◌, ◌≢◌, refl, Bool, true, false, ◌||◌, Option, List, [], ◌∷◌, ◌++◌, arith, Bytes, codes,
  is_empty, ◌==◌, if◌then◌else◌, drop, ==_iff,
}
use webhook_ops.Config.{ConfigFile, config_get, config_get_all}
use webhook_ops.CommandLine.{accepted, refused, detect_command, load_config_arg, parse_options}
use webhook_ops.CommandLine.Accepted.{
  Keeps, TakenKeeps, Keeps-accepted, if-Keeps, if-holds, load_config_arg-Keeps, parse_options-Keeps,
  and_then-Keeps,
}
use webhook_ops.Agent.Options.{
  Config, default_config, with_controller, with_allowed, with_tls, with_ca, with_insecure,
  set_endpoint, file_tunnel, file_id, file_secret, file_allow, file_tls, is_yes, apply_node_config,
  OptionName, help_option, config_option, tunnel_option, id_option, secret_option, allow_option,
  tls_option, ca_option, insecure_option, unknown_option, apply_option, option, option_of,
  check_tunnel, parse_args,
}
use webhook_ops.Agent.Options.Sound.{
  IsSound, default_config-IsSound, nonempty, set_endpoint-Keeps, valued-Keeps,
  with_controller-IsSound, with_allowed-IsSound, tls_on-IsSound, with_id-IsSound,
  with_secret-IsSound,
}

pub record IsReady (c : Config) : Type 0 where
  pub sound : IsSound c
  pub named : c.controller_host ≢ []
  pub positive : 0 < c.controller_port

file_tunnel-Keeps : (value : Bytes) (c : Config) → IsSound c → Keeps IsSound (file_tunnel value c)
unfolding file_tunnel
file_tunnel-Keeps value c v =
    if-Keeps IsSound (is_empty value) (accepted c)
      (set_endpoint value (codes "invalid config tunnel endpoint") with_controller c) v
      (set_endpoint-Keeps value (codes "invalid config tunnel endpoint") with_controller c
        (with_controller-IsSound c v))

file_id-IsSound : (value : Bytes) (c : Config) → IsSound c → IsSound (file_id value c)
unfolding file_id
file_id-IsSound [] c v = v
file_id-IsSound (b ∷ value) c v = with_id-IsSound c (b ∷ value) refl v

file_secret-IsSound :
    (value legacy : Bytes) (c : Config) → IsSound c → IsSound (file_secret value legacy c)
unfolding file_secret
file_secret-IsSound [] [] c v = v
file_secret-IsSound [] (b ∷ legacy) c v = with_secret-IsSound c (b ∷ legacy) refl v
file_secret-IsSound (b ∷ value) legacy c v = with_secret-IsSound c (b ∷ value) refl v

file_allow-Keeps :
    (values : List Bytes) (c : Config) → IsSound c → Keeps IsSound (file_allow values c)
unfolding file_allow
file_allow-Keeps [] c v = v
file_allow-Keeps (value ∷ values) c v =
    and_then-Keeps IsSound IsSound
      (set_endpoint value (codes "invalid config allow endpoint: " ++ value) with_allowed c)
      (file_allow values)
      (set_endpoint-Keeps value (codes "invalid config allow endpoint: " ++ value) with_allowed c
        (with_allowed-IsSound c v))
      (file_allow-Keeps values)

file_tls-IsSound : (file : ConfigFile) (c : Config) → IsSound c → IsSound (file_tls file c)
unfolding file_tls
file_tls-IsSound file c v =
    let ca = config_get file (codes "tls_ca") [] in
    let enabled = if is_yes (config_get file (codes "tls") []) then with_tls c else c in
    let trusted = if is_empty ca then enabled else with_ca ca enabled in
    let enabled-IsSound =
      if-holds IsSound (is_yes (config_get file (codes "tls") [])) (with_tls c) c
        (tls_on-IsSound c _ v refl) v in
    let trusted-IsSound =
      if-holds IsSound (is_empty ca) enabled (with_ca ca enabled) enabled-IsSound
        (tls_on-IsSound enabled _ enabled-IsSound refl) in
    if-holds IsSound (is_yes (config_get file (codes "tls_insecure") [])) (with_insecure trusted)
      trusted (tls_on-IsSound trusted _ trusted-IsSound refl) trusted-IsSound

apply_node_config-Keeps :
    (file : ConfigFile) (c : Config) → IsSound c → Keeps IsSound (apply_node_config file c)
unfolding apply_node_config
apply_node_config-Keeps file c v =
    and_then-Keeps IsSound IsSound (file_tunnel (config_get file (codes "tunnel") []) c) _
      (file_tunnel-Keeps (config_get file (codes "tunnel") []) c v)
      (λ tunnel w.
        let id = config_get file (codes "id") [] in
        let secret = config_get file (codes "secret") [] in
        let token = config_get file (codes "token") [] in
        let keyed = file_secret secret token (file_id id tunnel) in
        and_then-Keeps IsSound IsSound (file_allow (config_get_all file (codes "allow")) keyed) _
          (file_allow-Keeps (config_get_all file (codes "allow")) keyed
            (file_secret-IsSound secret token (file_id id tunnel) (file_id-IsSound id tunnel w)))
          (file_tls-IsSound file))

apply_option-Keeps :
    (name : OptionName) (arg value : Bytes) (c : Config)
    → IsSound c
    → TakenKeeps IsSound (apply_option name arg value c)
unfolding apply_option
apply_option-Keeps help_option arg value c v = tt
apply_option-Keeps config_option arg value c v = v
apply_option-Keeps tunnel_option arg value c v = valued-Keeps _ (
    set_endpoint-Keeps value (codes "invalid --tunnel endpoint") with_controller c
      (with_controller-IsSound c v))
apply_option-Keeps id_option arg [] c v = tt
apply_option-Keeps id_option arg (b ∷ value) c v = with_id-IsSound c (b ∷ value) refl v
apply_option-Keeps secret_option arg [] c v = tt
apply_option-Keeps secret_option arg (b ∷ value) c v = with_secret-IsSound c (b ∷ value) refl v
apply_option-Keeps allow_option arg value c v = valued-Keeps _ (
    set_endpoint-Keeps value (codes "invalid --allow endpoint") with_allowed c
      (with_allowed-IsSound c v))
apply_option-Keeps tls_option arg value c v = tls_on-IsSound c _ v refl
apply_option-Keeps ca_option arg value c v = tls_on-IsSound c _ v refl
apply_option-Keeps insecure_option arg value c v = tls_on-IsSound c _ v refl
apply_option-Keeps unknown_option arg value c v = tt

option-Keeps :
    (arg value : Bytes) (c : Config) → IsSound c → TakenKeeps IsSound (option arg value c)
unfolding option
option-Keeps arg value c v = apply_option-Keeps (option_of arg) arg value c v

check_tunnel-Keeps : (c : Config) → IsSound c → Keeps IsReady (check_tunnel c)
unfolding check_tunnel
check_tunnel-Keeps c v = ready (is_empty c.controller_host || c.controller_port == 0) refl
  where
    ready :
        (b : Bool)
        → (is_empty c.controller_host || c.controller_port == 0) ≡ b
        → Keeps IsReady (if b then refused (codes "--tunnel is required") else accepted c)
    ready true e = tt
    ready false e = record {
      sound = v;
      named = nonempty c.controller_host (ground arith);
      positive = ground (arith, ==_iff c.controller_port 0);
    }

-- Settings that a command line is accepted with name a tunnel, by a host and a port from 1 to 65535,
-- hold an id and a secret, allow only usable endpoints, in the form in which an asked endpoint is
-- compared, and have TLS on if they name a CA file or turn verification off.
pub parse_args-IsReady :
    (files : Bytes → Option Bytes) (argv : List Bytes) {c : Config}
    → parse_args files argv default_config ≡ accepted c
    → IsReady c
unfolding parse_args
parse_args-IsReady files argv h =
    let options = drop (detect_command (codes "join") argv).1 argv in
    let read =
      and_then-Keeps IsSound IsReady
        (load_config_arg files apply_node_config options default_config) _
        (load_config_arg-Keeps IsSound files apply_node_config options default_config
          apply_node_config-Keeps default_config-IsSound)
        (λ loaded v.
          and_then-Keeps IsSound IsReady (parse_options option options loaded) check_tunnel
            (parse_options-Keeps IsSound option options loaded option-Keeps v)
            check_tunnel-Keeps) in
    Keeps-accepted IsReady (parse_args files argv default_config) read h
