-- ===== src/Agent/Options/Settings.antt =====
-- Settings given to the agent on its command line (agent/src/agent/main.cpp).
use webhook_ops.Common.{
  ℕ, ◌≤◌, ◌<◌, ◌≡◌, ◌≢◌, refl, ap, ◌∙◌, false, ◌||◌, Option, none, some, List, [], ◌∷◌, Bytes,
  codes, All, is_empty, ◌==◌, if◌then◌else◌,
}
use webhook_ops.Net.Endpoint.{Endpoint, parse_host_port, endpoint_to_string, max_port}
use webhook_ops.Net.Endpoint.RoundTrip.{parse_host_port-endpoint_to_string}
use webhook_ops.Config.{ConfigFile, loaded, load_config_file}
use webhook_ops.CommandLine.{accepted, refused, and_then, detect_command, parse_options}
use webhook_ops.CommandLine.Options.{
  parse_options-alone, parse_options-with_value, load_config_arg_first,
}
use webhook_ops.Agent.Options.{
  Config, with_controller, with_allowed, with_tls, with_ca, with_insecure, set_endpoint,
  apply_node_config, valued, apply_option, option, option_of, check_tunnel, parse_args,
}

pub data Setting : Type 0 where
  tunnel allow : Endpoint → Setting
  id secret ca : Bytes → Setting
  tls insecure : Setting

unfoldable pub arguments : List Setting → List Bytes
unfolding endpoint_to_string
arguments [] = []
arguments (tunnel e ∷ settings) =
    codes "--tunnel" ∷ endpoint_to_string e.host e.port ∷ arguments settings
arguments (allow e ∷ settings) =
    codes "--allow" ∷ endpoint_to_string e.host e.port ∷ arguments settings
arguments (id value ∷ settings) = codes "--id" ∷ value ∷ arguments settings
arguments (secret value ∷ settings) = codes "--secret" ∷ value ∷ arguments settings
arguments (ca path ∷ settings) = codes "--tls-ca" ∷ path ∷ arguments settings
arguments (tls ∷ settings) = codes "--tls" ∷ arguments settings
arguments (insecure ∷ settings) = codes "--tls-insecure" ∷ arguments settings

-- What the settings mean, one after the other.
unfoldable pub set_all : List Setting → Config → Config
set_all [] c = c
set_all (tunnel e ∷ settings) c = set_all settings (with_controller e c)
set_all (allow e ∷ settings) c = set_all settings (with_allowed e c)
set_all (id value ∷ settings) c = set_all settings (record c { id = value })
set_all (secret value ∷ settings) c = set_all settings (record c { secret = value })
set_all (ca path ∷ settings) c = set_all settings (with_ca path c)
set_all (tls ∷ settings) c = set_all settings (with_tls c)
set_all (insecure ∷ settings) c = set_all settings (with_insecure c)

-- An endpoint whose text is read back.
pub record IsPlain (e : Endpoint) : Type 0 where
  pub first : ℕ
  pub others : Bytes
  pub host : e.host ≡ first ∷ others
  pub plain : first ≢ b'['
  pub positive : 0 < e.port
  pub fits : e.port ≤ max_port

abbrev pub IsGiven : Setting → Type 0
IsGiven (tunnel e) = IsPlain e
IsGiven (allow e) = IsPlain e
IsGiven (id value) = is_empty value ≡ false
IsGiven (secret value) = is_empty value ≡ false
IsGiven _ = Unit

set_endpoint_plain :
    (e : Endpoint) (message : Bytes) (set : Endpoint → Config → Config) (c : Config)
    → IsPlain e
    → set_endpoint (endpoint_to_string e.host e.port) message set c ≡ accepted (set e c)
set_endpoint_plain e message set c p =
    ap (λ r. elim r [ none ↦ refused message | some found ↦ accepted (set found c) ])
      (plain_host e.host p.host)
  where
    plain_host :
        (host : Bytes)
        → host ≡ p.first ∷ p.others
        → parse_host_port (endpoint_to_string host e.port) 0
          ≡ some (record { host = host; port = e.port })
    plain_host host same =
        rw same
          (parse_host_port-endpoint_to_string p.first p.others e.port 0 p.plain p.positive p.fits)

parse_options-arguments :
    (settings : List Setting) (c : Config)
    → All IsGiven settings
    → parse_options option (arguments settings) c ≡ accepted (set_all settings c)
unfolding arguments set_all option apply_option option_of parse_options
parse_options-arguments [] c v = refl
parse_options-arguments (tunnel e ∷ settings) c (p, v) =
    parse_options-with_value option (codes "--tunnel") (endpoint_to_string e.host e.port)
      (arguments settings) c
      (ap valued (set_endpoint_plain e (codes "invalid --tunnel endpoint") with_controller c p))
    ∙ parse_options-arguments settings (with_controller e c) v
parse_options-arguments (allow e ∷ settings) c (p, v) =
    parse_options-with_value option (codes "--allow") (endpoint_to_string e.host e.port)
      (arguments settings) c
      (ap valued (set_endpoint_plain e (codes "invalid --allow endpoint") with_allowed c p))
    ∙ parse_options-arguments settings (with_allowed e c) v
parse_options-arguments (id value ∷ settings) c (p, v) =
    parse_options-with_value option (codes "--id") value (arguments settings) c (rw p refl)
    ∙ parse_options-arguments settings (record c { id = value }) v
parse_options-arguments (secret value ∷ settings) c (p, v) =
    parse_options-with_value option (codes "--secret") value (arguments settings) c (rw p refl)
    ∙ parse_options-arguments settings (record c { secret = value }) v
parse_options-arguments (ca path ∷ settings) c (p, v) =
    parse_options-with_value option (codes "--tls-ca") path (arguments settings) c refl
    ∙ parse_options-arguments settings (with_ca path c) v
parse_options-arguments (tls ∷ settings) c (p, v) =
    parse_options-alone option (codes "--tls") (arguments settings) c (λ value. refl)
    ∙ parse_options-arguments settings (with_tls c) v
parse_options-arguments (insecure ∷ settings) c (p, v) =
    parse_options-alone option (codes "--tls-insecure") (arguments settings) c (λ value. refl)
    ∙ parse_options-arguments settings (with_insecure c) v

pub parse_args_file :
    (files : Bytes → Option Bytes) (program path : Bytes) (settings : List Setting)
    (c file_c : Config) {file : ConfigFile}
    → load_config_file files path [] ≡ (loaded, file)
    → apply_node_config file c ≡ accepted file_c
    → All IsGiven settings
    → parse_args files (program ∷ codes "join" ∷ codes "--config" ∷ path ∷ arguments settings) c
      ≡ check_tunnel (set_all settings file_c)
unfolding parse_args detect_command and_then option option_of
parse_args_file files program path settings c file_c read applied given =
    rw (load_config_arg_first files apply_node_config path (arguments settings) c read, applied)
      (ap (λ r. and_then r check_tunnel)
        (parse_options-with_value option (codes "--config") path (arguments settings) file_c refl
          ∙ parse_options-arguments settings file_c given))

-- Settings behind a configuration file on the command line are taken as they were given, over those of
-- the file, if the file is accepted, the endpoints have a port from 1 to 65535 and a host that does not
-- begin with a bracket, the id and the secret are not empty, and a tunnel is named by the file or by
-- the settings.
pub parse_args-arguments :
    (files : Bytes → Option Bytes) (program path : Bytes) (settings : List Setting)
    (c file_c : Config) {file : ConfigFile}
    → load_config_file files path [] ≡ (loaded, file)
    → apply_node_config file c ≡ accepted file_c
    → All IsGiven settings
    → (is_empty (set_all settings file_c).controller_host
        || (set_all settings file_c).controller_port == 0)
      ≡ false
    → parse_args files (program ∷ codes "join" ∷ codes "--config" ∷ path ∷ arguments settings) c
      ≡ accepted (set_all settings file_c)
unfolding check_tunnel
parse_args-arguments files program path settings c file_c read applied given named =
    parse_args_file files program path settings c file_c read applied given
    ∙ ap
        (λ b.
          if b then refused (codes "--tunnel is required") else accepted (set_all settings file_c))
        named
