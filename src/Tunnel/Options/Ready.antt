-- ===== src/Tunnel/Options/Ready.antt =====
-- What the tunnel can rely on in the settings that it was started with (agent/src/tunnel/main.cpp).
use webhook_ops.Common.{
  ◌≡◌, refl, Bool, true, false, ◌&&◌, ◌||◌, not, Option, List, [], ◌∷◌, arith, All, Bytes, codes,
  is_empty, if◌then◌else◌, drop,
}
use webhook_ops.Net.Endpoint.{Endpoint}
use webhook_ops.Net.Endpoint.Accepts.{IsUsable}
use webhook_ops.Config.{ConfigFile, config_get}
use webhook_ops.Tunnel.Settings.{Config, default_config}
use webhook_ops.CommandLine.{accepted, refused, detect_command, load_config_arg, parse_options}
use webhook_ops.CommandLine.Accepted.{
  Keeps, TakenKeeps, Keeps-accepted, if-Keeps, if-holds, load_config_arg-Keeps, parse_options-Keeps,
  and_then-Keeps,
}
use webhook_ops.Tunnel.Options.{
  with_control, with_proxy, with_cert, with_key, set_endpoint, unless_empty, file_endpoint,
  file_secret, file_texts, text_entries, file_tls, apply_controller_config, OptionName, help_option,
  config_option, control_option, proxy_option, secret_option, state_option, selected_option,
  auth_url_option, auth_token_option, status_url_option, status_token_option, cert_option,
  key_option, unknown_option, apply_option, option, option_of, check_tls, parse_args,
}
use webhook_ops.Tunnel.Options.Sound.{
  IsSound, default_config-IsSound, same-IsSound, set_endpoint-Keeps, with_control-IsSound,
  with_proxy-IsSound, tls_on-IsSound, with_secret-IsSound, valued-Keeps,
}

pub record IsServable (c : Config) : Type 0 where
  pub sound : IsSound c
  -- With TLS there are a certificate and a key.
  pub complete :
      not c.tls.enabled || (not (is_empty c.tls.cert_path) && not (is_empty c.tls.key_path)) ≡ true

file_endpoint-Keeps :
    (value message : Bytes) (set : Endpoint → Config → Config) (c : Config)
    → IsSound c
    → ((e : Endpoint) → IsUsable e → IsSound (set e c))
    → Keeps IsSound (file_endpoint value message set c)
unfolding file_endpoint
file_endpoint-Keeps value message set c v keeps =
    if-Keeps IsSound (is_empty value) (accepted c) (set_endpoint value message set c) v
      (set_endpoint-Keeps value message set c keeps)

file_secret-IsSound :
    (value legacy : Bytes) (c : Config) → IsSound c → IsSound (file_secret value legacy c)
unfolding file_secret
file_secret-IsSound [] [] c v = v
file_secret-IsSound [] (b ∷ legacy) c v = with_secret-IsSound c b legacy v
file_secret-IsSound (b ∷ value) legacy c v = with_secret-IsSound c b value v

unless_empty-IsSound :
    (value : Bytes) (set : Config → Config) (c : Config)
    → ((d : Config) → IsSound d → IsSound (set d))
    → IsSound c
    → IsSound (unless_empty value set c)
unless_empty-IsSound value set c keeps v = if-holds IsSound (is_empty value) c (set c) v (keeps c v)

file_texts-IsSound :
    (file : ConfigFile) (entries : List (Bytes × (Bytes → Config → Config))) (c : Config)
    → All (λ entry. (value : Bytes) (d : Config) → IsSound d → IsSound (entry.1 value d)) entries
    → IsSound c
    → IsSound (file_texts file entries c)
unfolding file_texts
file_texts-IsSound file [] c keeps v = v
file_texts-IsSound file ((key, set) ∷ entries) c (keep, keeps) v =
    let value = config_get file key [] in
    file_texts-IsSound file entries (unless_empty value (set value) c) keeps
      (unless_empty-IsSound value (set value) c (keep value) v)

text_entries-keep :
    All (λ entry. (value : Bytes) (d : Config) → IsSound d → IsSound (entry.1 value d)) text_entries
text_entries-keep = (
  λ value d v. same-IsSound d _ v refl refl refl refl,
  (
    λ value d v. same-IsSound d _ v refl refl refl refl,
    (
      λ value d v. same-IsSound d _ v refl refl refl refl,
      (
        λ value d v. same-IsSound d _ v refl refl refl refl,
        (
          λ value d v. same-IsSound d _ v refl refl refl refl,
          (λ value d v. same-IsSound d _ v refl refl refl refl, tt),
        ),
      ),
    ),
  ),
)

file_tls-IsSound : (file : ConfigFile) (c : Config) → IsSound c → IsSound (file_tls file c)
unfolding file_tls
file_tls-IsSound file c v =
    let cert = config_get file (codes "tls_cert") [] in
    let key = config_get file (codes "tls_key") [] in
    unless_empty-IsSound key (with_key key) (unless_empty cert (with_cert cert) c)
      (λ d w. tls_on-IsSound d _ w refl)
      (unless_empty-IsSound cert (with_cert cert) c (λ d w. tls_on-IsSound d _ w refl) v)

apply_controller_config-Keeps :
    (file : ConfigFile) (c : Config) → IsSound c → Keeps IsSound (apply_controller_config file c)
unfolding apply_controller_config
apply_controller_config-Keeps file c v =
    and_then-Keeps IsSound IsSound
      (file_endpoint (config_get file (codes "control") [])
        (codes "invalid config control endpoint") with_control c)
      _
      (file_endpoint-Keeps (config_get file (codes "control") [])
        (codes "invalid config control endpoint") with_control c v (with_control-IsSound c v))
      (λ d w.
        and_then-Keeps IsSound IsSound
          (file_endpoint (config_get file (codes "proxy") [])
            (codes "invalid config proxy endpoint") with_proxy d)
          _
          (file_endpoint-Keeps (config_get file (codes "proxy") [])
            (codes "invalid config proxy endpoint") with_proxy d w (with_proxy-IsSound d w))
          (λ p u.
            let secret = config_get file (codes "secret") [] in
            let token = config_get file (codes "token") [] in
            let keyed = file_secret secret token p in
            file_tls-IsSound file (file_texts file text_entries keyed) (
              file_texts-IsSound file text_entries keyed text_entries-keep
                (file_secret-IsSound secret token p u))))

apply_option-Keeps :
    (name : OptionName) (arg value : Bytes) (c : Config)
    → IsSound c
    → TakenKeeps IsSound (apply_option name arg value c)
unfolding apply_option
apply_option-Keeps help_option arg value c v = tt
apply_option-Keeps config_option arg value c v = v
apply_option-Keeps control_option arg value c v = valued-Keeps _ (
    set_endpoint-Keeps value (codes "invalid --control endpoint") with_control c
      (with_control-IsSound c v))
apply_option-Keeps proxy_option arg value c v = valued-Keeps _ (
    set_endpoint-Keeps value (codes "invalid --proxy endpoint") with_proxy c
      (with_proxy-IsSound c v))
apply_option-Keeps secret_option arg [] c v = tt
apply_option-Keeps secret_option arg (b ∷ value) c v = with_secret-IsSound c b value v
apply_option-Keeps selected_option arg [] c v = tt
apply_option-Keeps selected_option arg (b ∷ value) c v = same-IsSound c _ v refl refl refl refl
apply_option-Keeps state_option arg value c v = same-IsSound c _ v refl refl refl refl
apply_option-Keeps auth_url_option arg value c v = same-IsSound c _ v refl refl refl refl
apply_option-Keeps auth_token_option arg value c v = same-IsSound c _ v refl refl refl refl
apply_option-Keeps status_url_option arg value c v = same-IsSound c _ v refl refl refl refl
apply_option-Keeps status_token_option arg value c v = same-IsSound c _ v refl refl refl refl
apply_option-Keeps cert_option arg value c v = tls_on-IsSound c _ v refl
apply_option-Keeps key_option arg value c v = tls_on-IsSound c _ v refl
apply_option-Keeps unknown_option arg value c v = tt

option-Keeps :
    (arg value : Bytes) (c : Config) → IsSound c → TakenKeeps IsSound (option arg value c)
unfolding option
option-Keeps arg value c v = apply_option-Keeps (option_of arg) arg value c v

check_tls-Keeps : (c : Config) → IsSound c → Keeps IsServable (check_tls c)
unfolding check_tls
check_tls-Keeps c v =
    ready (c.tls.enabled && (is_empty c.tls.cert_path || is_empty c.tls.key_path)) refl
  where
    ready :
        (b : Bool)
        → (c.tls.enabled && (is_empty c.tls.cert_path || is_empty c.tls.key_path)) ≡ b
        → Keeps IsServable
            (if b then refused (codes "TLS requires both --tls-cert and --tls-key") else accepted c)
    ready true e = tt
    ready false e = record { sound = v; complete = ground arith }

-- Settings that a command line is accepted with have usable endpoints for the agents and for the proxy
-- clients and a secret, and TLS is on exactly if there are both a certificate and a key, and off only
-- if there is none of them.
pub parse_args-IsServable :
    (files : Bytes → Option Bytes) (argv : List Bytes) {c : Config}
    → parse_args files argv default_config ≡ accepted c
    → IsServable c
unfolding parse_args
parse_args-IsServable files argv h =
    let options = drop (detect_command (codes "run") argv).1 argv in
    let read =
      and_then-Keeps IsSound IsServable
        (load_config_arg files apply_controller_config options default_config) _
        (load_config_arg-Keeps IsSound files apply_controller_config options default_config
          apply_controller_config-Keeps default_config-IsSound)
        (λ loaded v.
          and_then-Keeps IsSound IsServable (parse_options option options loaded) check_tls
            (parse_options-Keeps IsSound option options loaded option-Keeps v) check_tls-Keeps) in
    Keeps-accepted IsServable (parse_args files argv default_config) read h
