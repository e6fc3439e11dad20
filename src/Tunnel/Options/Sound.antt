-- ===== src/Tunnel/Options/Sound.antt =====
-- What holds of the settings of the tunnel while they are read (agent/src/tunnel/main.cpp).
use webhook_ops.Common.{
  ℕ, ◌≡◌, ◌≢◌, refl, sym, ap, ◌∙◌, subst, Bool, true, false, ◌||◌, Option, none, some, [], ◌∷◌,
  arith, Bytes, is_empty,
}
use webhook_ops.Net.Endpoint.{Endpoint, parse_host_port}
use webhook_ops.Net.Endpoint.Accepts.{IsUsable, endpoint-IsUsable}
use webhook_ops.Tunnel.Settings.{Config, TlsOptions, default_config}
use webhook_ops.CommandLine.{Parsed, accepted, refused, helped}
use webhook_ops.CommandLine.Accepted.{Keeps, TakenKeeps}
use webhook_ops.Tunnel.Options.{with_control, with_proxy, set_endpoint, valued}

abbrev control_of : Config → Endpoint
control_of c = record { host = c.control_host; port = c.control_port }

abbrev proxy_of : Config → Endpoint
proxy_of c = record { host = c.proxy_host; port = c.proxy_port }

-- What holds of the settings at any time.
pub record IsSound (c : Config) : Type 0 where
  pub control : IsUsable (control_of c)
  pub proxy : IsUsable (proxy_of c)
  pub keyed : c.secret ≢ []
  -- A file of TLS turns TLS on.
  pub certified : is_empty c.tls.cert_path || c.tls.enabled ≡ true
  pub signed : is_empty c.tls.key_path || c.tls.enabled ≡ true

pub default_config-IsSound : IsSound default_config
default_config-IsSound = record {
  control = record { named = λ e. cc; positive = omega arith; fits = omega arith };
  proxy = record { named = λ e. cc; positive = omega arith; fits = omega arith };
  keyed = λ e. cc;
  certified = refl;
  signed = refl;
}

-- Settings with the same endpoints, secret and TLS options.
pub same-IsSound :
    (c d : Config)
    → IsSound c
    → control_of d ≡ control_of c
    → proxy_of d ≡ proxy_of c
    → d.secret ≡ c.secret
    → d.tls ≡ c.tls
    → IsSound d
same-IsSound c d v controls proxies secrets options = record {
  control = subst IsUsable (sym controls) v.control;
  proxy = subst IsUsable (sym proxies) v.proxy;
  keyed = subst (λ s. s ≢ []) (sym secrets) v.keyed;
  certified = ap (λ t. is_empty t.cert_path || t.enabled) options ∙ v.certified;
  signed = ap (λ t. is_empty t.key_path || t.enabled) options ∙ v.signed;
}

pub set_endpoint-Keeps :
    (text message : Bytes) (set : Endpoint → Config → Config) (c : Config)
    → ((e : Endpoint) → IsUsable e → IsSound (set e c))
    → Keeps IsSound (set_endpoint text message set c)
set_endpoint-Keeps text message set c keeps =
    set_found (parse_host_port text 0) (λ e h. keeps e (endpoint-IsUsable text h))
  where
    set_found :
        (found : Option Endpoint)
        → ((e : Endpoint) → found ≡ some e → IsSound (set e c))
        → Keeps IsSound (elim found [ none ↦ refused message | some e ↦ accepted (set e c) ])
    set_found none k = tt
    set_found (some e) k = k e refl

pub with_control-IsSound :
    (c : Config) → IsSound c → (e : Endpoint) → IsUsable e → IsSound (with_control e c)
with_control-IsSound c v e u = record {
  control = u;
  proxy = v.proxy;
  keyed = v.keyed;
  certified = v.certified;
  signed = v.signed;
}

pub with_proxy-IsSound :
    (c : Config) → IsSound c → (e : Endpoint) → IsUsable e → IsSound (with_proxy e c)
with_proxy-IsSound c v e u = record {
  control = v.control;
  proxy = u;
  keyed = v.keyed;
  certified = v.certified;
  signed = v.signed;
}

-- Any change of the TLS options that turns TLS on.
pub tls_on-IsSound :
    (c : Config) (tls : TlsOptions)
    → IsSound c
    → tls.enabled ≡ true
    → IsSound (record c { tls = tls })
tls_on-IsSound c tls v on = record {
  control = v.control;
  proxy = v.proxy;
  keyed = v.keyed;
  certified = either_on (is_empty tls.cert_path);
  signed = either_on (is_empty tls.key_path);
}
  where
    either_on : (b : Bool) → (b || tls.enabled) ≡ true
    either_on true = refl
    either_on false = on

pub with_secret-IsSound :
    (c : Config) (b : ℕ) (value : Bytes) → IsSound c → IsSound (record c { secret = b ∷ value })
with_secret-IsSound c b value v = record {
  control = v.control;
  proxy = v.proxy;
  keyed = λ e. cc;
  certified = v.certified;
  signed = v.signed;
}

pub valued-Keeps :
    (answer : Parsed Config) → Keeps IsSound answer → TakenKeeps IsSound (valued answer)
valued-Keeps (accepted c) k = k
valued-Keeps (refused message) k = k
valued-Keeps helped k = k
