-- ===== src/Agent/Options/Sound.antt =====
-- What holds of the settings of the agent while they are read (agent/src/agent/main.cpp).
use webhook_ops.Common.{
  ◌≤◌, ◌≡◌, ◌≢◌, refl, Bool, true, false, ◌||◌, not, Option, none, some, List, [], ◌∷◌, arith,
  Bytes, All, is_empty, Bool-cases, inl, inr,
}
use webhook_ops.Net.Endpoint.{Endpoint, parse_host_port, endpoint_to_string, max_port}
use webhook_ops.Net.Endpoint.Accepts.{IsUsable, endpoint-IsUsable}
use webhook_ops.Tunnel.Settings.{TlsOptions}
use webhook_ops.Agent.Session.{contains}
use webhook_ops.CommandLine.{Parsed, accepted, refused, helped}
use webhook_ops.CommandLine.Accepted.{Keeps, TakenKeeps}
use webhook_ops.Agent.Options.{
  Config, default_config, insert, with_controller, with_allowed, set_endpoint, valued,
}

-- A text of the allowlist names a usable endpoint.
pub record IsEntry (text : Bytes) : Type 0 where
  pub endpoint : Endpoint
  pub usable : IsUsable endpoint
  pub written : text ≡ endpoint_to_string endpoint.host endpoint.port

-- What holds of the settings at any time.
pub record IsSound (c : Config) : Type 0 where
  pub fits : c.controller_port ≤ max_port
  pub identified : c.id ≢ []
  pub keyed : c.secret ≢ []
  pub entries : All IsEntry c.allowlist
  -- A setting of TLS turns TLS on.
  pub verifies : not c.tls.insecure_skip_verify || c.tls.enabled ≡ true
  pub trusts : is_empty c.tls.ca_path || c.tls.enabled ≡ true

pub default_config-IsSound : IsSound default_config
default_config-IsSound = record {
  fits = omega arith;
  identified = λ e. cc;
  keyed = λ e. cc;
  entries = tt;
  verifies = refl;
  trusts = refl;
}

pub nonempty : (s : Bytes) → is_empty s ≡ false → s ≢ []
nonempty [] e = cc
nonempty (c ∷ s) e = λ h. cc

pub set_endpoint-Keeps :
    (text message : Bytes) (set : Endpoint → Config → Config) (c : Config)
    → ((e : Endpoint) → IsUsable e → IsSound (set e c))
    → Keeps IsSound (set_endpoint text message set c)
set_endpoint-Keeps text message set c keeps =
    set_found (parse_host_port text 0) (λ e h. keeps e (endpoint-IsUsable text h))
  where
    set_found :
        (found : Option Endpoint)
        → ((e : Endpoint) → found ≡ some e → IsSound (set e c))
        → Keeps IsSound (elim found [ none ↦ refused message | some e ↦ accepted (set e c) ])
    set_found none k = tt
    set_found (some e) k = k e refl

pub valued-Keeps :
    (answer : Parsed Config) → Keeps IsSound answer → TakenKeeps IsSound (valued answer)
valued-Keeps (accepted c) k = k
valued-Keeps (refused message) k = k
valued-Keeps helped k = k

pub with_controller-IsSound :
    (c : Config) → IsSound c → (e : Endpoint) → IsUsable e → IsSound (with_controller e c)
with_controller-IsSound c v e u = record {
  fits = u.fits;
  identified = v.identified;
  keyed = v.keyed;
  entries = v.entries;
  verifies = v.verifies;
  trusts = v.trusts;
}

insert-All :
    (text : Bytes) (members : List Bytes)
    → IsEntry text
    → All IsEntry members
    → All IsEntry (insert text members)
unfolding insert
insert-All text members h k = elim (Bool-cases (contains text members)) [
  | inl there ↦ rw there k
  | inr new ↦ rw new (h, k)
]

pub with_allowed-IsSound :
    (c : Config) → IsSound c → (e : Endpoint) → IsUsable e → IsSound (with_allowed e c)
with_allowed-IsSound c v e u =
    let entry : IsEntry (endpoint_to_string e.host e.port) = record {
      endpoint = e;
      usable = u;
      written = refl;
    } in
    record {
      fits = v.fits;
      identified = v.identified;
      keyed = v.keyed;
      entries = insert-All (endpoint_to_string e.host e.port) c.allowlist entry v.entries;
      verifies = v.verifies;
      trusts = v.trusts;
    }

-- Any change of the TLS options that turns TLS on.
pub tls_on-IsSound :
    (c : Config) (tls : TlsOptions)
    → IsSound c
    → tls.enabled ≡ true
    → IsSound (record c { tls = tls })
tls_on-IsSound c tls v on = record {
  fits = v.fits;
  identified = v.identified;
  keyed = v.keyed;
  entries = v.entries;
  verifies = either_on (not tls.insecure_skip_verify);
  trusts = either_on (is_empty tls.ca_path);
}
  where
    either_on : (b : Bool) → (b || tls.enabled) ≡ true
    either_on true = refl
    either_on false = on

pub with_id-IsSound :
    (c : Config) (value : Bytes)
    → is_empty value ≡ false
    → IsSound c
    → IsSound (record c { id = value })
with_id-IsSound c value e v = record {
  fits = v.fits;
  identified = nonempty value e;
  keyed = v.keyed;
  entries = v.entries;
  verifies = v.verifies;
  trusts = v.trusts;
}

pub with_secret-IsSound :
    (c : Config) (value : Bytes)
    → is_empty value ≡ false
    → IsSound c
    → IsSound (record c { secret = value })
with_secret-IsSound c value e v = record {
  fits = v.fits;
  identified = v.identified;
  keyed = nonempty value e;
  entries = v.entries;
  verifies = v.verifies;
  trusts = v.trusts;
}
