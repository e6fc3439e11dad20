-- ===== src/Tunnel/Settings.antt =====
-- The configuration of the tunnel, `Config` of agent/src/tunnel/main.cpp, with its TLS options of
-- agent/src/common/channel.hpp.
use webhook_ops.Common.{ℕ, Bool, false, [], Bytes, codes}

pub record TlsOptions : Type 0 where
  pub enabled : Bool
  pub cert_path : Bytes
  pub key_path : Bytes
  pub ca_path : Bytes
  pub insecure_skip_verify : Bool

abbrev pub default_tls : TlsOptions
default_tls = record {
  enabled = false;
  cert_path = [];
  key_path = [];
  ca_path = [];
  insecure_skip_verify = false;
}

pub record Config : Type 0 where
  pub control_host : Bytes
  pub control_port : ℕ
  pub proxy_host : Bytes
  pub proxy_port : ℕ
  pub secret : Bytes
  pub state_path : Bytes
  pub initial_selected_agent : Bytes
  pub auth_url : Bytes
  pub auth_token : Bytes
  pub status_url : Bytes
  pub status_token : Bytes
  pub tls : TlsOptions

abbrev pub default_config : Config
default_config = record {
  control_host = codes "0.0.0.0";
  control_port = 9700;
  proxy_host = codes "127.0.0.1";
  proxy_port = 9080;
  secret = codes "dev-secret";
  state_path = codes "webhookops-tunnel.state";
  initial_selected_agent = [];
  auth_url = [];
  auth_token = [];
  status_url = [];
  status_token = [];
  tls = default_tls;
}
