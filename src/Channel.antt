-- ===== src/Channel.antt =====
-- The making of a connection between agent and tunnel: `Channel::client`, `Channel::server` and
-- `Channel::close` of agent/src/common/channel.cpp. OpenSSL is a parameter: what its calls answer.
pub mod Verified
pub mod Transfer
use webhook_ops.Common.{
  ℕ, ◌≡◌, refl, Bool, true, false, ◌&&◌, not, Option, none, some, List, [], ◌∷◌, ◌++◌, Bytes, codes,
  is_empty, if◌then◌else◌,
}
use webhook_ops.Tunnel.Settings.{TlsOptions}

-- The calls of OpenSSL, with the arguments that matter.
pub data Call : Type 0 where
  new_context new_ssl set_fd check_private_key default_verify_paths tls_connect tls_accept
        verify_result :
      Call
  use_certificate use_private_key load_verify_locations set_host_name set_host : Bytes → Call
  -- `SSL_VERIFY_PEER` or `SSL_VERIFY_NONE`.
  set_verify : Bool → Call

-- A call that the channel is given up for if it fails, or one whose answer is not looked at.
pub data Step : Type 0 where
  must just : Call → Step

pub record Channel : Type 0 where
  -- `sock_`, `ctx_` and `ssl_` are set.
  pub sock : Bool
  pub ctx : Bool
  pub ssl : Bool
  -- The calls so far.
  pub calls : List Call

abbrev pub new_channel : Channel
new_channel = record { sock = true; ctx = false; ssl = false; calls = [] }

-- What a call that succeeded leaves in the channel.
abbrev pub allocate : Call → Channel → Channel
allocate new_context ch = record ch { ctx = true }
allocate new_ssl ch = record ch { ssl = true }
allocate _ ch = ch

abbrev pub note : Call → Channel → Channel
note c ch = record ch { calls = ch.calls ++ c ∷ [] }

-- The calls in their order, up to the first that must not fail and does.
unfoldable pub perform : (Call → Bool) → List Step → Channel → Bool × Channel
perform answers [] ch = (true, ch)
perform answers (just c ∷ steps) ch = perform answers steps (note c ch)
perform answers (must c ∷ steps) ch =
    let rest = perform answers steps (allocate c (note c ch)) in
    if answers c then rest else (false, note c ch)

unfoldable pub close : Channel → Channel
close ch = record ch { ssl = false; ctx = false; sock = false }

pub data Made : Type 0 where
  plain secured refused : Made

-- A channel that is given up is destroyed, which closes it.
unfoldable pub finish : Bool × Channel → Made × Channel
unfolding close
finish (true, ch) = (secured, ch)
finish (false, ch) = (refused, close ch)

abbrev pub trust_steps : TlsOptions → List Step
trust_steps tls =
    if tls.insecure_skip_verify
    then just (set_verify false) ∷ []
    else just (set_verify true)
      ∷ must
          (if is_empty tls.ca_path then default_verify_paths else load_verify_locations tls.ca_path)
      ∷ []

abbrev pub host_steps : Bytes → TlsOptions → List Step
host_steps server_name tls =
    if tls.insecure_skip_verify then [] else just (set_host server_name) ∷ []

abbrev pub result_steps : TlsOptions → List Step
result_steps tls = if tls.insecure_skip_verify then [] else must verify_result ∷ []

abbrev pub client_steps : Bytes → TlsOptions → List Step
client_steps server_name tls =
    must new_context
    ∷ (trust_steps tls
        ++ must new_ssl
          ∷ just set_fd
          ∷ just (set_host_name server_name)
          ∷ (host_steps server_name tls ++ must tls_connect ∷ result_steps tls))

unfoldable pub client : (Call → Bool) → Bytes → TlsOptions → Made × Channel
unfolding perform finish
client answers server_name tls =
    if tls.enabled
    then finish (perform answers (client_steps server_name tls) new_channel)
    else (plain, new_channel)

abbrev pub server_steps : TlsOptions → List Step
server_steps tls =
    must new_context
    ∷ must (use_certificate tls.cert_path)
    ∷ must (use_private_key tls.key_path)
    ∷ must check_private_key
    ∷ must new_ssl
    ∷ just set_fd
    ∷ must tls_accept
    ∷ []

unfoldable pub server : (Call → Bool) → TlsOptions → Made × Channel
unfolding perform finish
server answers tls =
    if tls.enabled
    then finish (perform answers (server_steps tls) new_channel)
    else (plain, new_channel)
