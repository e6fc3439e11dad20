-- ===== src/Tunnel/Auth.antt =====
-- How the tunnel decides whether an agent is who it says: `authenticate_agent` of
-- agent/src/tunnel/main.cpp.
pub mod Decides
use webhook_ops.Common.{
  ℕ, ◌≡◌, Bool, true, false, not, ◌&&◌, List, [], ◌∷◌, ◌++◌, Bytes, codes, leb, ltb, is_empty,
  if◌then◌else◌, ℤ, pos, negsuc,
}
use webhook_ops.Crypto.{OpenSsl, hmac_sha256_hex, constant_time_equals}
use webhook_ops.Json.{make_auth_payload}
use webhook_ops.Tunnel.Settings.{Config}
use webhook_ops.Tunnel.Callback.{Network, post_json}

-- Not `status_code < 200 || status_code >= 300`.
abbrev pub is_success : ℤ → Bool
is_success (pos n) = leb 200 n && ltb n 300
is_success (negsuc n) = false

-- The callback is used if both its settings are there.
abbrev pub uses_callback : Config → Bool
uses_callback config = not (is_empty config.auth_url) && not (is_empty config.auth_token)

-- What an agent signs.
abbrev pub signed_text : Bytes → Bytes → Bytes
signed_text agent_id nonce = agent_id ++ b'\n' ∷ nonce

unfoldable pub authenticate_agent :
    OpenSsl → Network → Config → Bytes → Bytes → Bytes → Bytes → Bool
authenticate_agent ssl network config agent_id nonce proof peer =
    if uses_callback config
    then is_success (
        post_json network config.auth_url config.auth_token
          (make_auth_payload agent_id nonce proof ((codes "peer", peer) ∷ [])))
    else constant_time_equals ssl proof
        (hmac_sha256_hex ssl config.secret (signed_text agent_id nonce))
