-- ===== src/Tunnel/Auth/Decides.antt =====
-- What `authenticate_agent` of agent/src/tunnel/main.cpp accepts.
use webhook_ops.Common.{
  ℕ, ◌≡◌, ◌≤◌, ◌<◌, ◌↔◌, refl, true, false, some, [], ◌∷◌, arith, Bytes, codes, ℤ, pos, negsuc,
  Option-cases, inl, inr,
}
use webhook_ops.Crypto.{OpenSsl, hmac_sha256_hex}
use webhook_ops.Crypto.Hex.{constant_time_equals_iff}
use webhook_ops.Json.{make_auth_payload}
use webhook_ops.Tunnel.Settings.{Config}
use webhook_ops.Tunnel.Callback.{
  Network, ParsedHttpUrl, Exchange, connect_failed, send_failed, response_missing, response,
  post_json, post_request, parse_http_url, status_of,
}
use webhook_ops.Tunnel.Auth.{is_success, uses_callback, signed_text, authenticate_agent}

is_success-range : (z : ℤ) → is_success z ≡ true → (n : ℕ) × (z ≡ pos n) × (200 ≤ n) × (n < 300)
is_success-range (pos n) h = (n, refl, ground arith, ground arith)
is_success-range (negsuc n) h = cc

Exchange-answer :
    (x : Exchange)
    → is_success (elim x [
      | connect_failed ↦ pos 0
      | send_failed ↦ pos 0
      | response_missing ↦ pos 0
      | response answer ↦ status_of answer
    ])
      ≡ true
    → (answer : Bytes) × (x ≡ response answer) × (is_success (status_of answer) ≡ true)
Exchange-answer connect_failed h = absurd (ground arith)
Exchange-answer send_failed h = absurd (ground arith)
Exchange-answer response_missing h = absurd (ground arith)
Exchange-answer (response answer) h = (answer, refl, h)

post_json-success :
    (network : Network) (url_text token body : Bytes)
    → is_success (post_json network url_text token body) ≡ true
    → (url : ParsedHttpUrl) × (answer : Bytes) × (parse_http_url url_text ≡ some url)
      × (network url.endpoint (post_request url token body) ≡ response answer)
      × (is_success (status_of answer) ≡ true)
unfolding post_json
post_json-success network url_text token body h = elim (Option-cases (parse_http_url url_text)) [
  | inl bad ↦ absurd (ground arith)
  | inr (url, good) ↦
      let (answer, e, success) =
        Exchange-answer (network url.endpoint (post_request url token body))
          (rw (good, post_json) at h) in
      (url, answer, good, e, success)
]

module _ (ssl : OpenSsl) (network : Network) (config : Config)
    (agent_id nonce proof peer : Bytes) where
  -- Without a callback an agent is accepted exactly when its proof is the digest of its id and the
  -- nonce under the tunnel's secret.
  pub authenticate_agent-secret :
      uses_callback config ≡ false
      → (authenticate_agent ssl network config agent_id nonce proof peer ≡ true)
        ↔ (proof ≡ hmac_sha256_hex ssl config.secret (signed_text agent_id nonce))
  unfolding authenticate_agent
  authenticate_agent-secret h = rw h (
      constant_time_equals_iff ssl proof
        (hmac_sha256_hex ssl config.secret (signed_text agent_id nonce)))

  -- With a callback an agent is accepted only if the request with its id, nonce and proof reached the
  -- endpoint of the URL and was answered with a status from 200 to 299: every failure rejects.
  pub authenticate_agent-callback :
      uses_callback config ≡ true
      → authenticate_agent ssl network config agent_id nonce proof peer ≡ true
      → (url : ParsedHttpUrl) × (answer : Bytes) × (status : ℕ) × (parse_http_url config.auth_url
          ≡ some url)
        × (network url.endpoint (
              post_request url config.auth_token
                (make_auth_payload agent_id nonce proof ((codes "peer", peer) ∷ [])))
            ≡ response answer)
        × (status_of answer ≡ pos status)
        × (200 ≤ status)
        × (status < 300)
  unfolding authenticate_agent
  authenticate_agent-callback h accepted =
      let (url, answer, good, e, success) =
        post_json-success network config.auth_url config.auth_token _ (rw h at accepted) in
      let (status, is_status, low, high) = is_success-range (status_of answer) success in
      (url, answer, status, good, e, is_status, low, high)
