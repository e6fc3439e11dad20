-- ===== src/Tests/Tunnel.antt =====
-- Requests, authentication and the handshake (agent/src/tunnel/main.cpp) at concrete inputs.
use webhook_ops.Common.{
  ℕ, ◌≤◌, ◌<◌, ◌≡◌, ◌≢◌, refl, sym, ap, ◌∙◌, true, false, some, List, [], ◌∷◌, ◌++◌, arith, Bytes,
  All, codes, eqb, eqb→eq, eqb_refl, if◌then◌else◌, ◌↔◌, Bool-cases, inl, inr, pos,
}
use webhook_ops.Stdlib.{skip_spaces, is_space, rfind, find_if, next_word}
use webhook_ops.Stdlib.Decimal.{stoi, magnitude}
use webhook_ops.Text.{lower_copy, trim_end, trim_copy, starts_with_ci}
use webhook_ops.Text.Lines.{crlf, terminated}
use webhook_ops.Net.Endpoint.{Endpoint, parse_host_port}
use webhook_ops.Open.{make_open_payload, parse_open_payload}
use webhook_ops.Crypto.{OpenSsl, hmac_sha256_hex}
use webhook_ops.Json.{make_auth_payload}
use webhook_ops.Wire.{Frame, hello, hello_ok, auth_challenge, auth_response}
use webhook_ops.Tunnel.Settings.{Config, default_config}
use webhook_ops.Tunnel.Callback.{
  Network, response, connect_failed, ParsedHttpUrl, parse_http_url, post_request, status_of,
  post_json,
}
use webhook_ops.Tunnel.Auth.{authenticate_agent, signed_text}
use webhook_ops.Tunnel.Auth.Decides.{authenticate_agent-secret, authenticate_agent-callback}
use webhook_ops.Tunnel.Request.{parse_proxy_request, rewrite_request}
use webhook_ops.Tunnel.Request.Connect.{parse_open_payload-connect}
use webhook_ops.Stdlib.Decimal.{to_string}
use webhook_ops.Text.Lines.{terminated}
use webhook_ops.Tunnel.Request.Rewrite.{
  forwarded, host_header, rewrite_request-terminated, rewrite_request-absolute, is_hop, is_host,
  has_host,
}
use webhook_ops.Handshake.{
  connected, admitted, connect_once, accept_agent, control_frame, proof_frame,
}
use webhook_ops.Handshake.Agreement.{handshake_succeeds, accept_agent-admitted}

abbrev compare : Bytes → Bytes → ℕ
compare a b = if eqb a b then 0 else 1

compare_iff : (a b : Bytes) → (compare a b ≡ 0) ↔ (a ≡ b)
compare_iff a b = elim (Bool-cases (eqb a b)) [
  | inl same ↦ ((λ h. eqb→eq a b same), (λ e. ground arith))
  | inr other ↦
      let same = λ (e : a ≡ b). ap (eqb a) (sym e) ∙ eqb_refl a in
      ((λ h. absurd (ground arith)), (λ e. ground (arith, same e)))
]

abbrev ssl : OpenSsl
ssl = record {
  hmac_sha256 = λ key message. key ++ message;
  memcmp = compare;
  memcmp_iff = λ a b n. compare_iff a b;
}

apart : (s t : Bytes) → eqb s t ≡ false → s ≢ t
apart s t h e = let same = sym (ap (eqb s) e) ∙ eqb_refl s in cc

abbrev asked_text : Bytes
asked_text = codes "connect db:5432 HTTP/1.1\r\nHost: other\r\n\r\n"

parse_open_payload-connect_example :
    let p = parse_proxy_request asked_text (codes "hi") in
    (p.ok ≡ true)
    × (p.is_connect ≡ true)
    × (parse_open_payload (make_open_payload p.host p.port)
        ≡ some (record { host = codes "db"; port = 5432 }))
unfolding terminated lower_copy is_space to_string
parse_open_payload-connect_example =
    parse_open_payload-connect (codes "connect") (codes "db:5432") (codes "HTTP/1.1") (codes "db")
      5432 (codes "Host: other" ∷ []) (codes "hi") refl
      (inl (refl, apart (codes "d") (codes "[") refl)) (λ e. cc) (refl, (refl, tt)) (omega arith)
      (omega arith) (λ e. cc) (refl, (refl, (refl, (refl, (refl, (refl, (refl, (refl, tt))))))))

abbrev app : Endpoint
app = record { host = codes "app"; port = 80 }

abbrev header : List Bytes
header = codes "Host: x" ∷ codes "Proxy-Connection: close" ∷ codes "A: b" ∷ []

rewrite_request-terminated_example :
    rewrite_request (codes "GET") (codes "/") (codes "HTTP/1.1") true app header
    ≡ terminated (codes "GET / HTTP/1.1" ∷ forwarded true app header) ++ crlf
rewrite_request-terminated_example =
    rewrite_request-terminated (codes "GET") (codes "/") (codes "HTTP/1.1") true app header

rewrite_request-absolute_example :
    (lines : List Bytes) × (rewrite_request
        (codes "GET")
        (codes "/")
        (codes "HTTP/1.1")
        true
        app
        header
      ≡ terminated (codes "GET / HTTP/1.1" ∷ lines) ++ crlf)
    × (All (λ line. is_hop line ≡ false) lines)
    × (has_host lines ≡ true)
    × (All (λ line. is_host line ≡ true → line ≡ host_header app) lines)
rewrite_request-absolute_example =
    rewrite_request-absolute (codes "GET") (codes "/") (codes "HTTP/1.1") app header

authenticate_agent-secret_example :
    (authenticate_agent ssl
        (λ e text. connect_failed)
        default_config
        (codes "edge")
        (codes "n")
        []
        (codes "p")
      ≡ true)
    ↔ ([] ≡ hmac_sha256_hex ssl (codes "dev-secret") (signed_text (codes "edge") (codes "n")))
authenticate_agent-secret_example =
    authenticate_agent-secret ssl (λ e text. connect_failed) default_config (codes "edge")
      (codes "n") [] (codes "p") refl

abbrev answering : Network
answering = λ e text. response (codes "HTTP/1.1 200 OK")

abbrev with_callback : Config
with_callback = record default_config { auth_url = codes "http://web/a"; auth_token = codes "t" }

authenticate_agent-callback_example :
    (url : ParsedHttpUrl) × (answer : Bytes) × (status : ℕ) × (parse_http_url (codes "http://web/a")
      ≡ some url)
    × (answering url.endpoint (
          post_request url (codes "t") (
            make_auth_payload
              (codes "edge")
              (codes "n")
              (codes "x")
              ((codes "peer", codes "p") ∷ [])))
        ≡ response answer)
    × (status_of answer ≡ pos status)
    × (200 ≤ status)
    × (status < 300)
unfolding authenticate_agent post_json parse_http_url starts_with_ci parse_host_port find_if rfind
    stoi status_of next_word magnitude is_space skip_spaces
authenticate_agent-callback_example =
    authenticate_agent-callback ssl answering with_callback (codes "edge") (codes "n") (codes "x")
      (codes "p") refl refl

handshake_succeeds_example :
    let challenge = control_frame auth_challenge (codes "n") in
    let proof = proof_frame ssl (codes "dev-secret") (codes "edge") challenge in
    (connect_once ssl
        (codes "dev-secret")
        (codes "edge")
        true
        true
        true
        (some challenge)
        true
        (some (control_frame hello_ok []))
      ≡ (connected, control_frame hello (codes "edge") ∷ proof ∷ []))
    × (accept_agent ssl answering default_config
          (codes "p")
          true
          (some (control_frame hello (codes "edge")))
          (codes "n")
          true
          (some proof)
        ≡ admitted (codes "edge"))
unfolding trim_copy skip_spaces trim_end is_space
handshake_succeeds_example =
    handshake_succeeds ssl answering default_config (codes "p") (codes "edge") (codes "n") refl refl
      (λ e. cc) (λ e. cc)

accept_agent-admitted_example :
    (h f : Frame) × (some (control_frame hello (codes "edge")) ≡ some h)
    × (h.frame_type ≡ hello)
    × (trim_copy h.payload ≡ codes "edge")
    × (codes "edge" ≢ [])
    × (codes "n" ≢ [])
    × (true ≡ true)
    × (some (
          proof_frame ssl
            (codes "dev-secret")
            (codes "edge")
            (control_frame auth_challenge (codes "n")))
        ≡ some f)
    × (f.frame_type ≡ auth_response)
    × (authenticate_agent ssl answering default_config
          (codes "edge")
          (codes "n")
          f.payload
          (codes "p")
        ≡ true)
accept_agent-admitted_example =
    accept_agent-admitted ssl answering default_config (codes "p") true true
      (some (control_frame hello (codes "edge")))
      (some (
        proof_frame ssl (codes "dev-secret") (codes "edge")
          (control_frame auth_challenge (codes "n"))))
      (codes "n") (codes "edge") handshake_succeeds_example.1
