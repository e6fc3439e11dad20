-- ===== src/Tunnel/Callback.antt =====
-- The HTTP calls that agent/src/tunnel/main.cpp makes to the control plane: `parse_http_url`,
-- `post_agent_status` and `post_json`. The network is a parameter.
use webhook_ops.Common.{
  ℕ, ◌+◌, ◌≡◌, refl, Bool, true, false, ◌||◌, Option, none, some, List, [], ◌∷◌, ◌++◌, Bytes, codes,
  length, drop, leb, ◌==◌, is_empty, if◌then◌else◌, ℤ, pos, negate,
}
use webhook_ops.Stdlib.{find_if, is_space, next_word, skip_spaces, rfind}
use webhook_ops.Stdlib.Decimal.{to_string, magnitude, int_max, stoi}
use webhook_ops.Text.{starts_with_ci}
use webhook_ops.Text.Lines.{crlf}
use webhook_ops.Json.{make_status_payload}
use webhook_ops.Net.Endpoint.{Endpoint, parse_host_port, endpoint_to_string}
use webhook_ops.Tunnel.Request.{url_host_port, url_path}
use webhook_ops.Tunnel.Settings.{Config}

pub record ParsedHttpUrl : Type 0 where
  pub endpoint : Endpoint
  pub path : Bytes

unfoldable pub parse_http_url : Bytes → Option ParsedHttpUrl
parse_http_url url =
    if starts_with_ci url (codes "http://")
    then elim (parse_host_port (url_host_port (drop 7 url)) 80) [
      | none ↦ none
      | some e ↦ some (record { endpoint = e; path = url_path (drop 7 url) })
    ]
    else none

unfoldable pub post_request : ParsedHttpUrl → Bytes → Bytes → Bytes
post_request url token body =
    codes "POST "
    ++ (url.path
        ++ (codes " HTTP/1.1\r\n"
            ++ (codes "Host: "
                ++ (endpoint_to_string url.endpoint.host url.endpoint.port
                    ++ (crlf
                        ++ (codes "Content-Type: application/json\r\n"
                            ++ (codes "Content-Length: "
                                ++ (to_string (length body)
                                    ++ (crlf
                                        ++ (codes "X-WebhookOps-Tunnel-Token: "
                                            ++ (token
                                                ++ (crlf
                                                    ++ (codes "Connection: close\r\n\r\n"
                                                        ++ body)))))))))))))

-- How one exchange with an endpoint ends: the last is the first piece of the answer, 1024 bytes at most.
pub data Exchange : Type 0 where
  connect_failed send_failed response_missing : Exchange
  response : Bytes → Exchange

-- What happens to a request text that is sent to an endpoint on a new connection.
abbrev pub Network : Type 0
Network = Endpoint → Bytes → Exchange

-- An `int` that is out of range is read as the nearest one.
abbrev clamp_int : Bool → ℕ → ℤ
clamp_int negative n =
    if negative
    then (if leb n (int_max + 1) then negate n else negate (int_max + 1))
    else (if leb n int_max then pos n else pos int_max)

abbrev signed_int : Bool → Bytes → ℤ
signed_int negative s = elim (magnitude s) [ none ↦ pos 0 | some n ↦ clamp_int negative n ]

-- `stream >> number`: 0 where there is none.
unfoldable pub stream_int : Bytes → ℤ
stream_int s = elim (skip_spaces s) [
  | [] ↦ pos 0
  | c ∷ t ↦
      if c == b'-'
      then signed_int true t
      else if c == b'+'
      then signed_int false t
      else signed_int false (c ∷ t)
]

-- The word behind the HTTP version.
unfoldable pub status_of : Bytes → ℤ
unfolding stream_int
status_of answer = stream_int (next_word answer).1

-- The status code, or 0.
unfoldable pub post_json : Network → Bytes → Bytes → Bytes → ℤ
post_json network url_text token body = elim (parse_http_url url_text) [
  | none ↦ pos 0
  | some url ↦ elim (network url.endpoint (post_request url token body)) [
    | connect_failed ↦ pos 0
    | send_failed ↦ pos 0
    | response_missing ↦ pos 0
    | response answer ↦ status_of answer
  ]
]

-- The answer is not waited for, so a missing one is no failure.
abbrev was_sent : Exchange → Bool
was_sent connect_failed = false
was_sent send_failed = false
was_sent response_missing = true
was_sent (response answer) = true

-- True too where there is nowhere to report to.
unfoldable pub post_agent_status : Network → Config → Bytes → Bytes → List (Bytes × Bytes) → Bool
post_agent_status network config agent_id event metadata =
    if is_empty config.status_url || is_empty config.status_token
    then true
    else elim (parse_http_url config.status_url) [
      | none ↦ false
      | some url ↦ was_sent (
          network url.endpoint
            (post_request url config.status_token (make_status_payload agent_id event metadata)))
    ]

runs :
    (parse_http_url (codes "HTTP://web:8000/a/b")
      ≡ some
          (record { endpoint = record { host = codes "web"; port = 8000 }; path = codes "/a/b" }))
    × (status_of (codes "HTTP/1.1 204 No Content\r\n") ≡ pos 204)
    × (status_of (codes "garbage") ≡ pos 0)
unfolding parse_http_url starts_with_ci parse_host_port find_if rfind stoi status_of next_word
    magnitude is_space skip_spaces
runs = (refl, refl, refl)
