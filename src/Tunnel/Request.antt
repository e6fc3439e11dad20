-- ===== src/Tunnel/Request.antt =====
-- `parse_proxy_request` of agent/src/tunnel/main.cpp: the request line and headers of a proxy client.
pub mod Rewrite
pub mod Target
pub mod FirstLine
pub mod Connect
pub mod Data
use webhook_ops.Common.{
  ℕ, suc, ◌+◌, ◌-◌, ◌≡◌, refl, Bool, true, false, ◌||◌, Option, none, some, List, [], ◌∷◌, ◌++◌,
  Bytes, codes, length, take, drop, ltb, leb, eqb, is_empty, if◌then◌else◌,
}
use webhook_ops.Stdlib.{find, find_if, rfind, is_space, next_word}
use webhook_ops.Stdlib.Decimal.{stoi, to_string}
use webhook_ops.Text.{trim_copy, lower_copy, starts_with_ci, split_lines}
use webhook_ops.Text.Lines.{crlf}
use webhook_ops.Net.Endpoint.{Endpoint, parse_host_port, endpoint_to_string}

pub record ParsedProxyRequest : Type 0 where
  pub ok : Bool
  pub is_connect : Bool
  pub host : Bytes
  pub port : ℕ
  pub initial_data : Bytes
  pub error : Bytes

abbrev pub reject : Bytes → ParsedProxyRequest
reject error = record {
  ok = false;
  is_connect = false;
  host = [];
  port = 0;
  initial_data = [];
  error = error;
}

-- The value of the first header line that begins with `host:`, or nothing.
unfoldable pub find_host_header : List Bytes → Bytes
find_host_header [] = []
find_host_header (line ∷ lines) =
    if starts_with_ci line (codes "host:") then trim_copy (drop 5 line) else find_host_header lines

-- Where a request that is not CONNECT goes: the path to ask for, whether the target was an absolute
-- URL, and the endpoint; or an error.
pub data Route : Type 0 where
  route : Bytes → Bool → Endpoint → Route
  no_route : Bytes → Route

-- The host and port of a URL behind its scheme, and its path.
abbrev pub url_host_port : Bytes → Bytes
url_host_port rest = elim (find b'/' rest) [ none ↦ rest | some slash ↦ take slash rest ]

abbrev pub url_path : Bytes → Bytes
url_path rest = elim (find b'/' rest) [ none ↦ codes "/" | some slash ↦ drop slash rest ]

unfoldable pub find_route : List Bytes → Bytes → Route
find_route lines target =
    if starts_with_ci target (codes "http://")
    then elim (parse_host_port (url_host_port (drop 7 target)) 80) [
      | none ↦ no_route (codes "invalid http URL")
      | some endpoint ↦ route (url_path (drop 7 target)) true endpoint
    ]
    else if starts_with_ci target (codes "https://")
    then no_route (codes "HTTPS proxying must use CONNECT")
    else elim (parse_host_port (find_host_header lines) 80) [
      | none ↦ no_route (codes "missing or invalid Host header")
      | some endpoint ↦ route target false endpoint
    ]

abbrev pub host_line : Endpoint → Bytes
host_line e = codes "Host: " ++ endpoint_to_string e.host e.port ++ crlf

-- The loop over the header lines: what is written, and `saw_host`.
unfoldable pub rewrite_headers : Bool → Endpoint → List Bytes → Bool → Bytes × Bool
rewrite_headers absolute e [] saw_host = ([], saw_host)
rewrite_headers absolute e (line ∷ lines) saw_host =
    let skipped = rewrite_headers absolute e lines saw_host in
    let seen = rewrite_headers absolute e lines true in
    if is_empty line || starts_with_ci line (codes "proxy-connection:")
    then skipped
    else if starts_with_ci line (codes "host:")
    then ((if absolute then host_line e else line ++ crlf) ++ seen.0, seen.1)
    else ((line ++ crlf) ++ skipped.0, skipped.1)

-- The header that goes to the target.
unfoldable pub rewrite_request : Bytes → Bytes → Bytes → Bool → Endpoint → List Bytes → Bytes
unfolding rewrite_headers
rewrite_request method path version absolute e headers =
    let written = rewrite_headers absolute e headers false in
    (method ++ b' ' ∷ path ++ b' ' ∷ version ++ crlf)
    ++ written.0
    ++ (if written.1 then [] else host_line e)
    ++ crlf

unfoldable pub connect_request : Bytes → ParsedProxyRequest
connect_request target = elim (parse_host_port target 443) [
  | none ↦ reject (codes "invalid CONNECT target")
  | some endpoint ↦ record {
    ok = true;
    is_connect = true;
    host = endpoint.host;
    port = endpoint.port;
    initial_data = [];
    error = [];
  }
]

unfoldable pub forward_request :
    Bytes → Bytes → Bytes → List Bytes → List Bytes → Bytes → ParsedProxyRequest
forward_request method target version lines headers leftover = elim (find_route lines target) [
  | no_route error ↦ reject error
  | route path absolute endpoint ↦ record {
    ok = true;
    is_connect = false;
    host = endpoint.host;
    port = endpoint.port;
    initial_data = rewrite_request method path version absolute endpoint headers ++ leftover;
    error = [];
  }
]

-- The words of the request line, then the two kinds of request.
unfoldable pub parse_lines : List Bytes → Bytes → ParsedProxyRequest
parse_lines [] leftover = reject (codes "empty request")
parse_lines (first_line ∷ headers) leftover =
    let first = next_word first_line in
    let second = next_word first.1 in
    let third = next_word second.1 in
    let method = first.0 in
    let target = second.0 in
    let version = third.0 in
    if is_empty method || is_empty target || is_empty version
    then reject (codes "invalid request line")
    else if eqb (lower_copy method) (codes "connect")
    then connect_request target
    else forward_request method target version (first_line ∷ headers) headers leftover

unfoldable pub parse_proxy_request : Bytes → Bytes → ParsedProxyRequest
unfolding parse_lines
parse_proxy_request raw_header leftover =
    let size = length raw_header in
    parse_lines (split_lines (take (if leb 4 size then size - 4 else size) raw_header)) leftover

connect_runs : parse_proxy_request (codes "CONNECT example.com:8443 HTTP/1.1\r\n\r\n") [] ≡ record {
  ok = true;
  is_connect = true;
  host = codes "example.com";
  port = 8443;
  initial_data = [];
  error = [];
}
unfolding parse_proxy_request connect_request forward_request find_route rewrite_request split_lines
    next_word lower_copy parse_host_port is_space rfind stoi
connect_runs = refl

forward_runs :
    (parse_proxy_request
      (codes
        "POST http://app:8000/hook HTTP/1.1\r\nHost: x\r\nProxy-Connection: close\r\nA: b\r\n\r\n")
      (codes "body")).initial_data
    ≡ codes "POST /hook HTTP/1.1\r\nHost: app:8000\r\nA: b\r\n\r\nbody"
unfolding parse_proxy_request connect_request forward_request find_route rewrite_request split_lines
    next_word lower_copy parse_host_port is_space rfind stoi starts_with_ci find_if
    endpoint_to_string to_string
forward_runs = refl
