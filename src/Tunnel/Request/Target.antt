-- ===== src/Tunnel/Request/Target.antt =====
-- The endpoint of an accepted proxy request (agent/src/tunnel/main.cpp).
use webhook_ops.Common.{
  ℕ, ◌≤◌, ◌≡◌, refl, ap, ◌∙◌, Bool, true, false, ◌||◌, some, List, [], ◌∷◌, arith, Bytes, codes,
  All, drop, is_empty, if◌then◌else◌, Bool-cases, Option-cases, inl, inr, eqb, ◌⊎◌,
}
use webhook_ops.Stdlib.{next_word}
use webhook_ops.Text.{lower_copy, starts_with_ci}
use webhook_ops.Net.Endpoint.{Endpoint, parse_host_port, max_port}
use webhook_ops.Net.Endpoint.Accepts.{IsUsable, parse_host_port-IsUsable}
use webhook_ops.Tunnel.Request.{
  ParsedProxyRequest, reject, Route, route, no_route, find_route, find_host_header, connect_request,
  forward_request, parse_lines, parse_proxy_request, url_host_port,
}

abbrev pub endpoint_of : ParsedProxyRequest → Endpoint
endpoint_of p = record { host = p.host; port = p.port }

-- What a part of the parser promises of an accepted request.
abbrev Good : ParsedProxyRequest → Type 0
Good p = p.ok ≡ true → IsUsable (endpoint_of p)

reject-Good : (error : Bytes) → Good (reject error)
reject-Good error h = cc

All-any : (s : Bytes) → All (λ _. Unit {0}) s
All-any [] = tt
All-any (c ∷ s) = (tt, All-any s)

usable :
    (s : Bytes) (d : ℕ) {e : Endpoint} → d ≤ max_port → parse_host_port s d ≡ some e → IsUsable e
usable s d k h = (parse_host_port-IsUsable (λ _. Unit {0}) s d k (All-any s) h).0

connect-Good : (target : Bytes) → Good (connect_request target)
unfolding connect_request
connect-Good target = elim (Option-cases (parse_host_port target 443)) [
  | inl bad ↦ rw (bad, connect_request) (λ h. cc)
  | inr (e, good) ↦ rw (good, connect_request) (λ _. usable target 443 (omega arith) good)
]

pub Route-cases :
    (r : Route)
    → ((error : Bytes) × (r ≡ no_route error))
      ⊎ ((path : Bytes) × (absolute : Bool) × (e : Endpoint) × (r ≡ route path absolute e))
Route-cases (no_route error) = inl (error, refl)
Route-cases (route path absolute e) = inr (path, absolute, e, refl)

route-IsUsable :
    (lines : List Bytes) (target path : Bytes) (absolute : Bool) (e : Endpoint)
    → find_route lines target ≡ route path absolute e
    → IsUsable e
unfolding find_route
route-IsUsable lines target path absolute e h =
    elim (Bool-cases (starts_with_ci target (codes "http://"))) [
      | inl http ↦ elim (Option-cases (parse_host_port (url_host_port (drop 7 target)) 80)) [
        | inl bad ↦ absurd (ground arith)
        | inr (e', good) ↦
            usable (url_host_port (drop 7 target)) 80 (omega arith) (good ∙ ap some (ground arith))
      ]
      | inr other ↦ elim (Option-cases (parse_host_port (find_host_header lines) 80)) [
        | inl bad ↦ absurd (ground arith)
        | inr (e', good) ↦
            usable (find_host_header lines) 80 (omega arith) (good ∙ ap some (ground arith))
      ]
    ]

forward-Good :
    (method target version : Bytes) (lines headers : List Bytes) (leftover : Bytes)
    → Good (forward_request method target version lines headers leftover)
unfolding forward_request
forward-Good method target version lines headers leftover =
    elim (Route-cases (find_route lines target)) [
      | inl (error, r) ↦ rw (r, forward_request) (λ h. cc)
      | inr (path, absolute, e, r) ↦
          rw (r, forward_request) (λ _. route-IsUsable lines target path absolute e r)
    ]

if-Good : (b : Bool) (p q : ParsedProxyRequest) → Good p → Good q → Good (if b then p else q)
if-Good true p q x y = x
if-Good false p q x y = y

lines-Good : (lines : List Bytes) (leftover : Bytes) → Good (parse_lines lines leftover)
unfolding parse_lines
lines-Good [] leftover = reject-Good (codes "empty request")
lines-Good (first_line ∷ headers) leftover =
    let first = next_word first_line in
    let second = next_word first.1 in
    let third = next_word second.1 in
    if-Good (is_empty first.0 || is_empty second.0 || is_empty third.0) _ _
      (reject-Good (codes "invalid request line"))
      (if-Good (eqb (lower_copy first.0) (codes "connect")) _ _ (connect-Good second.0)
        (forward-Good first.0 second.0 third.0 (first_line ∷ headers) headers leftover))

-- Every accepted request names a host and a port from 1 to 65535.
pub parse_proxy_request-IsUsable :
    (raw_header leftover : Bytes)
    → (parse_proxy_request raw_header leftover).ok ≡ true
    → IsUsable (endpoint_of (parse_proxy_request raw_header leftover))
unfolding parse_proxy_request
parse_proxy_request-IsUsable raw_header leftover h = lines-Good _ leftover h
