-- ===== src/Tunnel/Request/Data.antt =====
-- The bytes that an accepted request has for its target from the start (`initial_data` of
-- `parse_proxy_request`, agent/src/tunnel/main.cpp).
use webhook_ops.Common.{
  ◌≡◌, refl, Bool, true, false, ◌||◌, List, [], ◌∷◌, ◌++◌, Bytes, codes, is_empty, if◌then◌else◌,
  Option-cases, inl, inr, eqb, ◌⊎◌,
}
use webhook_ops.Stdlib.{next_word}
use webhook_ops.Text.{lower_copy}
use webhook_ops.Net.Endpoint.{parse_host_port}
use webhook_ops.Tunnel.Request.{
  ParsedProxyRequest, reject, find_route, connect_request, forward_request, parse_lines,
  parse_proxy_request, rewrite_request,
}
use webhook_ops.Tunnel.Request.Target.{Route-cases}

-- A CONNECT request has nothing for its target; another one has a header, and behind it the bytes that
-- came behind the client's header.
abbrev pub HasData : Bytes → ParsedProxyRequest → Type 0
HasData leftover p =
    ((p.is_connect ≡ true) × (p.initial_data ≡ []))
    ⊎ ((p.is_connect ≡ false) × ((header : Bytes) × (p.initial_data ≡ header ++ leftover)))

module _ (leftover : Bytes) where
  abbrev Data : ParsedProxyRequest → Type 0
  Data p = p.ok ≡ true → HasData leftover p

  reject-HasData : (error : Bytes) → Data (reject error)
  reject-HasData error h = absurd (cc)

  connect-HasData : (target : Bytes) → Data (connect_request target)
  unfolding connect_request
  connect-HasData target = elim (Option-cases (parse_host_port target 443)) [
    | inl bad ↦ rw (bad, connect_request) (reject-HasData (codes "invalid CONNECT target"))
    | inr (e, good) ↦ rw (good, connect_request) (λ h. inl (refl, refl))
  ]

  forward-HasData :
      (method target version : Bytes) (lines headers : List Bytes)
      → Data (forward_request method target version lines headers leftover)
  unfolding forward_request
  forward-HasData method target version lines headers =
      elim (Route-cases (find_route lines target)) [
        | inl (error, r) ↦ rw (r, forward_request) (reject-HasData error)
        | inr (path, absolute, e, r) ↦
            rw (r, forward_request)
              (λ h. inr (refl, (rewrite_request method path version absolute e headers, refl)))
      ]

  if-HasData : (b : Bool) (p q : ParsedProxyRequest) → Data p → Data q → Data (if b then p else q)
  if-HasData true p q x y = x
  if-HasData false p q x y = y

  lines-HasData : (lines : List Bytes) → Data (parse_lines lines leftover)
  unfolding parse_lines
  lines-HasData [] = reject-HasData (codes "empty request")
  lines-HasData (first_line ∷ headers) =
      let first = next_word first_line in
      let second = next_word first.1 in
      let third = next_word second.1 in
      if-HasData (is_empty first.0 || is_empty second.0 || is_empty third.0) _ _
        (reject-HasData (codes "invalid request line"))
        (if-HasData (eqb (lower_copy first.0) (codes "connect")) _ _ (connect-HasData second.0)
          (forward-HasData first.0 second.0 third.0 (first_line ∷ headers) headers))

  pub parse_proxy_request-HasData :
      (raw_header : Bytes) → Data (parse_proxy_request raw_header leftover)
  unfolding parse_proxy_request
  parse_proxy_request-HasData raw_header = lines-HasData _
