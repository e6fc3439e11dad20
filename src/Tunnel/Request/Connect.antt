-- ===== src/Tunnel/Request/Connect.antt =====
-- A CONNECT request (`parse_proxy_request` of agent/src/tunnel/main.cpp) from its text to the endpoint that
-- the agent reads in the OPEN frame.
use webhook_ops.Common.{
  ℕ, ◌≤◌, ◌<◌, ◌≡◌, ◌≢◌, refl, sym, ap, subst, ◌∙◌, true, false, some, List, [], ◌∷◌, ◌++◌, arith,
  Bytes, codes, All, All-append, Lacks, take, ◌⊎◌, inl, inr,
}
use webhook_ops.Stdlib.{is_space}
use webhook_ops.Stdlib.Words.{IsWord, word-line}
use webhook_ops.Stdlib.Decimal.{to_string, to_string-IsDigit, IsDigit}
use webhook_ops.Text.Lines.{crlf, terminated}
use webhook_ops.Net.Endpoint.{Endpoint, parse_host_port, endpoint_to_string, max_port}
use webhook_ops.Net.Endpoint.RoundTrip.{
  parse_host_port-endpoint_to_string, parse_host_port_brackets, parse_host_port_bare,
}
use webhook_ops.Open.{make_open_payload, parse_open_payload, parse_open_payload-make_open_payload}
use webhook_ops.Tunnel.Request.{connect_request, parse_proxy_request}
use webhook_ops.Tunnel.Request.FirstLine.{
  IsConnect, request_line, connect-IsWord, parse_connect, first_line, read_lines,
}

-- How a CONNECT target is written: a host and a port with a colon between them, the host in brackets
-- or not, or a host alone for the port of HTTPS.
abbrev pub Asks : Bytes → Bytes → ℕ → Type 0
Asks target host port =
    ((target ≡ host ++ b':' ∷ to_string port) × (take 1 host ≢ codes "["))
    ⊎ ((target ≡ b'[' ∷ (host ++ b']' ∷ b':' ∷ to_string port)) × Lacks b']' host)
    ⊎ ((target ≡ host) × (port ≡ 443) × (take 1 host ≢ codes "[") × Lacks b':' host)

digits-IsWord : (s : Bytes) → All IsDigit s → IsWord s
digits-IsWord [] h = tt
digits-IsWord (c ∷ s) (h, hs) = (unfold is_space in ground arith, digits-IsWord s hs)

colon : is_space b':' ≡ false
unfolding is_space
colon = refl

asked-IsWord :
    (target host : Bytes) (port : ℕ) → IsWord host → Asks target host port → IsWord target
asked-IsWord target host port w (inl (e, _)) =
    subst IsWord (sym e)
      (All-append _ host _ w (colon, digits-IsWord (to_string port) (to_string-IsDigit port)))
asked-IsWord target host port w (inr (inl (e, _))) =
    let opening : is_space b'[' ≡ false = unfold is_space in refl in
    let closing : is_space b']' ≡ false = unfold is_space in refl in
    subst IsWord (sym e) (
      opening,
      All-append _ host _ w
          (closing, (colon, digits-IsWord (to_string port) (to_string-IsDigit port))),
    )
asked-IsWord target host port w (inr (inr (e, _, _, _))) = subst IsWord (sym e) w

asked-ne :
    (target : Bytes) (c : ℕ) (host : Bytes) (port : ℕ) → Asks target (c ∷ host) port → target ≢ []
asked-ne target c host port (inl (e, _)) h = cc
asked-ne target c host port (inr (inl (e, _))) h = cc
asked-ne target c host port (inr (inr (e, _, _, _))) h = cc

parse_asked :
    (target : Bytes) (c : ℕ) (host : Bytes) (port : ℕ)
    → 0 < port
    → port ≤ max_port
    → Asks target (c ∷ host) port
    → parse_host_port target 443 ≡ some (record { host = c ∷ host; port = port })
unfolding endpoint_to_string
parse_asked target c host port p q (inl (e, plain)) =
    ap (λ t. parse_host_port t 443) e
    ∙ parse_host_port-endpoint_to_string c host port 443 (λ h. plain (ap (λ x. x ∷ []) h)) p q
parse_asked target c host port p q (inr (inl (e, close))) =
    ap (λ t. parse_host_port t 443) e ∙ parse_host_port_brackets c host port 443 close p q
parse_asked target c host port p q (inr (inr (e, https, plain, free))) =
    ap (λ t. parse_host_port t 443) e
    ∙ parse_host_port_bare c host 443 (λ h. plain (ap (λ x. x ∷ []) h)) free (omega arith)
    ∙ ap (λ n. some (record { host = c ∷ host; port = n })) (sym https)

-- What becomes of a CONNECT request.
connects :
    (target : Bytes) (e : Endpoint)
    → parse_host_port target 443 ≡ some e
    → connect_request target ≡ record {
      ok = true;
      is_connect = true;
      host = e.host;
      port = e.port;
      initial_data = [];
      error = [];
    }
unfolding connect_request
connects target e h = rw (h, connect_request) refl

-- The text of a CONNECT request.
abbrev pub connect_text : Bytes → Bytes → Bytes → List Bytes → Bytes
connect_text method target version headers =
    terminated (request_line method target version ∷ headers) ++ crlf

line_lem :
    (method target version : Bytes)
    → method ≢ []
    → IsWord method
    → IsWord target
    → IsWord version
    → (request_line method target version ≢ []) × Lacks b'\r' (request_line method target version)
line_lem [] target version h m t v = absurd (h refl)
line_lem (c ∷ method) target version h m t v =
    let return : is_space b'\r' ≡ true = unfold is_space in refl in
    (
      (λ e. cc),
      All-append _ (c ∷ method) _ (word-line b'\r' (c ∷ method) return m) (
        (λ e. absurd (omega (arith, e))),
        All-append _ target _ (word-line b'\r' target return t)
            ((λ e. absurd (omega (arith, e))), word-line b'\r' version return v),
      ),
    )

-- A request line of the method CONNECT, in letters of either case, a target and a version, with
-- one blank between them, is accepted, whatever header lines follow and whatever came behind the
-- header, if the target names a host that is not empty and has no space in it, and a port from 1
-- to 65535, as `host:port` with a host that does not begin with a bracket, as `[host]:port` with
-- a host that has no closing bracket, or, for the port 443, as the host alone, without a bracket
-- at its begin and without a colon; the request is a CONNECT request, and the agent reads from
-- its OPEN payload that host and that port.
pub parse_open_payload-connect :
    (method target version host : Bytes) (port : ℕ) (headers : List Bytes) (leftover : Bytes)
    → IsConnect method
    → Asks target host port
    → host ≢ []
    → IsWord host
    → 0 < port
    → port ≤ max_port
    → version ≢ []
    → IsWord version
    → let p = parse_proxy_request (connect_text method target version headers) leftover in
      (p.ok ≡ true)
      × (p.is_connect ≡ true)
      × (parse_open_payload (make_open_payload p.host p.port)
          ≡ some (record { host = host; port = port }))
parse_open_payload-connect method target version [] port headers leftover k asks h w p q g v =
    absurd (h refl)
parse_open_payload-connect method target version (c ∷ host) port headers leftover k asks h w p q g
      v =
    let (named, word) = connect-IsWord method k in
    let asked = asked-IsWord target (c ∷ host) port w asks in
    let (some_line, one_line) = line_lem method target version named word asked v in
    let (rest, split) =
      first_line (request_line method target version) headers some_line one_line in
    let result =
      read_lines (connect_text method target version headers) leftover split
      ∙ parse_connect method target version rest leftover k (asked-ne target c host port asks) asked
          g v
      ∙ connects target (record { host = c ∷ host; port = port })
          (parse_asked target c host port p q asks) in
    let line : is_space b'\n' ≡ true = unfold is_space in refl in
    (
      ap (λ r. r.ok) result,
      ap (λ r. r.is_connect) result,
      ap (λ r. parse_open_payload (make_open_payload r.host r.port)) result
          ∙ parse_open_payload-make_open_payload c host port (word-line b'\n' (c ∷ host) line w) p
              q,
    )
