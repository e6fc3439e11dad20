-- ===== src/Tunnel/Request/Rewrite.antt =====
-- The header that `parse_proxy_request` of agent/src/tunnel/main.cpp forwards, as a list of lines.
use webhook_ops.Common.{
  ◌≡◌, refl, sym, ap, ap₂, ◌∙◌, Bool, true, false, ◌||◌, ◌&&◌, List, [], ◌∷◌, ◌++◌, append_assoc,
  append-nil, arith, Bytes, codes, All, All-append, is_empty, if◌then◌else◌, Bool-cases, inl, inr,
}
use webhook_ops.Text.{starts_with_ci}
use webhook_ops.Text.Lines.{crlf, terminated}
use webhook_ops.Net.Endpoint.{Endpoint, endpoint_to_string}
use webhook_ops.Tunnel.Request.{host_line, rewrite_headers, rewrite_request}

abbrev pub is_hop : Bytes → Bool
is_hop line = starts_with_ci line (codes "proxy-connection:")

abbrev pub is_host : Bytes → Bool
is_host line = starts_with_ci line (codes "host:")

abbrev pub host_header : Endpoint → Bytes
host_header e = codes "Host: " ++ endpoint_to_string e.host e.port

-- The header lines that are kept.
pub kept_lines : List Bytes → List Bytes
kept_lines [] = []
kept_lines (line ∷ lines) =
    if is_empty line || is_hop line then kept_lines lines else line ∷ kept_lines lines

-- In a request for an absolute URL a Host line names the URL's endpoint.
pub renamed : Bool → Endpoint → List Bytes → List Bytes
renamed absolute e [] = []
renamed absolute e (line ∷ lines) =
    (if is_host line && absolute then host_header e else line) ∷ renamed absolute e lines

pub has_host : List Bytes → Bool
has_host [] = false
has_host (line ∷ lines) = is_host line || has_host lines

-- All header lines of the forwarded request.
abbrev pub forwarded : Bool → Endpoint → List Bytes → List Bytes
forwarded absolute e headers =
    let kept = kept_lines headers in
    renamed absolute e kept ++ (if has_host kept then [] else host_header e ∷ [])

host_line-append :
    (e : Endpoint) (rest : Bytes) → host_line e ++ rest ≡ host_header e ++ (b'\r' ∷ b'\n' ∷ rest)
host_line-append e rest =
    ap (λ t. codes "Host: " ++ t) (append_assoc (endpoint_to_string e.host e.port) crlf rest)

-- What is written for a Host line, and behind it.
host_written :
    (absolute : Bool) (e : Endpoint) (line rest : Bytes)
    → (if absolute then host_line e else line ++ crlf) ++ rest
      ≡ (if absolute then host_header e else line) ++ (b'\r' ∷ b'\n' ∷ rest)
host_written true e line rest = host_line-append e rest
host_written false e line rest = append_assoc line crlf rest

rewrite_headers-terminated :
    (absolute : Bool) (e : Endpoint) (headers : List Bytes) (saw : Bool)
    → ((rewrite_headers absolute e headers saw).0
        ≡ terminated (renamed absolute e (kept_lines headers)))
      × ((rewrite_headers absolute e headers saw).1 ≡ (saw || has_host (kept_lines headers)))
unfolding rewrite_headers terminated renamed kept_lines has_host
rewrite_headers-terminated absolute e [] saw = (refl, ground arith)
rewrite_headers-terminated absolute e (line ∷ lines) saw =
    elim (Bool-cases (is_empty line || is_hop line)) [
      | inl skip ↦ rw skip (rewrite_headers-terminated absolute e lines saw)
      | inr keep ↦ elim (Bool-cases (is_host line)) [
        | inl host ↦
            let (text, seen) = rewrite_headers-terminated absolute e lines true in
            rw (keep, host)
              (
                host_written absolute e line _
                    ∙ ap (λ t. (if absolute then host_header e else line) ++ (b'\r' ∷ b'\n' ∷ t))
                        text,
                ground arith,
              )
        | inr other ↦
            let (text, seen) = rewrite_headers-terminated absolute e lines saw in
            rw (keep, other)
              (append_assoc line crlf _ ∙ ap (λ t. line ++ (b'\r' ∷ b'\n' ∷ t)) text, seen)
      ]
    ]

terminated-append : (xs ys : List Bytes) → terminated (xs ++ ys) ≡ terminated xs ++ terminated ys
unfolding terminated
terminated-append [] ys = refl
terminated-append (x ∷ xs) ys =
    ap (λ t. x ++ (b'\r' ∷ b'\n' ∷ t)) (terminated-append xs ys)
    ∙ sym (append_assoc x (b'\r' ∷ b'\n' ∷ terminated xs) (terminated ys))

host_end :
    (e : Endpoint) (seen : Bool)
    → (if seen then [] else host_line e) ≡ terminated (if seen then [] else host_header e ∷ [])
unfolding terminated
host_end e true = refl
host_end e false = refl

-- The forwarded header is the request line for the path, then the header lines without the empty
-- ones and those that begin with `proxy-connection:`, with the Host lines of an absolute request
-- naming its endpoint and a Host line at the end if there was none, each line ended by CR LF, and
-- an empty line.
pub rewrite_request-terminated :
    (method path version : Bytes) (absolute : Bool) (e : Endpoint) (headers : List Bytes)
    → rewrite_request method path version absolute e headers
      ≡ terminated ((method ++ b' ' ∷ path ++ b' ' ∷ version) ∷ forwarded absolute e headers)
        ++ crlf
rewrite_request-terminated method path version absolute e headers =
    let first = method ++ b' ' ∷ path ++ b' ' ∷ version in
    let kept = kept_lines headers in
    let extra : List Bytes = if has_host kept then [] else host_header e ∷ [] in
    let (text, seen) = rewrite_headers-terminated absolute e headers false in
    let body =
      ap₂ (λ x y. first ++ crlf ++ x ++ y) text
        (ap (λ b. if b then [] else host_line e) seen ∙ host_end e (has_host kept))
      ∙ append_assoc (first ++ crlf) (terminated (renamed absolute e kept)) (terminated extra)
      ∙ append_assoc first crlf _
      ∙ ap (λ t. first ++ (b'\r' ∷ b'\n' ∷ t))
          (sym (terminated-append (renamed absolute e kept) extra)) in
    unfold rewrite_request terminated in ap (λ t. t ++ crlf) body

host_header-is_host : (e : Endpoint) → is_host (host_header e) ≡ true
unfolding starts_with_ci
host_header-is_host e = ground arith

host_header-is_hop : (e : Endpoint) → is_hop (host_header e) ≡ false
unfolding starts_with_ci
host_header-is_hop e = ground arith

module _ (absolute : Bool) (e : Endpoint) where
  renamed-is_hop :
      (headers : List Bytes)
      → All (λ line. is_hop line ≡ false) (renamed absolute e (kept_lines headers))
  unfolding renamed kept_lines
  renamed-is_hop [] = tt
  renamed-is_hop (line ∷ lines) = elim (Bool-cases (is_empty line || is_hop line)) [
    | inl skip ↦ rw skip (renamed-is_hop lines)
    | inr keep ↦ rw keep (ground (arith, host_header-is_hop e), renamed-is_hop lines)
  ]

  has_host-renamed : (lines : List Bytes) → has_host (renamed absolute e lines) ≡ has_host lines
  unfolding renamed has_host
  has_host-renamed [] = refl
  has_host-renamed (line ∷ lines) = ground (arith, host_header-is_host e, has_host-renamed lines)

has_host-append : (xs ys : List Bytes) → has_host (xs ++ ys) ≡ (has_host xs || has_host ys)
unfolding has_host
has_host-append [] ys = refl
has_host-append (x ∷ xs) ys = ground (arith, has_host-append xs ys)

-- No forwarded line begins with `proxy-connection:`, and there is a Host line.
pub forwarded-has_host :
    (absolute : Bool) (e : Endpoint) (headers : List Bytes)
    → (All (λ line. is_hop line ≡ false) (forwarded absolute e headers))
      × (has_host (forwarded absolute e headers) ≡ true)
forwarded-has_host absolute e headers = elim (Bool-cases (has_host (kept_lines headers))) [
  | inl seen ↦ rw seen (
    All-append _ (renamed absolute e (kept_lines headers)) [] (renamed-is_hop absolute e headers)
        tt,
    ap has_host (append-nil _) ∙ has_host-renamed absolute e (kept_lines headers) ∙ seen,
  )
  | inr unseen ↦ rw unseen (
    All-append _ (renamed absolute e (kept_lines headers)) (host_header e ∷ [])
        (renamed-is_hop absolute e headers) (host_header-is_hop e, tt),
    has_host-append _ (host_header e ∷ [])
        ∙ (unfold has_host in
            ground
              (arith, host_header-is_host e, has_host-renamed absolute e (kept_lines headers))),
  )
]

renamed-hosts :
    (e : Endpoint) (lines : List Bytes)
    → All (λ line. is_host line ≡ true → line ≡ host_header e) (renamed true e lines)
unfolding renamed
renamed-hosts e [] = tt
renamed-hosts e (line ∷ lines) = (λ h. ground arith, renamed-hosts e lines)

-- Under an absolute URL every Host line names the endpoint that the request is sent to.
pub forwarded-hosts :
    (e : Endpoint) (headers : List Bytes)
    → All (λ line. is_host line ≡ true → line ≡ host_header e) (forwarded true e headers)
forwarded-hosts e headers =
    All-append _ (renamed true e (kept_lines headers)) _ (renamed-hosts e (kept_lines headers))
      (last (has_host (kept_lines headers)))
  where
    last :
        (seen : Bool)
        → All
            (λ line. is_host line ≡ true → line ≡ host_header e)
            (if seen then [] else host_header e ∷ [])
    last true = tt
    last false = (λ _. refl, tt)

-- The header that is forwarded for an absolute URL is made of the request line for the path, of
-- lines of which none begins with `proxy-connection:`, one at least is a Host line, and every
-- Host line names the endpoint that the request is sent to, each ended by CR LF, and of an empty
-- line.
pub rewrite_request-absolute :
    (method path version : Bytes) (e : Endpoint) (headers : List Bytes)
    → (lines : List Bytes) × (rewrite_request method path version true e headers
        ≡ terminated ((method ++ b' ' ∷ path ++ b' ' ∷ version) ∷ lines) ++ crlf)
      × (All (λ line. is_hop line ≡ false) lines)
      × (has_host lines ≡ true)
      × (All (λ line. is_host line ≡ true → line ≡ host_header e) lines)
rewrite_request-absolute method path version e headers =
    let (hop, host) = forwarded-has_host true e headers in
    (
      forwarded true e headers,
      rewrite_request-terminated method path version true e headers,
      hop,
      host,
      forwarded-hosts e headers,
    )
