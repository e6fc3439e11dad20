-- ===== src/Net/Endpoint/RoundTrip.antt =====
-- Endpoints of agent/src/common/net.cpp survive being written and read.
use webhook_ops.Common.{
  ℕ, suc, ◌+◌, ◌-◌, ◌≤◌, ◌<◌, ◌≡◌, ◌≢◌, refl, sym, ap, ◌∙◌, some, [], ◌∷◌, ◌++◌, arith, Bytes,
  Lacks, All, length, take, drop, get_elem?, take-append, pos, append-nil,
}
use webhook_ops.Stdlib.{rfind, rfind-append, rfind-none, find-append}
use webhook_ops.Stdlib.Decimal.{
  stoi, to_string, to_string-cons, to_string-IsDigit, IsDigit, stoi-to_string, to_string-injective,
  scan-nil,
}
use webhook_ops.Net.Endpoint.{
  parse_port, finish, bracketed, parse_host_port, endpoint_to_string, max_port,
}

IsDigit-Lacks : (b : ℕ) (s : Bytes) → b'9' < b → All IsDigit s → Lacks b s
IsDigit-Lacks b [] h _ = tt
IsDigit-Lacks b (c ∷ s) h (d, ds) = (omega arith, IsDigit-Lacks b s h ds)

pub parse_port-to_string : (p : ℕ) → 0 < p → p ≤ max_port → parse_port (to_string p) ≡ some p
unfolding parse_port
parse_port-to_string p h k =
    let read : stoi (to_string p) ≡ some (pos p) =
      rw (← append-nil (to_string p)) (stoi-to_string p [] (omega arith) (scan-nil p)) in
    rw (read, parse_port) (ground arith)

finish-some :
    (c : ℕ) (host text : Bytes) (d : ℕ) {p : ℕ}
    → text ≢ []
    → parse_port text ≡ some p
    → finish (c ∷ host) text d ≡ some (record { host = c ∷ host; port = p })
unfolding finish
finish-some c host [] d h e = absurd (h refl)
finish-some c host (t ∷ text) d h e = rw (e, finish)

to_string-ne-nil : (p : ℕ) → to_string p ≢ []
to_string-ne-nil p e = let (c, s, print, _) = to_string-cons p in cc

finish-to_string :
    (c : ℕ) (host : Bytes) (p d : ℕ)
    → 0 < p
    → p ≤ max_port
    → finish (c ∷ host) (to_string p) d ≡ some (record { host = c ∷ host; port = p })
finish-to_string c host p d h k =
    finish-some c host (to_string p) d (to_string-ne-nil p) (parse_port-to_string p h k)

drop-past : (s rest : Bytes) (b : ℕ) → drop (length s + 1) (s ++ b ∷ rest) ≡ rest
drop-past [] rest b = refl
drop-past (c ∷ s) rest b =
    let e : suc (length s) + 1 ≡ suc (length s + 1) = omega arith in rw e (drop-past s rest b)

drop-past_two : (s rest : Bytes) (b c : ℕ) → drop (length s + 2) (s ++ b ∷ c ∷ rest) ≡ rest
drop-past_two [] rest b c = refl
drop-past_two (d ∷ s) rest b c =
    let e : suc (length s) + 2 ≡ suc (length s + 2) = omega arith in rw e (drop-past_two s rest b c)

get_elem?-past : (s rest : Bytes) (b c : ℕ) → get_elem? (s ++ b ∷ c ∷ rest) (length s + 1) ≡ some c
get_elem?-past [] rest b c = refl
get_elem?-past (d ∷ s) rest b c =
    let e : suc (length s) + 1 ≡ suc (length s + 1) = omega arith in
    rw e (get_elem?-past s rest b c)

rfind-endpoint : (h : Bytes) (p : ℕ) → rfind b':' (h ++ b':' ∷ to_string p) ≡ some (length h)
rfind-endpoint h p =
    rfind-append b':' h (to_string p) (IsDigit-Lacks b':' _ (omega arith) (to_string-IsDigit p))

-- An endpoint that `endpoint_to_string` wrote is read back, for every host that is not empty and does
-- not begin with a bracket, colons in it included, and every port from 1 to 65535.
pub parse_host_port-endpoint_to_string :
    (c : ℕ) (host : Bytes) (p d : ℕ)
    → c ≢ b'['
    → 0 < p
    → p ≤ max_port
    → parse_host_port (endpoint_to_string (c ∷ host) p) d
      ≡ some (record { host = c ∷ host; port = p })
unfolding parse_host_port endpoint_to_string
parse_host_port-endpoint_to_string c host p d plain h k = ground (
  arith,
  rfind-endpoint (c ∷ host) p,
  take-append (c ∷ host) (b':' ∷ to_string p),
  drop-past (c ∷ host) (to_string p) b':',
  finish-to_string c host p d h k,
)

-- A host in brackets is read back without them, colons in it included.
pub parse_host_port_brackets :
    (c : ℕ) (host : Bytes) (p d : ℕ)
    → Lacks b']' (c ∷ host)
    → 0 < p
    → p ≤ max_port
    → parse_host_port (b'[' ∷ (c ∷ host ++ b']' ∷ endpoint_to_string [] p)) d
      ≡ some (record { host = c ∷ host; port = p })
unfolding parse_host_port bracketed endpoint_to_string
parse_host_port_brackets c host p d close h k =
    let inner : suc (suc (length host)) - 1 ≡ suc (length host) = omega arith in
    ground (
      arith,
      inner,
      find-append b']' (b'[' ∷ c ∷ host) (b':' ∷ to_string p) (ground arith, close),
      get_elem?-past (b'[' ∷ c ∷ host) (to_string p) b']' b':',
      drop-past_two (b'[' ∷ c ∷ host) (to_string p) b']' b':',
      take-append (c ∷ host) (b']' ∷ b':' ∷ to_string p),
      finish-to_string c host p d h k,
    )

-- A host with no colon in it gets the default port.
pub parse_host_port_bare :
    (c : ℕ) (host : Bytes) (d : ℕ)
    → c ≢ b'['
    → Lacks b':' (c ∷ host)
    → 0 < d
    → parse_host_port (c ∷ host) d ≡ some (record { host = c ∷ host; port = d })
unfolding parse_host_port finish
parse_host_port_bare c host d plain colon h = ground (arith, rfind-none b':' (c ∷ host) colon)

-- Two endpoints with one text are equal: an allowlist of texts names single endpoints.
pub endpoint_to_string-injective :
    (h k : Bytes) (p q : ℕ) → endpoint_to_string h p ≡ endpoint_to_string k q → (h ≡ k) × (p ≡ q)
unfolding endpoint_to_string
endpoint_to_string-injective h k p q e =
    let found : some (length h) ≡ some (length k) =
      sym (rfind-endpoint h p) ∙ ap (rfind b':') e ∙ rfind-endpoint k q in
    let n : length h ≡ length k = cc in
    (
      sym (take-append h _)
          ∙ ap (take (length h)) e
          ∙ ap (λ m. take m (endpoint_to_string k q)) n
          ∙ take-append k _,
      to_string-injective p q (
          sym (drop-past h _ b':')
          ∙ ap (drop (length h + 1)) e
          ∙ ap (λ m. drop (m + 1) (endpoint_to_string k q)) n
          ∙ drop-past k _ b':'),
    )
