-- ===== src/Net/Endpoint.antt =====
-- `parse_host_port` and `endpoint_to_string` of agent/src/common/net.cpp.
pub mod RoundTrip
pub mod Accepts
use webhook_ops.Common.{
  ℕ, zero, suc, ◌+◌, ◌-◌, ◌≤◌, ◌<◌, ◌≡◌, ◌≢◌, refl, Bool, true, false, ◌||◌, Option, none, some, [],
  ◌∷◌, ◌++◌, arith, Bytes, codes, length, take, drop, get_elem?, ltb, leb, ◌==◌, if◌then◌else◌, ℤ,
  pos, negsuc, is_empty,
}
use webhook_ops.Stdlib.{find, rfind, find_if}
use webhook_ops.Stdlib.Decimal.{stoi, to_string}

-- std::pair<std::string, uint16_t>
pub record Endpoint : Type 0 where
  pub host : Bytes
  pub port : ℕ

abbrev pub max_port : ℕ
max_port = 65535

-- `parsed <= 0 || parsed > 65535` is refused.
unfoldable pub port_of_int : ℤ → Option ℕ
port_of_int (negsuc n) = none
port_of_int (pos n) = if n == 0 || ltb max_port n then none else some n

-- The text of a port, by `std::stoi` with its exceptions caught.
unfoldable pub parse_port : Bytes → Option ℕ
unfolding port_of_int
parse_port text = elim (stoi text) [ none ↦ none | some parsed ↦ port_of_int parsed ]

-- The part of `parse_host_port` behind the split into host and port.
unfoldable pub finish : Bytes → Bytes → ℕ → Option Endpoint
unfolding parse_port
finish [] port_text default_port = none
finish (c ∷ host) [] default_port =
    if default_port == 0 then none else some (record { host = c ∷ host; port = default_port })
finish (c ∷ host) (d ∷ port_text) default_port = elim (parse_port (d ∷ port_text)) [
  | none ↦ none
  | some port ↦ some (record { host = c ∷ host; port = port })
]

-- `[host]` or `[host]:port`; the closing bracket is at `end`.
unfoldable pub bracketed : Bytes → ℕ → ℕ → Option Endpoint
unfolding finish
bracketed value default_port end =
    let host = take (end - 1) (drop 1 value) in
    elim (get_elem? value (end + 1)) [
      | none ↦ finish host [] default_port
      | some c ↦ if c == b':' then finish host (drop (end + 2) value) default_port else none
    ]

unfoldable pub parse_host_port : Bytes → ℕ → Option Endpoint
unfolding bracketed finish
parse_host_port [] default_port = none
parse_host_port (c ∷ rest) default_port =
    let value = c ∷ rest in
    if c == b'['
    then elim (find b']' value) [ none ↦ none | some end ↦ bracketed value default_port end ]
    else elim (rfind b':' value) [
      | none ↦ finish value [] default_port
      | some colon ↦ finish (take colon value) (drop (colon + 1) value) default_port
    ]

unfoldable pub endpoint_to_string : Bytes → ℕ → Bytes
endpoint_to_string host port = host ++ b':' ∷ to_string port

runs :
    (parse_host_port (codes "localhost:8000") 0
      ≡ some (record { host = codes "localhost"; port = 8000 }))
    × (parse_host_port (codes "[::1]:80") 0 ≡ some (record { host = codes "::1"; port = 80 }))
    × (parse_host_port (codes "example") 443 ≡ some (record { host = codes "example"; port = 443 }))
    × (parse_host_port (codes "example:") 443
        ≡ some (record { host = codes "example"; port = 443 }))
    × (parse_host_port (codes "example:0") 443 ≡ none)
    × (parse_host_port (codes "example:80x") 443
        ≡ some (record { host = codes "example"; port = 80 }))
    × (parse_host_port (codes "example") 0 ≡ none)
    × (parse_host_port (codes "[a]b") 1 ≡ none)
unfolding parse_host_port find_if rfind stoi
runs = (refl, refl, refl, refl, refl, refl, refl, refl)
