-- ===== src/Open.antt =====
-- The payload of an OPEN frame: `make_open_payload` of agent/src/tunnel/main.cpp writes it and
-- `parse_open_payload` of agent/src/agent/main.cpp reads it.
use webhook_ops.Common.{
  ℕ, suc, ◌+◌, ◌≤◌, ◌<◌, ◌≡◌, refl, sym, ap, ◌∙◌, Option, none, some, [], ◌∷◌, ◌++◌, append_assoc,
  append-nil, arith, Bytes, Lacks, length, take, drop, take-append,
}
use webhook_ops.Stdlib.{find, find-append}
use webhook_ops.Stdlib.Decimal.{to_string, stoi-to_string, scan_digits, scan-nil}
use webhook_ops.Net.Endpoint.{Endpoint, parse_port, max_port}

unfoldable pub make_open_payload : Bytes → ℕ → Bytes
make_open_payload host port = host ++ b'\n' ∷ to_string port

-- An empty host is refused like a port out of range.
unfoldable pub check_open : Bytes → Option ℕ → Option Endpoint
check_open [] port = none
check_open (c ∷ host) none = none
check_open (c ∷ host) (some port) = some (record { host = c ∷ host; port = port })

unfoldable pub parse_open_payload : Bytes → Option Endpoint
unfolding check_open parse_port
parse_open_payload payload = elim (find b'\n' payload) [
  | none ↦ none
  | some sep ↦ check_open (take sep payload) (parse_port (drop (sep + 1) payload))
]

drop-past : (s rest : Bytes) (b : ℕ) → drop (length s + 1) (s ++ b ∷ rest) ≡ rest
drop-past [] rest b = refl
drop-past (c ∷ s) rest b =
    let e : suc (length s) + 1 ≡ suc (length s + 1) = omega arith in rw e (drop-past s rest b)

-- The first line is the host, and the port is the number that the rest begins with.
parse_open_payload-line :
    (c : ℕ) (host rest : Bytes) (p : ℕ)
    → Lacks b'\n' (c ∷ host)
    → 0 < p
    → p ≤ max_port
    → scan_digits p rest ≡ p
    → parse_open_payload (c ∷ host ++ b'\n' ∷ (to_string p ++ rest))
      ≡ some (record { host = c ∷ host; port = p })
unfolding parse_open_payload
parse_open_payload-line c host rest p line h k e = ground (
  arith,
  find-append b'\n' (c ∷ host) (to_string p ++ rest) line,
  take-append (c ∷ host) (b'\n' ∷ (to_string p ++ rest)),
  drop-past (c ∷ host) (to_string p ++ rest) b'\n',
  stoi-to_string p rest (omega arith) e,
)

-- The agent reads the host and the port that the tunnel wrote, if the host is one line.
pub parse_open_payload-make_open_payload :
    (c : ℕ) (host : Bytes) (p : ℕ)
    → Lacks b'\n' (c ∷ host)
    → 0 < p
    → p ≤ max_port
    → parse_open_payload (make_open_payload (c ∷ host) p)
      ≡ some (record { host = c ∷ host; port = p })
unfolding make_open_payload
parse_open_payload-make_open_payload c host p line h k =
    ap (λ t. parse_open_payload (c ∷ host ++ b'\n' ∷ t)) (sym (append-nil (to_string p)))
    ∙ parse_open_payload-line c host [] p line h k (scan-nil p)

scan-newline : (n : ℕ) (rest : Bytes) → scan_digits n (b'\n' ∷ rest) ≡ n
unfolding scan_digits
scan-newline n rest = refl

-- A host of two lines whose second is a port number `q` makes the agent read the first line as the
-- host and `q` as the port, whatever port the tunnel meant.
pub parse_open_payload-newline :
    (c : ℕ) (host : Bytes) (q p : ℕ)
    → Lacks b'\n' (c ∷ host)
    → 0 < q
    → q ≤ max_port
    → parse_open_payload (make_open_payload (c ∷ host ++ b'\n' ∷ to_string q) p)
      ≡ some (record { host = c ∷ host; port = q })
unfolding make_open_payload
parse_open_payload-newline c host q p line h k =
    ap parse_open_payload (append_assoc (c ∷ host) (b'\n' ∷ to_string q) (b'\n' ∷ to_string p))
    ∙ parse_open_payload-line c host (b'\n' ∷ to_string p) q line h k (scan-newline q _)
