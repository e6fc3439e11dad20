-- ===== src/Json/Strings.antt =====
-- A JSON reader gets back what `json_escape` of agent/src/tunnel/main.cpp wrote. The reader follows the
-- JSON grammar of strings, for the escapes that a byte can need.
use webhook_ops.Common.{
  ℕ, zero, suc, ◌+◌, ◌*◌, ◌/◌, ◌%◌, ◌≤◌, ◌<◌, ◌≡◌, refl, ap, ◌∙◌, true, ◌&&◌, Option, none, some,
  List, [], ◌∷◌, ◌++◌, append_assoc, arith, Bytes, codes, ltb, ◌==◌, if◌then◌else◌, ◌>>=◌, length,
  length-append,
}
use webhook_ops.Stdlib.Hex.{hex_value, hex_value-hex_digit}
use webhook_ops.Json.{escape_byte, json_escape, quoted, metadata_entries, make_auth_payload}

-- The byte behind a backslash, of those that stand for one byte.
simple_escape : ℕ → Option ℕ
simple_escape c =
    if c == b'"'
    then some b'"'
    else if c == b'\\'
    then some b'\\'
    else if c == b'n'
    then some b'\n'
    else if c == b'r'
    then some b'\r'
    else if c == b't'
    then some b'\t'
    else none

data Token : Type 0 where
  end_quote : Token
  byte : ℕ → Token

abbrev read_simple : Option ℕ → Bytes → Option (Token × Bytes)
read_simple none s = none
read_simple (some b) s = some (byte b, s)

-- Four hexadecimal digits that stand for a byte.
read_unicode : Bytes → Option (Token × Bytes)
unfolding hex_value
read_unicode (a ∷ b ∷ c ∷ d ∷ s) =
    if a == b'0' && b == b'0' then some (byte (hex_value c * 16 + hex_value d), s) else none
read_unicode _ = none

read_escape : Bytes → Option (Token × Bytes)
unfolding simple_escape read_unicode
read_escape [] = none
read_escape (c ∷ s) = if c == b'u' then read_unicode s else read_simple (simple_escape c) s

-- A control byte may not stand in a string.
read_token : Bytes → Option (Token × Bytes)
unfolding read_escape
read_token [] = none
read_token (c ∷ s) =
    if c == b'"'
    then some (end_quote, s)
    else if c == b'\\'
    then read_escape s
    else if ltb c 32
    then none
    else some (byte c, s)

abbrev cons_text : ℕ → Option (Bytes × Bytes) → Option (Bytes × Bytes)
cons_text c none = none
cons_text c (some (s, rest)) = some (c ∷ s, rest)

read_loop : ℕ → Bytes → Option (Bytes × Bytes)
read_loop zero s = none
read_loop (suc rounds) s = elim (read_token s) [
  | none ↦ none
  | some (end_quote, rest) ↦ some ([], rest)
  | some (byte c, rest) ↦ cons_text c (read_loop rounds rest)
]

-- A string behind its opening quote, and what stands behind its closing one.
pub read_string : Bytes → Option (Bytes × Bytes)
unfolding read_loop
read_string s = read_loop (length s) s

read_token-escape_byte :
    (c : ℕ) (rest : Bytes) → read_token (escape_byte c ++ rest) ≡ some (byte c, rest)
unfolding read_token escape_byte
read_token-escape_byte c rest = ground (
  arith,
  hex_value-hex_digit (c / 16 % 16) (omega arith),
  hex_value-hex_digit (c % 16) (omega arith),
)

length-escape_byte : (c : ℕ) → 0 < length (escape_byte c)
unfolding escape_byte
length-escape_byte c = ground arith

length-json_escape : (s : Bytes) → length s ≤ length (json_escape s)
unfolding json_escape
length-json_escape [] = omega arith
length-json_escape (c ∷ s) = omega (
  arith,
  length-append (escape_byte c) (json_escape s),
  length-escape_byte c,
  length-json_escape s,
)

read_loop-json_escape :
    (rounds : ℕ) (s rest : Bytes)
    → length s < rounds
    → read_loop rounds (json_escape s ++ b'"' ∷ rest) ≡ some (s, rest)
unfolding read_loop json_escape
read_loop-json_escape zero s rest h = absurd (omega arith)
read_loop-json_escape (suc rounds) [] rest h = unfold read_token in refl
read_loop-json_escape (suc rounds) (c ∷ s) rest h =
    ap (read_loop (suc rounds)) (append_assoc (escape_byte c) (json_escape s) (b'"' ∷ rest))
    ∙ rw (read_token-escape_byte c (json_escape s ++ b'"' ∷ rest), read_loop)
        (ap (cons_text c) (read_loop-json_escape rounds s rest (omega arith)))

-- Behind an escaped text stands the closing quote: a reader gets the text back, whatever bytes it
-- holds, and goes on where the writer did.
pub read_string-json_escape :
    (s rest : Bytes) → read_string (json_escape s ++ b'"' ∷ rest) ≡ some (s, rest)
unfolding read_string
read_string-json_escape s rest =
    read_loop-json_escape _ s rest
      (omega (arith, length-append (json_escape s) (b'"' ∷ rest), length-json_escape s))

-- A fixed text that must come next.
expect : Bytes → Bytes → Option Bytes
expect [] s = some s
expect (p ∷ ps) [] = none
expect (p ∷ ps) (c ∷ s) = if p == c then expect ps s else none

expect-append : (p s : Bytes) → expect p (p ++ s) ≡ some s
unfolding expect
expect-append [] s = refl
expect-append (c ∷ p) s = ground (arith, expect-append p s)

-- A member: its fixed beginning, up to the opening quote of its value, then the value.
member : Bytes → Bytes → Option (Bytes × Bytes)
member start s = expect start s >>= read_string

member-append :
    (start s rest : Bytes)
    → member start (start ++ ((json_escape s ++ b'"' ∷ []) ++ rest)) ≡ some (s, rest)
unfolding member
member-append start s rest =
    ap (λ o. o >>= read_string) (expect-append start _)
    ∙ ap read_string (append_assoc (json_escape s) (b'"' ∷ []) rest)
    ∙ read_string-json_escape s rest

-- The three members that decide an authentication, in the order in which they are written.
pub read_auth : Bytes → Option (Bytes × Bytes × Bytes)
read_auth payload = do
  agent_id ← member (codes "{\"agent_id\":\"") payload
  nonce ← member (codes ",\"nonce\":\"") agent_id.1
  proof ← member (codes ",\"proof\":\"") nonce.1
  some (agent_id.0, nonce.0, proof.0)

read_auth_steps :
    (payload agent_id nonce proof r₁ r₂ r₃ : Bytes)
    → member (codes "{\"agent_id\":\"") payload ≡ some (agent_id, r₁)
    → member (codes ",\"nonce\":\"") r₁ ≡ some (nonce, r₂)
    → member (codes ",\"proof\":\"") r₂ ≡ some (proof, r₃)
    → read_auth payload ≡ some (agent_id, nonce, proof)
unfolding read_auth
read_auth_steps payload agent_id nonce proof r₁ r₂ r₃ p q r = rw (p, ◌>>=◌, q, r)

-- The body that asks for an authentication is read as the agent's id, its nonce and its proof: no
-- byte of one of them can pass for another member.
pub read_auth-make_auth_payload :
    (agent_id nonce proof : Bytes) (metadata : List (Bytes × Bytes))
    → read_auth (make_auth_payload agent_id nonce proof metadata) ≡ some (agent_id, nonce, proof)
unfolding make_auth_payload
read_auth-make_auth_payload agent_id nonce proof metadata =
    let r₃ = codes ",\"metadata\":{" ++ (metadata_entries true metadata ++ codes "}}") in
    let r₂ = codes ",\"proof\":" ++ (quoted proof ++ r₃) in
    let r₁ = codes ",\"nonce\":" ++ (quoted nonce ++ r₂) in
    read_auth_steps _ agent_id nonce proof r₁ r₂ r₃
      (member-append (codes "{\"agent_id\":\"") agent_id r₁)
      (member-append (codes ",\"nonce\":\"") nonce r₂)
      (member-append (codes ",\"proof\":\"") proof r₃)
