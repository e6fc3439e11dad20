-- ===== src/Json.antt =====
-- The JSON bodies that agent/src/tunnel/main.cpp writes: `json_escape`, `make_status_payload` and
-- `make_auth_payload`.
pub mod Strings
use webhook_ops.Common.{
  ℕ, ◌+◌, ◌-◌, ◌/◌, ◌%◌, ◌≡◌, refl, Bool, true, false, List, [], ◌∷◌, ◌++◌, Bytes, codes, ltb, ◌==◌,
  if◌then◌else◌,
}
use webhook_ops.Stdlib.Hex.{hex_digit}

-- What the loop of `json_escape` writes for one byte.
unfoldable pub escape_byte : ℕ → Bytes
unfolding hex_digit
escape_byte c =
    if c == b'"'
    then codes "\\\""
    else if c == b'\\'
    then codes "\\\\"
    else if c == b'\n'
    then codes "\\n"
    else if c == b'\r'
    then codes "\\r"
    else if c == b'\t'
    then codes "\\t"
    else if ltb c 32
    then codes "\\u00" ++ hex_digit (c / 16 % 16) ∷ hex_digit (c % 16) ∷ []
    else c ∷ []

unfoldable pub json_escape : Bytes → Bytes
unfolding escape_byte
json_escape [] = []
json_escape (c ∷ s) = escape_byte c ++ json_escape s

-- A text in quotes.
abbrev pub quoted : Bytes → Bytes
quoted s = b'"' ∷ (json_escape s ++ b'"' ∷ [])

-- The loop over the metadata, with a comma before each entry but the first.
unfoldable pub metadata_entries : Bool → List (Bytes × Bytes) → Bytes
metadata_entries first [] = []
metadata_entries first ((key, value) ∷ metadata) =
    (if first then [] else b',' ∷ [])
    ++ (quoted key ++ b':' ∷ (quoted value ++ metadata_entries false metadata))

unfoldable pub make_status_payload : Bytes → Bytes → List (Bytes × Bytes) → Bytes
unfolding metadata_entries json_escape
make_status_payload agent_id event metadata =
    codes "{\"agent_id\":"
    ++ (quoted agent_id
        ++ (codes ",\"event\":"
            ++ (quoted event
                ++ (codes ",\"metadata\":{" ++ (metadata_entries true metadata ++ codes "}}")))))

unfoldable pub make_auth_payload : Bytes → Bytes → Bytes → List (Bytes × Bytes) → Bytes
unfolding metadata_entries json_escape
make_auth_payload agent_id nonce proof metadata =
    codes "{\"agent_id\":"
    ++ (quoted agent_id
        ++ (codes ",\"nonce\":"
            ++ (quoted nonce
                ++ (codes ",\"proof\":"
                    ++ (quoted proof
                        ++ (codes ",\"metadata\":{"
                            ++ (metadata_entries true metadata ++ codes "}}")))))))

runs :
    make_status_payload
      (codes "a\"b")
      (codes "online")
      ((codes "peer", codes "1\t2") ∷ (codes "x", 1 ∷ []) ∷ [])
    ≡ codes
        "{\"agent_id\":\"a\\\"b\",\"event\":\"online\",\"metadata\":{\"peer\":\"1\\t2\",\"x\":\"\\u0001\"}}"
unfolding make_status_payload
runs = refl
