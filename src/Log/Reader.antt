-- ===== src/Log/Reader.antt =====
-- A reader of the log lines of agent/src/common/log.cpp: key=value fields behind a time stamp.
use webhook_ops.Common.{
  ℕ, zero, suc, Bool, true, false, ◌&&◌, Option, none, some, List, [], ◌∷◌, Bytes, length, ◌==◌,
  is_empty, if◌then◌else◌,
}
use webhook_ops.Stdlib.{span_word}

abbrev pub cons_byte : ℕ → Option (Bytes × Bytes) → Option (Bytes × Bytes)
cons_byte c none = none
cons_byte c (some (s, rest)) = some (c ∷ s, rest)

-- The rest of a quoted text: a backslash stands before a byte that is meant as it is.
unfoldable pub read_quoted : Bool → Bytes → Option (Bytes × Bytes)
read_quoted meant [] = none
read_quoted true (c ∷ s) = cons_byte c (read_quoted false s)
read_quoted false (c ∷ s) =
    let escapes = c == b'\\' in
    let rest = read_quoted escapes s in
    if c == b'"' then some ([], s) else if escapes then rest else cons_byte c rest

-- A value: quoted, or up to the next space.
unfoldable pub read_value : Bytes → Option (Bytes × Bytes)
unfolding read_quoted
read_value [] = none
read_value (c ∷ s) = if c == b'"' then read_quoted false s else some (span_word (c ∷ s))

-- A key, and what stands behind its equals sign.
unfoldable pub read_key : Bytes → Option (Bytes × Bytes)
read_key [] = none
read_key (c ∷ s) = if c == b'=' then some ([], s) else cons_byte c (read_key s)

abbrev pub cons_field :
    Bytes → Bytes → Option (List (Bytes × Bytes)) → Option (List (Bytes × Bytes))
cons_field key value none = none
cons_field key value (some fields) = some ((key, value) ∷ fields)

-- Fields, each behind a space, up to the end of the line.
unfoldable pub read_fields : ℕ → Bytes → Option (List (Bytes × Bytes))
unfolding read_key read_value
read_fields zero s = none
read_fields (suc rounds) [] = none
read_fields (suc rounds) (c ∷ s) =
    if c == b' '
    then elim (read_key s) [
      | none ↦ none
      | some (key, behind) ↦ elim (read_value behind) [
        | none ↦ none
        | some (value, rest) ↦ cons_field key value (read_fields rounds rest)
      ]
    ]
    else if c == b'\n' && is_empty s
    then some []
    else none

-- The fields of a line behind its time stamp.
unfoldable pub read_line : Bytes → Option (List (Bytes × Bytes))
unfolding read_fields
read_line s = let rest = (span_word s).1 in read_fields (length rest) rest
