-- ===== src/Log.antt =====
-- The log lines of agent/src/common/log.cpp. The time stamp is an argument.
pub mod Reader
pub mod Feeds
pub mod Reading
use webhook_ops.Common.{
  ℕ, ◌≡◌, refl, Bool, true, false, ◌||◌, Option, none, some, List, [], ◌∷◌, ◌++◌, Bytes, codes, leb,
  ltb, ◌==◌, is_empty, if◌then◌else◌,
}
use webhook_ops.Stdlib.{is_space}

pub data LogLevel : Type 0 where
  debug info warn error : LogLevel

unfoldable pub level_rank : LogLevel → ℕ
level_rank debug = 0
level_rank info = 1
level_rank warn = 2
level_rank error = 3

unfoldable pub level_name : LogLevel → Bytes
level_name debug = codes "DEBUG"
level_name info = codes "INFO"
level_name warn = codes "WARN"
level_name error = codes "ERROR"

abbrev pub quotes_byte : ℕ → Bool
quotes_byte c = is_space c || c == b'"' || c == b'\\' || c == b'='

-- The loop that sets `needs_quote`.
unfoldable pub needs_quote : Bytes → Bool
needs_quote [] = false
needs_quote (c ∷ s) = quotes_byte c || needs_quote s

unfoldable pub escape_quotes : Bytes → Bytes
escape_quotes [] = []
escape_quotes (c ∷ s) =
    let rest = escape_quotes s in if c == b'"' || c == b'\\' then b'\\' ∷ c ∷ rest else c ∷ rest

unfoldable pub quote_value : Bytes → Bytes
unfolding escape_quotes
quote_value [] = b'"' ∷ b'"' ∷ []
quote_value (c ∷ s) =
    if needs_quote (c ∷ s) then b'"' ∷ escape_quotes (c ∷ s) ++ b'"' ∷ [] else c ∷ s

unfoldable pub fields_text : List (Bytes × Bytes) → Bytes
fields_text [] = []
fields_text ((key, value) ∷ fields) =
    b' ' ∷ (key ++ b'=' ∷ (quote_value value ++ fields_text fields))

unfoldable pub log_line : Bytes → LogLevel → Bytes → Bytes → List (Bytes × Bytes) → Bytes
log_line timestamp level component event fields =
    timestamp
    ++ (codes " level="
        ++ (level_name level
            ++ (codes " component="
                ++ (quote_value component
                    ++ (codes " event="
                        ++ (quote_value event ++ (fields_text fields ++ b'\n' ∷ [])))))))

pub data Output : Type 0 where
  standard_output standard_error : Output

-- What is printed, and where; `lowest` is the level that was set.
unfoldable pub log :
    LogLevel → Bytes → LogLevel → Bytes → Bytes → List (Bytes × Bytes) → Option (Output × Bytes)
unfolding level_rank log_line
log lowest timestamp level component event fields =
    if ltb (level_rank level) (level_rank lowest)
    then none
    else some (
      if leb (level_rank warn) (level_rank level) then standard_error else standard_output,
      log_line timestamp level component event fields,
    )

runs :
    (quote_value (codes "a b\"c") ≡ codes "\"a b\\\"c\"")
    × (quote_value (codes "a:1") ≡ codes "a:1")
    × (log info (codes "T") warn (codes "tunnel") (codes "x y") ((codes "k", []) ∷ [])
        ≡ some (standard_error, codes "T level=WARN component=tunnel event=\"x y\" k=\"\"\n"))
    × (log warn (codes "T") info (codes "tunnel") (codes "x") [] ≡ none)
unfolding log quote_value is_space needs_quote level_name fields_text
runs = (refl, refl, refl, refl)
