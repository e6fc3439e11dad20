-- ===== src/Config.antt =====
-- Configuration files of agent/src/common/config.cpp: `key=value` lines, with comments behind `#` or `;`.
-- The file system is a parameter: what opening a path yields.
pub mod Print
use webhook_ops.Common.{
  ℕ, zero, suc, ◌+◌, ◌≡◌, refl, Bool, true, false, ◌||◌, Option, none, some, List, [], ◌∷◌, ◌++◌,
  Bytes, codes, length, take, drop, eqb, is_empty, ◌==◌, if◌then◌else◌,
}
use webhook_ops.Stdlib.{find, find_if}
use webhook_ops.Stdlib.Decimal.{to_string}
use webhook_ops.Text.{trim_copy, lower_copy}

-- std::map<std::string, std::vector<std::string>>
abbrev pub ConfigFile : Type 0
ConfigFile = List (Bytes × List Bytes)

-- `values[key].push_back(value)`
unfoldable pub push_back : Bytes → Bytes → ConfigFile → ConfigFile
push_back key value [] = (key, value ∷ []) ∷ []
push_back key value ((k, vs) ∷ config) =
    if eqb k key then (k, vs ++ value ∷ []) ∷ config else (k, vs) ∷ push_back key value config

unfoldable pub lookup : Bytes → ConfigFile → List Bytes
lookup key [] = []
lookup key ((k, vs) ∷ config) = if eqb k key then vs else lookup key config

-- `std::getline` until the end of the file.
unfoldable pub get_lines : Bytes → List Bytes
get_lines [] = []
get_lines (c ∷ s) =
    let rest = get_lines s in
    if c == b'\n'
    then [] ∷ rest
    else elim rest [ [] ↦ (c ∷ []) ∷ [] | line ∷ lines ↦ (c ∷ line) ∷ lines ]

unfoldable pub strip_comment : Bytes → Bytes
strip_comment line = elim (find_if (λ c. c == b'#' || c == b';') line) [
  | none ↦ line
  | some comment ↦ take comment line
]

pub data Line : Type 0 where
  blank no_equals empty_key : Line
  entry : Bytes → Bytes → Line

-- One round of the loop, up to what it does to the configuration.
unfoldable pub parse_entry : Bytes → Line
parse_entry [] = blank
parse_entry (c ∷ s) = elim (find b'=' (c ∷ s)) [
  | none ↦ no_equals
  | some equals ↦
      let key = lower_copy (trim_copy (take equals (c ∷ s))) in
      let value = trim_copy (drop (equals + 1) (c ∷ s)) in
      if is_empty key then empty_key else entry key value
]

unfoldable pub parse_line : Bytes → Line
unfolding strip_comment parse_entry
parse_line line = parse_entry (trim_copy (strip_comment line))

-- `true`, or `false` with a message; the configuration may hold some of the entries then.
pub data Loaded : Type 0 where
  loaded : Loaded
  load_error : Bytes → Loaded

unfoldable pub line_error : Bytes → ℕ → Bytes → Loaded
line_error path line_no message =
    load_error (path ++ (b':' ∷ to_string line_no) ++ codes ": " ++ message)

unfoldable pub load_lines : Bytes → ℕ → List Bytes → ConfigFile → Loaded × ConfigFile
unfolding line_error
load_lines path line_no [] config = (loaded, config)
load_lines path line_no (line ∷ lines) config = elim (parse_line line) [
  | blank ↦ load_lines path (line_no + 1) lines config
  | no_equals ↦ (line_error path line_no (codes "expected key=value"), config)
  | empty_key ↦ (line_error path line_no (codes "empty key"), config)
  | entry key value ↦ load_lines path (line_no + 1) lines (push_back key value config)
]

unfoldable pub load_config_file : (Bytes → Option Bytes) → Bytes → ConfigFile → Loaded × ConfigFile
unfolding load_lines get_lines
load_config_file files path config = elim (files path) [
  | none ↦ (load_error (codes "could not open config file: " ++ path), config)
  | some text ↦ load_lines path 1 (get_lines text) config
]

unfoldable pub last_or : Bytes → List Bytes → Bytes
last_or fallback [] = fallback
last_or fallback (v ∷ vs) = last_or v vs

-- The last value of a key, and all of them.
unfoldable pub config_get : ConfigFile → Bytes → Bytes → Bytes
unfolding lookup last_or
config_get config key fallback = last_or fallback (lookup (lower_copy key) config)

unfoldable pub config_get_all : ConfigFile → Bytes → List Bytes
unfolding lookup
config_get_all config key = lookup (lower_copy key) config

abbrev sample : Bytes
sample = codes "# agents\nID = dev ; note\nallow=a:1\n\nallow = b:2"

runs :
    (config_get (load_config_file (λ _. some sample) [] []).1 (codes "id") [] ≡ codes "dev")
    × (config_get_all (load_config_file (λ _. some sample) [] []).1 (codes "Allow")
        ≡ codes "a:1" ∷ codes "b:2" ∷ [])
    × ((load_config_file (λ _. some (codes "x=1\ny")) (codes "f") []).0
        ≡ load_error (codes "f:2: expected key=value"))
unfolding load_config_file config_get config_get_all parse_line trim_copy lower_copy find_if
    push_back to_string
runs = (refl, refl, refl)
