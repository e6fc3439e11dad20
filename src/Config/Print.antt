-- ===== src/Config/Print.antt =====
-- A configuration text that is printed from entries is loaded as those entries
-- (agent/src/common/config.cpp).
use webhook_ops.Common.{
  ℕ, suc, ◌+◌, ◌≡◌, ◌≢◌, refl, sym, ap, ◌∙◌, true, false, ◌||◌, Option, some, List, [], ◌∷◌, ◌++◌,
  append_assoc, append-nil, arith, Bytes, Lacks, All, All-append, length, drop, take-append, eqb,
  eqb→eq, eqb_refl, ◌==◌, if◌then◌else◌, Bool-cases, inl, inr,
}
use webhook_ops.Stdlib.{find-append, find_if-none, skip_spaces, is_space}
use webhook_ops.Text.{trim_copy, trim_end, lower_copy}
use webhook_ops.Text.Trim.{first_not_space, skip_spaces-not_space, trim_end-append, trim_end-cons}
use webhook_ops.Config.{
  ConfigFile, push_back, lookup, get_lines, strip_comment, parse_entry, parse_line, entry, loaded,
  load_lines, load_config_file, config_get_all,
}

-- Not a line end, nor the start of a comment.
abbrev pub IsPlain : ℕ → Type 0
IsPlain c = (c ≢ b'\n') × (c ≢ b'#') × (c ≢ b';')

-- A key and a value that a line can hold.
pub record IsEntry (key value : Bytes) : Type 0 where
  pub named : key ≢ []
  pub key_first : skip_spaces key ≡ key
  pub key_last : trim_end key ≡ key
  pub key_lower : lower_copy key ≡ key
  pub key_plain : All IsPlain key
  pub key_equals : Lacks b'=' key
  pub value_first : skip_spaces value ≡ value
  pub value_last : trim_end value ≡ value
  pub value_plain : All IsPlain value

abbrev print_line : Bytes → Bytes → Bytes
print_line key value = key ++ b'=' ∷ value

unfoldable pub print : List (Bytes × Bytes) → Bytes
print [] = []
print ((key, value) ∷ entries) = print_line key value ++ b'\n' ∷ print entries

abbrev pub AllEntries : List (Bytes × Bytes) → Type 0
AllEntries [] = Unit {0}
AllEntries ((key, value) ∷ entries) = IsEntry key value × AllEntries entries

unfoldable pub values_of : Bytes → List (Bytes × Bytes) → List Bytes
values_of key [] = []
values_of key ((k, v) ∷ entries) =
    if eqb k key then v ∷ values_of key entries else values_of key entries

push_all : List (Bytes × Bytes) → ConfigFile → ConfigFile
push_all [] config = config
push_all ((key, value) ∷ entries) config = push_all entries (push_back key value config)

plain-newline : (s : Bytes) → All IsPlain s → Lacks b'\n' s
plain-newline [] h = tt
plain-newline (c ∷ s) (h, hs) = (h.0, plain-newline s hs)

plain-comment : (s : Bytes) → All IsPlain s → All (λ c. (c == b'#' || c == b';') ≡ false) s
plain-comment [] h = tt
plain-comment (c ∷ s) (h, hs) = (ground arith, plain-comment s hs)

strip_comment-plain : (s : Bytes) → All IsPlain s → strip_comment s ≡ s
unfolding strip_comment
strip_comment-plain s h =
    rw (find_if-none (λ c. c == b'#' || c == b';') s (plain-comment s h), strip_comment)

get_lines-append :
    (line rest : Bytes)
    → Lacks b'\n' line
    → get_lines (line ++ b'\n' ∷ rest) ≡ line ∷ get_lines rest
unfolding get_lines
get_lines-append [] rest h = refl
get_lines-append (c ∷ line) rest (h, hs) = rw (get_lines-append line rest hs) (ground arith)

drop-past : (s rest : Bytes) (b : ℕ) → drop (length s + 1) (s ++ b ∷ rest) ≡ rest
drop-past [] rest b = refl
drop-past (c ∷ s) rest b =
    let e : suc (length s) + 1 ≡ suc (length s + 1) = omega arith in rw e (drop-past s rest b)

module _ {key value : Bytes} (v : IsEntry key value) where
  trim_key : trim_copy key ≡ key
  unfolding trim_copy
  trim_key = ap trim_end v.key_first ∙ v.key_last

  trim_value : trim_copy value ≡ value
  unfolding trim_copy
  trim_value = ap trim_end v.value_first ∙ v.value_last

  print_line-IsPlain : All IsPlain (print_line key value)
  print_line-IsPlain =
      All-append IsPlain key (b'=' ∷ value) v.key_plain
        (((λ e. omega arith), (λ e. omega arith), (λ e. omega arith)), v.value_plain)

trim_line :
    (key value : Bytes)
    → IsEntry key value
    → trim_copy (print_line key value) ≡ print_line key value
unfolding trim_copy
trim_line [] value v = absurd (v.named refl)
trim_line (c ∷ key) value v =
    ap trim_end (skip_spaces-not_space c (key ++ b'=' ∷ value) (first_not_space c key v.key_first))
    ∙ trim_end-append (c ∷ key) (b'=' ∷ value)
        (trim_end-cons b'=' value (unfold is_space in refl) v.value_last) (λ e. cc)

parse_entry-print :
    (key value : Bytes) → IsEntry key value → parse_entry (print_line key value) ≡ entry key value
unfolding parse_entry
parse_entry-print [] value v = absurd (v.named refl)
parse_entry-print (c ∷ key) value v = ground (
  arith,
  find-append b'=' (c ∷ key) value v.key_equals,
  take-append (c ∷ key) (b'=' ∷ value),
  drop-past (c ∷ key) value b'=',
  trim_key v,
  trim_value v,
  v.key_lower,
)

parse_line-print :
    (key value : Bytes) → IsEntry key value → parse_line (print_line key value) ≡ entry key value
unfolding parse_line
parse_line-print key value v =
    ap (λ t. parse_entry (trim_copy t)) (strip_comment-plain _ (print_line-IsPlain v))
    ∙ ap parse_entry (trim_line key value v)
    ∙ parse_entry-print key value v

load_lines-print :
    (path : Bytes) (n : ℕ) (entries : List (Bytes × Bytes)) (config : ConfigFile)
    → AllEntries entries
    → load_lines path n (get_lines (print entries)) config ≡ (loaded, push_all entries config)
unfolding load_lines print push_all
load_lines-print path n [] config h = unfold get_lines in refl
load_lines-print path n ((key, value) ∷ entries) config (v, h) =
    rw
      (
        get_lines-append (print_line key value) (print entries)
            (plain-newline _ (print_line-IsPlain v)),
        load_lines,
        parse_line-print key value v,
      )
      (load_lines-print path (n + 1) entries (push_back key value config) h)

eqb_common : (i k j : Bytes) → eqb i j ≡ true → eqb k j ≡ true → eqb i k ≡ true
eqb_common i k j p q = rw (eqb→eq i j p, eqb→eq k j q) (eqb_refl j)

eqb_same : (i k j : Bytes) → eqb i k ≡ true → eqb i j ≡ eqb k j
eqb_same i k j p = ap (λ t. eqb t j) (eqb→eq i k p)

lookup-push_back :
    (j k v : Bytes) (config : ConfigFile)
    → lookup j (push_back k v config)
      ≡ (if eqb k j then lookup j config ++ v ∷ [] else lookup j config)
unfolding lookup push_back
lookup-push_back j k v [] = ground arith
lookup-push_back j k v ((i, vs) ∷ config) = elim (Bool-cases (eqb i k)) [
  | inl same ↦ rw (same, eqb_same i k j same) (ground arith)
  | inr other ↦ rw other (ground (arith, lookup-push_back j k v config, eqb_common i k j))
]

lookup-push_all :
    (j : Bytes) (entries : List (Bytes × Bytes)) (config : ConfigFile)
    → lookup j (push_all entries config) ≡ lookup j config ++ values_of j entries
unfolding push_all values_of
lookup-push_all j [] config = sym (append-nil _)
lookup-push_all j ((k, v) ∷ entries) config =
    lookup-push_all j entries (push_back k v config)
    ∙ rw (lookup-push_back j k v config)
        (ground (arith, append_assoc (lookup j config) (v ∷ []) (values_of j entries)))

-- A file printed from entries is loaded without an error, and a key has the values of its entries, in
-- their order.
pub config_get_all-print :
    (files : Bytes → Option Bytes) (path key : Bytes) (entries : List (Bytes × Bytes))
    → files path ≡ some (print entries)
    → AllEntries entries
    → ((load_config_file files path []).0 ≡ loaded)
      × (config_get_all (load_config_file files path []).1 key ≡ values_of (lower_copy key) entries)
unfolding load_config_file config_get_all
config_get_all-print files path key entries file h =
    let run = load_lines-print path 1 entries [] h in
    rw (file, load_config_file, run) (refl, lookup-push_all (lower_copy key) entries [])
