-- ===== src/Log/Reading.antt =====
-- A reader of log lines gets back what agent/src/common/log.cpp wrote.
use webhook_ops.Common.{
  ℕ, zero, suc, ◌≤◌, ◌<◌, ◌≡◌, refl, sym, ap, ◌+◌, ◌∙◌, Bool, true, false, ◌||◌, none, some, List,
  [], ◌∷◌, ◌++◌, append_assoc, arith, Bytes, codes, All, length, length-append, ◌==◌, if◌then◌else◌,
  Bool-cases, inl, inr, ltb,
}
use webhook_ops.Stdlib.{is_space, span_word}
use webhook_ops.Stdlib.Words.{IsWord, StartsSpace, span_word-append, word-line}
use webhook_ops.Log.Feeds.{feeds, all_feeds, feeds-append, feeds-Lacks, feeds-fields_text}
use webhook_ops.Log.{
  LogLevel, debug, info, warn, error, level_name, level_rank, needs_quote, escape_quotes,
  quote_value, fields_text, log_line, Output, log,
}
use webhook_ops.Log.Reader.{read_quoted, read_value, read_key, cons_field, read_fields, read_line}

read_quoted-escape_quotes :
    (s rest : Bytes) → read_quoted false (escape_quotes s ++ b'"' ∷ rest) ≡ some (s, rest)
unfolding read_quoted escape_quotes
read_quoted-escape_quotes [] rest = refl
read_quoted-escape_quotes (c ∷ s) rest = ground (arith, read_quoted-escape_quotes s rest)

bare-All : (s : Bytes) → needs_quote s ≡ false → All (λ c. is_space c ≡ false) s
unfolding needs_quote
bare-All [] e = tt
bare-All (c ∷ s) e = (ground arith, bare-All s (ground arith))

read_value-quote_value :
    (value rest : Bytes)
    → StartsSpace rest
    → read_value (quote_value value ++ rest) ≡ some (value, rest)
unfolding read_value quote_value needs_quote
read_value-quote_value [] rest k = refl
read_value-quote_value (c ∷ s) rest k = elim (Bool-cases (needs_quote (c ∷ s))) [
  | inl quoted ↦
      rw (quoted, append_assoc (escape_quotes (c ∷ s)) (b'"' ∷ []) rest)
        (read_quoted-escape_quotes (c ∷ s) rest)
  | inr bare ↦
      rw bare (starts_bare bare ∙ ap some (span_word-append (c ∷ s) rest (bare-All (c ∷ s) bare) k))
]
  where
    starts_bare :
        needs_quote (c ∷ s) ≡ false → read_value (c ∷ s ++ rest) ≡ some (span_word (c ∷ s ++ rest))
    starts_bare e = ground arith

abbrev has_equals : Bytes → Bool
has_equals [] = false
has_equals (c ∷ key) = c == b'=' || has_equals key

read_key_lem :
    (key rest : Bytes) → has_equals key ≡ false → read_key (key ++ b'=' ∷ rest) ≡ some (key, rest)
unfolding read_key
read_key_lem [] rest k = refl
read_key_lem (c ∷ key) rest k = ground (arith, read_key_lem key rest)

abbrev pub IsKey : Bytes × Bytes → Type 0
IsKey field = has_equals field.0 ≡ false

read_fields_step :
    (n : ℕ) (key value rest : Bytes)
    → IsKey (key, value)
    → StartsSpace rest
    → read_fields (suc n) (b' ' ∷ (key ++ b'=' ∷ (quote_value value ++ rest)))
      ≡ cons_field key value (read_fields n rest)
unfolding read_fields
read_fields_step n key value rest k h =
    rw (read_key_lem key (quote_value value ++ rest) k, read_value-quote_value value rest h) refl

fields_text-append :
    (key value : Bytes) (fields : List (Bytes × Bytes)) (rest : Bytes)
    → fields_text ((key, value) ∷ fields) ++ rest
      ≡ b' ' ∷ (key ++ b'=' ∷ (quote_value value ++ (fields_text fields ++ rest)))
unfolding fields_text
fields_text-append key value fields rest =
    ap (λ t. b' ' ∷ t)
      (append_assoc key (b'=' ∷ (quote_value value ++ fields_text fields)) rest
        ∙ ap (λ t. key ++ b'=' ∷ t) (append_assoc (quote_value value) (fields_text fields) rest))

fields_text-StartsSpace :
    (fields : List (Bytes × Bytes)) → StartsSpace (fields_text fields ++ b'\n' ∷ [])
unfolding fields_text is_space
fields_text-StartsSpace [] = refl
fields_text-StartsSpace (field ∷ fields) = refl

read_fields-fields_text :
    (n : ℕ) (fields : List (Bytes × Bytes))
    → length fields < n
    → All IsKey fields
    → read_fields n (fields_text fields ++ b'\n' ∷ []) ≡ some fields
unfolding read_fields fields_text
read_fields-fields_text zero fields h k = absurd (omega (arith, h))
read_fields-fields_text (suc n) [] h k = refl
read_fields-fields_text (suc n) ((key, value) ∷ fields) h (k, ks) =
    ap (read_fields (suc n)) (fields_text-append key value fields (b'\n' ∷ []))
    ∙ read_fields_step n key value (fields_text fields ++ b'\n' ∷ []) k
        (fields_text-StartsSpace fields)
    ∙ ap (cons_field key value) (read_fields-fields_text n fields (omega (arith, h)) ks)

length-fields_text : (fields : List (Bytes × Bytes)) → length fields ≤ length (fields_text fields)
unfolding fields_text
length-fields_text [] = omega arith
length-fields_text ((key, value) ∷ fields) = omega (
  arith,
  length-append key (b'=' ∷ (quote_value value ++ fields_text fields)),
  length-append (quote_value value) (fields_text fields),
  length-fields_text fields,
)

bare_name : (level : LogLevel) → level_name level ≡ quote_value (level_name level)
unfolding level_name quote_value needs_quote is_space
bare_name debug = refl
bare_name info = refl
bare_name warn = refl
bare_name error = refl

abbrev all_fields : LogLevel → Bytes → Bytes → List (Bytes × Bytes) → List (Bytes × Bytes)
all_fields level component event fields =
    (codes "level", level_name level)
    ∷ (codes "component", component)
    ∷ (codes "event", event)
    ∷ fields

log_line-fields_text :
    (timestamp : Bytes) (level : LogLevel) (component event : Bytes) (fields : List (Bytes × Bytes))
    → log_line timestamp level component event fields
      ≡ timestamp ++ (fields_text (all_fields level component event fields) ++ b'\n' ∷ [])
unfolding log_line
log_line-fields_text timestamp level component event fields =
    let nl = b'\n' ∷ [] in
    let with_event = fields_text-append (codes "event") event fields nl in
    let with_component =
      fields_text-append (codes "component") component ((codes "event", event) ∷ fields) nl in
    let with_level =
      fields_text-append (codes "level") (level_name level)
        ((codes "component", component) ∷ (codes "event", event) ∷ fields) nl in
    rw (with_level, with_component, with_event, sym (bare_name level)) refl

read_line-log_line :
    (timestamp : Bytes) (level : LogLevel) (component event : Bytes) (fields : List (Bytes × Bytes))
    → All (λ c. is_space c ≡ false) timestamp
    → All IsKey fields
    → read_line (log_line timestamp level component event fields)
      ≡ some (all_fields level component event fields)
unfolding read_line
read_line-log_line timestamp level component event fields stamped keyed =
    let all = all_fields level component event fields in
    let text = fields_text all ++ b'\n' ∷ [] in
    let spans = span_word-append timestamp text stamped (fields_text-StartsSpace all) in
    ap read_line (log_line-fields_text timestamp level component event fields)
    ∙ ap (λ r. read_fields (length r.1) r.1) spans
    ∙ read_fields-fields_text (length text) all
        (omega (arith, length-fields_text all, length-append (fields_text all) (b'\n' ∷ [])))
        (refl, (refl, (refl, keyed)))

feeds-level_name : (level : LogLevel) → feeds (level_name level) ≡ 0
unfolding level_name
feeds-level_name debug = refl
feeds-level_name info = refl
feeds-level_name warn = refl
feeds-level_name error = refl

feeds-log_line :
    (timestamp : Bytes) (level : LogLevel) (component event : Bytes) (fields : List (Bytes × Bytes))
    → IsWord timestamp
    → feeds (log_line timestamp level component event fields)
      ≡ suc (feeds component + (feeds event + all_feeds fields))
feeds-log_line timestamp level component event fields stamped =
    let all = all_fields level component event fields in
    let space : is_space b'\n' ≡ true = unfold is_space in refl in
    ap feeds (log_line-fields_text timestamp level component event fields)
    ∙ omega (
      arith,
      feeds-append timestamp (fields_text all ++ b'\n' ∷ []),
      feeds-Lacks timestamp (word-line b'\n' timestamp space stamped),
      feeds-append (fields_text all) (b'\n' ∷ []),
      feeds-fields_text all,
      feeds-level_name level,
    )

-- What one call prints is read back, as a whole, as its level, its component, its event and its
-- fields, whatever bytes the texts hold, if the time stamp has no space and no key has an equals
-- sign; and it has one line feed more than the component, the event and the fields together, so
-- it is a single line if they have none.
pub read_line-log :
    (lowest level : LogLevel) (timestamp component event : Bytes) (fields : List (Bytes × Bytes))
    {output : Output} {line : Bytes}
    → All (λ c. is_space c ≡ false) timestamp
    → All IsKey fields
    → log lowest timestamp level component event fields ≡ some (output, line)
    → (read_line line
        ≡ some (
            (codes "level", level_name level)
            ∷ (codes "component", component)
            ∷ (codes "event", event)
            ∷ fields))
      × (feeds line ≡ suc (feeds component + (feeds event + all_feeds fields)))
unfolding log
read_line-log lowest level timestamp component event fields stamped keyed h =
    let same = sym (printed (ltb (level_rank level) (level_rank lowest)) _ _ h) in
    (
      ap read_line same ∙ read_line-log_line timestamp level component event fields stamped keyed,
      ap feeds same ∙ feeds-log_line timestamp level component event fields stamped,
    )
  where
    printed : (b : Bool) (x y : Output × Bytes) → (if b then none else some x) ≡ some y → x.1 ≡ y.1
    printed true x y e = absurd (cc)
    printed false x y e = ap (λ r. r.1) (unwrap e)
      where
        unwrap : {x y : Output × Bytes} → some x ≡ some y → x ≡ y
        unwrap e = cc
