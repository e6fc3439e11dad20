-- ===== src/Log/Feeds.antt =====
-- The line feeds in what agent/src/common/log.cpp writes.
use webhook_ops.Common.{
  ℕ, ◌+◌, ◌≡◌, refl, ◌==◌, List, [], ◌∷◌, ◌++◌, arith, Bytes, Lacks, if◌then◌else◌, Bool-cases, inl,
  inr,
}
use webhook_ops.Log.{needs_quote, escape_quotes, quote_value, fields_text}

-- How many line feeds a text has.
abbrev pub feeds : Bytes → ℕ
feeds [] = 0
feeds (c ∷ s) = (if c == b'\n' then 1 else 0) + feeds s

abbrev pub all_feeds : List (Bytes × Bytes) → ℕ
all_feeds [] = 0
all_feeds ((key, value) ∷ fields) = feeds key + (feeds value + all_feeds fields)

pub feeds-append : (s t : Bytes) → feeds (s ++ t) ≡ feeds s + feeds t
feeds-append [] t = omega arith
feeds-append (c ∷ s) t = omega (arith, feeds-append s t)

pub feeds-Lacks : (s : Bytes) → Lacks b'\n' s → feeds s ≡ 0
feeds-Lacks [] h = refl
feeds-Lacks (c ∷ s) (h, hs) = ground (arith, feeds-Lacks s hs)

feeds-escape_quotes : (s : Bytes) → feeds (escape_quotes s) ≡ feeds s
unfolding escape_quotes
feeds-escape_quotes [] = refl
feeds-escape_quotes (c ∷ s) = ground (arith, feeds-escape_quotes s)

feeds-quote_value : (s : Bytes) → feeds (quote_value s) ≡ feeds s
unfolding quote_value
feeds-quote_value [] = refl
feeds-quote_value (c ∷ s) = elim (Bool-cases (needs_quote (c ∷ s))) [
  | inl e ↦
      rw e (
        omega
          (arith, feeds-append (escape_quotes (c ∷ s)) (b'"' ∷ []), feeds-escape_quotes (c ∷ s)))
  | inr e ↦ rw e refl
]

pub feeds-fields_text :
    (fields : List (Bytes × Bytes)) → feeds (fields_text fields) ≡ all_feeds fields
unfolding fields_text
feeds-fields_text [] = refl
feeds-fields_text ((key, value) ∷ fields) = omega (
  arith,
  feeds-append key (b'=' ∷ (quote_value value ++ fields_text fields)),
  feeds-append (quote_value value) (fields_text fields),
  feeds-quote_value value,
  feeds-fields_text fields,
)
