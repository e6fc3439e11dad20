-- ===== src/Stdlib/Words.antt =====
-- Words that were written with spaces between them are read back by `stream >> word`.
use webhook_ops.Common.{
  ℕ, ◌≡◌, ◌≢◌, refl, ap, ◌∙◌, true, false, [], ◌∷◌, ◌++◌, arith, Bytes, All, Lacks,
}
use webhook_ops.Stdlib.Search.{is_space, to_lower, skip_spaces, span_word, next_word}

-- No byte is a space.
abbrev pub IsWord : Bytes → Type 0
IsWord = All (λ c. is_space c ≡ false)

-- What can end a word.
abbrev pub StartsSpace : Bytes → Type 0
StartsSpace [] = Unit
StartsSpace (c ∷ s) = is_space c ≡ true

pub span_word-append :
    (s rest : Bytes) → IsWord s → StartsSpace rest → span_word (s ++ rest) ≡ (s, rest)
unfolding span_word
span_word-append [] [] e k = refl
span_word-append [] (c ∷ rest) e k = rw k refl
span_word-append (c ∷ s) rest (e, es) k = rw (e, span_word-append s rest es k) refl

skip_spaces-word : (s rest : Bytes) → s ≢ [] → IsWord s → skip_spaces (s ++ rest) ≡ s ++ rest
unfolding skip_spaces
skip_spaces-word [] rest h w = absurd (h refl)
skip_spaces-word (c ∷ s) rest h (e, es) = rw e refl

-- A word, with what is behind it.
pub next_word-append :
    (s rest : Bytes) → s ≢ [] → IsWord s → StartsSpace rest → next_word (s ++ rest) ≡ (s, rest)
unfolding next_word
next_word-append s rest h w k =
    ap span_word (skip_spaces-word s rest h w) ∙ span_word-append s rest w k

-- A word behind a blank.
pub next_word_behind :
    (s rest : Bytes)
    → s ≢ []
    → IsWord s
    → StartsSpace rest
    → next_word (b' ' ∷ s ++ rest) ≡ (s, rest)
unfolding next_word skip_spaces is_space
next_word_behind s rest h w k = next_word-append s rest h w k

-- A byte is a space if it is one in lower case.
pub to_lower-is_space : (c : ℕ) → is_space (to_lower c) ≡ false → is_space c ≡ false
unfolding is_space to_lower
to_lower-is_space c h = ground arith

pub word-line : (b : ℕ) (s : Bytes) → is_space b ≡ true → IsWord s → Lacks b s
word-line b [] h w = tt
word-line b (c ∷ s) h (e, es) = ((λ same. let both = ap is_space same in cc), word-line b s h es)
