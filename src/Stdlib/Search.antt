-- ===== src/Stdlib/Search.antt =====
-- Character classes of the "C" locale, `std::string::find` and `rfind`, and `stream >> word`.
use webhook_ops.Common.{
  ℕ, zero, suc, ◌+◌, ◌≡◌, refl, Bool, true, false, ◌&&◌, ◌||◌, Option, none, some, [], ◌∷◌, ◌++◌,
  inl, inr, arith, Bytes, Lacks, All, length, take, drop, leb, ◌==◌, ==_refl, Bool-cases,
  if◌then◌else◌,
}

-- `std::isspace`
unfoldable pub is_space : ℕ → Bool
is_space c = c == b' ' || (leb 9 c && leb c 13)

-- `std::tolower`
unfoldable pub to_lower : ℕ → ℕ
to_lower c = if leb b'A' c && leb c b'Z' then c + 32 else c

-- The position of the first byte that passes a test; `find` and `find_first_of` are instances.
unfoldable pub find_if : (ℕ → Bool) → Bytes → Option ℕ
find_if p [] = none
find_if p (c ∷ s) =
    let rest = find_if p s in
    if p c then some 0 else elim rest [ none ↦ none | some n ↦ some (suc n) ]

abbrev pub find : ℕ → Bytes → Option ℕ
find b = find_if (λ c. c == b)

unfoldable pub rfind : ℕ → Bytes → Option ℕ
rfind b [] = none
rfind b (c ∷ s) = elim (rfind b s) [
  | some n ↦ some (suc n)
  | none ↦ if c == b then some 0 else none
]

-- `str.find("\r\n")`
unfoldable pub find_crlf : Bytes → Option ℕ
find_crlf [] = none
find_crlf (c ∷ s) =
    let rest = find_crlf s in
    if c == b'\r' && elim s [ [] ↦ false | d ∷ _ ↦ d == b'\n' ]
    then some 0
    else elim rest [ none ↦ none | some n ↦ some (suc n) ]

unfoldable pub skip_spaces : Bytes → Bytes
skip_spaces [] = []
skip_spaces (c ∷ s) = if is_space c then skip_spaces s else c ∷ s

-- The bytes up to the first space, and what follows them.
unfoldable pub span_word : Bytes → Bytes × Bytes
span_word [] = ([], [])
span_word (c ∷ s) = let r = span_word s in if is_space c then ([], c ∷ s) else (c ∷ r.0, r.1)

-- `stream >> word`: the word (empty if there is none) and the rest of the stream.
unfoldable pub next_word : Bytes → Bytes × Bytes
unfolding skip_spaces span_word
next_word s = span_word (skip_spaces s)

pub find_if-append :
    (p : ℕ → Bool) (s : Bytes) (c : ℕ) (rest : Bytes)
    → All (λ d. p d ≡ false) s
    → p c ≡ true
    → find_if p (s ++ c ∷ rest) ≡ some (length s)
unfolding find_if
find_if-append p [] c rest _ h = rw h
find_if-append p (d ∷ s) c rest (hd, hs) h = rw (hd, find_if-append p s c rest hs h)

pub find_if-none : (p : ℕ → Bool) (s : Bytes) → All (λ d. p d ≡ false) s → find_if p s ≡ none
unfolding find_if
find_if-none p [] _ = refl
find_if-none p (d ∷ s) (hd, hs) = rw (hd, find_if-none p s hs)

Lacks-tests : (b : ℕ) (s : Bytes) → Lacks b s → All (λ c. (c == b) ≡ false) s
Lacks-tests b [] _ = tt
Lacks-tests b (c ∷ s) (h, hs) = (ground arith, Lacks-tests b s hs)

pub find-append : (b : ℕ) (s rest : Bytes) → Lacks b s → find b (s ++ b ∷ rest) ≡ some (length s)
find-append b s rest h = find_if-append (λ c. c == b) s b rest (Lacks-tests b s h) (==_refl b)

pub find-none : (b : ℕ) (s : Bytes) → Lacks b s → find b s ≡ none
find-none b s h = find_if-none (λ c. c == b) s (Lacks-tests b s h)

pub rfind-none : (b : ℕ) (s : Bytes) → Lacks b s → rfind b s ≡ none
unfolding rfind
rfind-none b [] _ = refl
rfind-none b (c ∷ s) (h, hs) = ground (arith, rfind-none b s hs)

pub rfind-append :
    (b : ℕ) (s rest : Bytes) → Lacks b rest → rfind b (s ++ b ∷ rest) ≡ some (length s)
unfolding rfind
rfind-append b [] rest h = ground (arith, rfind-none b rest h)
rfind-append b (c ∷ s) rest h = rw (rfind-append b s rest h)

-- What a search that succeeds says of the text.
pub find_if-some :
    (p : ℕ → Bool) (s : Bytes) (n : ℕ)
    → find_if p s ≡ some n
    → All (λ d. p d ≡ false) (take n s)
      × ((c : ℕ) × (rest : Bytes) × (drop n s ≡ c ∷ rest) × (p c ≡ true))
unfolding find_if
find_if-some p [] n h = cc
find_if-some p (c ∷ s) zero h = elim (Bool-cases (p c)) [
  | inl hit ↦ (tt, (c, s, refl, hit))
  | inr miss ↦ absurd (ground arith)
]
find_if-some p (c ∷ s) (suc n) h = elim (Bool-cases (p c)) [
  | inl hit ↦ absurd (ground arith)
  | inr miss ↦ let (before, found) = find_if-some p s n (ground arith) in ((miss, before), found)
]
