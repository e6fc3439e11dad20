-- ===== src/Stdlib/Decimal.antt =====
-- `std::to_string` of an unsigned number and `std::stoi`.
use webhook_ops.Common.{
  ℕ, zero, suc, ◌+◌, ◌-◌, ◌*◌, ◌/◌, ◌%◌, ◌≤◌, ◌<◌, ◌≡◌, refl, Bool, true, false, ◌&&◌, Option, none,
  some, [], ◌∷◌, ◌++◌, arith, Bytes, codes, All, ltb, leb, ◌==◌, if◌then◌else◌, ℤ, pos, negsuc,
  negate, Bool-cases, inl, inr, append-nil, ap, sym, ◌∙◌,
}
use webhook_ops.Stdlib.Search.{is_space, skip_spaces}

unfoldable pub is_digit : ℕ → Bool
is_digit c = leb b'0' c && leb c b'9'

abbrev pub IsDigit : ℕ → Type 0
IsDigit c = (b'0' ≤ c) × (c ≤ b'9')

-- The digits of `n` in front of `out`; `n + 1` rounds are enough.
unfoldable pub digits_before : ℕ → ℕ → Bytes → Bytes
digits_before zero n out = out
digits_before (suc f) n out =
    let rest = digits_before f (n / 10) ((b'0' + n % 10) ∷ out) in
    if ltb n 10 then (b'0' + n) ∷ out else rest

unfoldable pub to_string : ℕ → Bytes
unfolding digits_before
to_string n = digits_before (suc n) n []

-- The value of the digits at the head of a text, behind those that made `n`.
unfoldable pub scan_digits : ℕ → Bytes → ℕ
unfolding is_digit
scan_digits n [] = n
scan_digits n (c ∷ s) = if is_digit c then scan_digits (n * 10 + (c - b'0')) s else n

-- `none` where there is no digit (std::invalid_argument).
unfoldable pub magnitude : Bytes → Option ℕ
unfolding is_digit scan_digits
magnitude [] = none
magnitude (c ∷ s) = if is_digit c then some (scan_digits 0 (c ∷ s)) else none

abbrev pub int_max : ℕ
int_max = 2147483647

-- Out of the range of `int`: std::out_of_range.
unfoldable pub in_int_range : Bool → ℕ → Option ℤ
in_int_range negative n =
    if negative
    then (if leb n (int_max + 1) then some (negate n) else none)
    else (if leb n int_max then some (pos n) else none)

unfoldable pub with_sign : Bool → Bytes → Option ℤ
unfolding magnitude in_int_range
with_sign negative s = elim (magnitude s) [ none ↦ none | some n ↦ in_int_range negative n ]

unfoldable pub signed : Bytes → Option ℤ
unfolding with_sign
signed [] = none
signed (c ∷ s) =
    if c == b'-'
    then with_sign true s
    else if c == b'+'
    then with_sign false s
    else with_sign false (c ∷ s)

-- Leading space is skipped, and what follows the digits is not looked at. `none` is a throw.
unfoldable pub stoi : Bytes → Option ℤ
unfolding signed skip_spaces is_space
stoi s = signed (skip_spaces s)

scan-digits_before :
    (f n : ℕ) (out : Bytes) → n < f → scan_digits 0 (digits_before f n out) ≡ scan_digits n out
unfolding digits_before scan_digits
scan-digits_before zero n out h = elim h [ ]
scan-digits_before (suc f) n out h =
    ground (arith, scan-digits_before f (n / 10) ((b'0' + n % 10) ∷ out))

digits_before-append :
    (f n : ℕ) (out rest : Bytes) → digits_before f n out ++ rest ≡ digits_before f n (out ++ rest)
unfolding digits_before
digits_before-append zero n out rest = refl
digits_before-append (suc f) n out rest =
    ground (arith, digits_before-append f (n / 10) ((b'0' + n % 10) ∷ out) rest)

digits_before-IsDigit :
    (f n : ℕ) (out : Bytes) → All IsDigit out → All IsDigit (digits_before f n out)
unfolding digits_before
digits_before-IsDigit zero n out h = h
digits_before-IsDigit (suc f) n out h =
    ground (arith, digits_before-IsDigit f (n / 10) ((b'0' + n % 10) ∷ out))

pub to_string-IsDigit : (n : ℕ) → All IsDigit (to_string n)
unfolding to_string
to_string-IsDigit n = digits_before-IsDigit (suc n) n [] tt

-- The first digit, which is there for every number.
digits_before-cons :
    (f n : ℕ) (out : Bytes)
    → n < f
    → (c : ℕ) × (s : Bytes) × (digits_before f n out ≡ c ∷ s) × IsDigit c
unfolding digits_before
digits_before-cons zero n out h = elim h [ ]
digits_before-cons (suc f) n out h = elim (Bool-cases (ltb n 10)) [
  | inl small ↦ (b'0' + n, out, rw small, (ground arith, ground arith))
  | inr large ↦ rw large (digits_before-cons f (n / 10) _ (ground arith))
]

pub to_string-cons : (n : ℕ) → (c : ℕ) × (s : Bytes) × (to_string n ≡ c ∷ s) × IsDigit c
unfolding to_string
to_string-cons n = digits_before-cons (suc n) n [] (omega arith)

-- The digits of a print are read back, whatever follows them but a digit.
pub scan-to_string :
    (n : ℕ) (rest : Bytes) → scan_digits n rest ≡ n → scan_digits 0 (to_string n ++ rest) ≡ n
unfolding to_string
scan-to_string n rest h =
    ap (scan_digits 0) (digits_before-append (suc n) n [] rest)
    ∙ scan-digits_before (suc n) n rest (omega arith)
    ∙ h

stoi-digits :
    (c : ℕ) (s : Bytes)
    → IsDigit c
    → scan_digits 0 (c ∷ s) ≤ int_max
    → stoi (c ∷ s) ≡ some (pos (scan_digits 0 (c ∷ s)))
unfolding stoi
stoi-digits c s d h = ground arith

-- A number that fits an `int` is read back from its print, whatever follows but a digit.
pub stoi-to_string :
    (n : ℕ) (rest : Bytes)
    → n ≤ int_max
    → scan_digits n rest ≡ n
    → stoi (to_string n ++ rest) ≡ some (pos n)
stoi-to_string n rest h e =
    let (c, s, print, d) = to_string-cons n in
    let value : scan_digits 0 (c ∷ (s ++ rest)) ≡ n =
      ap (λ t. scan_digits 0 (t ++ rest)) (sym print) ∙ scan-to_string n rest e in
    ap (λ t. stoi (t ++ rest)) print
    ∙ stoi-digits c (s ++ rest) d (omega (arith, value))
    ∙ ap (λ k. some (pos k)) value

pub scan-nil : (n : ℕ) → scan_digits n [] ≡ n
unfolding scan_digits
scan-nil n = refl

scan_whole : (n : ℕ) → scan_digits 0 (to_string n) ≡ n
unfolding scan_digits
scan_whole n = rw (← append-nil (to_string n)) (scan-to_string n [] refl)

-- Two numbers with one print are equal.
pub to_string-injective : (m n : ℕ) → to_string m ≡ to_string n → m ≡ n
to_string-injective m n e = sym (scan_whole m) ∙ ap (scan_digits 0) e ∙ scan_whole n

runs : (to_string 65535 ≡ codes "65535") × (to_string 0 ≡ codes "0")
unfolding to_string
runs = (refl, refl)

runs_stoi :
    (stoi (codes " 42x") ≡ some (pos 42))
    × (stoi (codes "-1") ≡ some (negsuc 0))
    × (stoi (codes "x") ≡ none)
    × (stoi (codes "2147483648") ≡ none)
unfolding stoi
runs_stoi = (refl, refl, refl, refl)
