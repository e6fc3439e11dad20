-- ===== src/Tunnel/Request/FirstLine.antt =====
-- The request line of a CONNECT request, as `parse_proxy_request` of agent/src/tunnel/main.cpp reads it.
use webhook_ops.Common.{
  ℕ, suc, ◌+◌, ◌-◌, ◌≡◌, ◌≢◌, refl, sym, ap, subst, ◌∙◌, true, false, List, [], ◌∷◌, ◌++◌,
  append-nil, append_assoc, arith, Bytes, codes, Lacks, length, length-append, take, is_empty,
  if◌then◌else◌, leb,
}
use webhook_ops.Stdlib.{is_space, next_word}
use webhook_ops.Stdlib.Words.{IsWord, next_word-append, next_word_behind, to_lower-is_space}
use webhook_ops.Text.{lower_copy, split_lines, split_loop}
use webhook_ops.Text.Lines.{crlf, terminated, split_lines-first, split_lines-terminated}
use webhook_ops.Tunnel.Request.{connect_request, parse_lines, parse_proxy_request}

lower_copy-IsWord : (s : Bytes) → IsWord (lower_copy s) → IsWord s
unfolding lower_copy
lower_copy-IsWord [] h = tt
lower_copy-IsWord (c ∷ s) (h, hs) = (to_lower-is_space c h, lower_copy-IsWord s hs)

-- `CONNECT`, in letters of either case.
abbrev pub IsConnect : Bytes → Type 0
IsConnect method = lower_copy method ≡ codes "connect"

pub connect-IsWord : (method : Bytes) → IsConnect method → (method ≢ []) × IsWord method
connect-IsWord method h = (
  (λ e. let both = ap lower_copy e in unfold lower_copy in cc),
  lower_copy-IsWord method (
      subst IsWord (sym h)
        (unfold is_space in (refl, (refl, (refl, (refl, (refl, (refl, (refl, tt))))))))),
)

ne-is_empty : (s : Bytes) → s ≢ [] → is_empty s ≡ false
ne-is_empty [] h = absurd (h refl)
ne-is_empty (c ∷ s) h = refl

-- The first line of a request.
abbrev pub request_line : Bytes → Bytes → Bytes → Bytes
request_line method target version = method ++ (b' ' ∷ (target ++ (b' ' ∷ version)))

third_word :
    (version : Bytes) → version ≢ [] → IsWord version → next_word (b' ' ∷ version) ≡ (version, [])
third_word version h w =
    ap (λ t. next_word (b' ' ∷ t)) (sym (append-nil version)) ∙ next_word_behind version [] h w tt

parse_words :
    (line : Bytes) (headers : List Bytes) (leftover method target version r s t : Bytes)
    → next_word line ≡ (method, r)
    → next_word r ≡ (target, s)
    → next_word s ≡ (version, t)
    → method ≢ []
    → target ≢ []
    → version ≢ []
    → IsConnect method
    → parse_lines (line ∷ headers) leftover ≡ connect_request target
unfolding parse_lines
parse_words line headers leftover method target version r s t e1 e2 e3 h1 h2 h3 k =
    rw (e1, e2, e3, ne-is_empty method h1, ne-is_empty target h2, ne-is_empty version h3, k) refl

pub parse_connect :
    (method target version : Bytes) (headers : List Bytes) (leftover : Bytes)
    → IsConnect method
    → target ≢ []
    → IsWord target
    → version ≢ []
    → IsWord version
    → parse_lines (request_line method target version ∷ headers) leftover ≡ connect_request target
parse_connect method target version headers leftover k h w g v =
    let (named, word) = connect-IsWord method k in
    let space : is_space b' ' ≡ true = unfold is_space in refl in
    parse_words (request_line method target version) headers leftover method target version
      (b' ' ∷ (target ++ (b' ' ∷ version))) (b' ' ∷ version) []
      (next_word-append method (b' ' ∷ (target ++ (b' ' ∷ version))) named word space)
      (next_word_behind target (b' ' ∷ version) h w space) (third_word version g v) named h g k

take-past :
    {A : Type 0} (xs ys : List A) (n : ℕ) → take (length xs + n) (xs ++ ys) ≡ xs ++ take n ys
take-past [] ys n = let e : 0 + n ≡ n = omega arith in rw e
take-past (x ∷ xs) ys n =
    let e : suc (length xs) + n ≡ suc (length xs + n) = omega arith in
    rw e (ap (λ t. x ∷ t) (take-past xs ys n))

-- The header without its last four bytes, as `parse_proxy_request` splits it.
abbrev pub cut : Bytes → Bytes
cut raw = let size = length raw in take (if leb 4 size then size - 4 else size) raw

cut_lem :
    (line rest : Bytes)
    → cut (line ++ (b'\r' ∷ b'\n' ∷ (rest ++ crlf)))
      ≡ line ++ take (length rest) (b'\r' ∷ b'\n' ∷ (rest ++ crlf))
cut_lem line rest =
    let raw = line ++ (b'\r' ∷ b'\n' ∷ (rest ++ crlf)) in
    let size : length raw ≡ length line + length rest + 4 =
      omega (arith, length-append line (b'\r' ∷ b'\n' ∷ (rest ++ crlf)), length-append rest crlf) in
    let kept : (if leb 4 (length raw) then length raw - 4 else length raw)
        ≡ length line + length rest =
      ground (arith, size) in
    ap (λ n. take n raw) kept ∙ take-past line _ (length rest)

two_more :
    (header : Bytes) (headers : List Bytes)
    → (m : ℕ) × (length (terminated (header ∷ headers)) ≡ suc (suc m))
unfolding terminated
two_more header headers = (
  length header + length (terminated headers),
  length-append header (b'\r' ∷ b'\n' ∷ terminated headers) ∙ omega arith,
)

-- The first line of a header is the first one that is read.
pub first_line :
    (line : Bytes) (headers : List Bytes)
    → line ≢ []
    → Lacks b'\r' line
    → (rest : List Bytes) × (split_lines (cut (terminated (line ∷ headers) ++ crlf)) ≡ line ∷ rest)
unfolding terminated
first_line line [] h p = (
  [],
  ap (λ t. split_lines (cut t)) (append_assoc line (b'\r' ∷ b'\n' ∷ []) crlf)
      ∙ ap split_lines (cut_lem line [] ∙ append-nil line)
      ∙ split_lines-terminated [] line tt p
      ∙ ap (λ b. if b then [] else line ∷ []) (ne-is_empty line h),
)
first_line line (header ∷ headers) h p =
    let rest = terminated (header ∷ headers) in
    let (m, two) = two_more header headers in
    let behind = take m (rest ++ crlf) in
    (
      split_loop (length (line ++ b'\r' ∷ b'\n' ∷ behind)) behind,
      ap (λ t. split_lines (cut t)) (append_assoc line (b'\r' ∷ b'\n' ∷ rest) crlf)
          ∙ ap split_lines (cut_lem line rest)
          ∙ ap (λ n. split_lines (line ++ take n (b'\r' ∷ b'\n' ∷ (rest ++ crlf)))) two
          ∙ split_lines-first line behind p,
    )

pub read_lines :
    (raw leftover : Bytes) {lines : List Bytes}
    → split_lines (cut raw) ≡ lines
    → parse_proxy_request raw leftover ≡ parse_lines lines leftover
unfolding parse_proxy_request
read_lines raw leftover e = ap (λ lines. parse_lines lines leftover) e
