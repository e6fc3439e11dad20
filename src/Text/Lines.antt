-- ===== src/Text/Lines.antt =====
-- `split_lines` of agent/src/tunnel/main.cpp gives back the lines that were ended by CR LF.
use webhook_ops.Common.{
  ℕ, zero, suc, ◌+◌, ◌<◌, ◌≡◌, refl, ap, ap₂, ◌∙◌, none, some, List, [], ◌∷◌, ◌++◌, append_assoc,
  arith, Bytes, Lacks, All, length, length-append, take, drop, take-append, is_empty, if◌then◌else◌,
}
use webhook_ops.Stdlib.{find_crlf}
use webhook_ops.Text.{split_loop, split_lines}

abbrev pub crlf : Bytes
crlf = b'\r' ∷ b'\n' ∷ []

-- Each line with its end.
unfoldable pub terminated : List Bytes → Bytes
terminated [] = []
terminated (line ∷ lines) = line ++ (b'\r' ∷ b'\n' ∷ terminated lines)

abbrev unless_empty : Bytes → List Bytes
unless_empty s = if is_empty s then [] else s ∷ []

find_crlf-append :
    (s rest : Bytes) → Lacks b'\r' s → find_crlf (s ++ b'\r' ∷ b'\n' ∷ rest) ≡ some (length s)
unfolding find_crlf
find_crlf-append [] rest h = refl
find_crlf-append (c ∷ s) rest (h, hs) = ground (arith, find_crlf-append s rest hs)

find_crlf-none : (s : Bytes) → Lacks b'\r' s → find_crlf s ≡ none
unfolding find_crlf
find_crlf-none [] h = refl
find_crlf-none (c ∷ s) (h, hs) = ground (arith, find_crlf-none s hs)

drop-line : (s rest : Bytes) (a b : ℕ) → drop (length s + 2) (s ++ a ∷ b ∷ rest) ≡ rest
drop-line [] rest a b = refl
drop-line (c ∷ s) rest a b =
    let e : suc (length s) + 2 ≡ suc (length s + 2) = omega arith in rw e (drop-line s rest a b)

split_step :
    (rounds : ℕ) (t : Bytes) {n : ℕ}
    → find_crlf t ≡ some n
    → split_loop (suc rounds) t ≡ take n t ∷ split_loop rounds (drop (n + 2) t)
unfolding split_loop
split_step rounds t e = rw (e, split_loop)

split_loop-terminated :
    (rounds : ℕ) (lines : List Bytes) (last : Bytes)
    → length (terminated lines ++ last) < rounds
    → All (Lacks b'\r') lines
    → Lacks b'\r' last
    → split_loop rounds (terminated lines ++ last) ≡ lines ++ unless_empty last
unfolding split_loop terminated
split_loop-terminated zero lines last h p q = absurd (omega arith)
split_loop-terminated (suc rounds) [] last h p q = rw (find_crlf-none last q, split_loop)
split_loop-terminated (suc rounds) (line ∷ lines) last h (p, ps) q =
    let text : (line ++ (b'\r' ∷ b'\n' ∷ terminated lines)) ++ last
        ≡ line ++ (b'\r' ∷ b'\n' ∷ (terminated lines ++ last)) =
      append_assoc line (b'\r' ∷ b'\n' ∷ terminated lines) last in
    let rest = terminated lines ++ last in
    ap (split_loop (suc rounds)) text
    ∙ split_step rounds _ (find_crlf-append line rest p)
    ∙ ap₂ (λ l t. l ∷ split_loop rounds t) (take-append line (b'\r' ∷ b'\n' ∷ rest))
        (drop-line line rest b'\r' b'\n')
    ∙ ap (λ ls. line ∷ ls)
        (split_loop-terminated rounds lines last
          (omega (arith, ap length text, length-append line (b'\r' ∷ b'\n' ∷ rest))) ps q)

-- The first line that is ended is the first line read, whatever is behind it.
pub split_lines-first :
    (line rest : Bytes)
    → Lacks b'\r' line
    → split_lines (line ++ b'\r' ∷ b'\n' ∷ rest)
      ≡ line ∷ split_loop (length (line ++ b'\r' ∷ b'\n' ∷ rest)) rest
unfolding split_lines
split_lines-first line rest p =
    let text = line ++ b'\r' ∷ b'\n' ∷ rest in
    let rounds : length text + 1 ≡ suc (length text) = omega arith in
    ap (λ n. split_loop n text) rounds
    ∙ split_step (length text) text (find_crlf-append line rest p)
    ∙ ap₂ (λ l t. l ∷ split_loop (length text) t) (take-append line (b'\r' ∷ b'\n' ∷ rest))
        (drop-line line rest b'\r' b'\n')

-- Lines with no carriage return in them come back, and a last one without an end if it is not empty.
pub split_lines-terminated :
    (lines : List Bytes) (last : Bytes)
    → All (Lacks b'\r') lines
    → Lacks b'\r' last
    → split_lines (terminated lines ++ last) ≡ lines ++ (if is_empty last then [] else last ∷ [])
unfolding split_lines
split_lines-terminated lines last p q = split_loop-terminated _ lines last (omega arith) p q
