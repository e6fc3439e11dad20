-- ===== src/Text/Trim.antt =====
-- `trim_copy` keeps a text with no space at its ends, and is idempotent.
use webhook_ops.Common.{
  ℕ, ◌≤◌, ◌≡◌, ◌≢◌, refl, ap, ◌∙◌, false, [], ◌∷◌, ◌++◌, arith, Bytes, length, is_empty, ◌&&◌,
  Bool-cases, inl, inr,
}
use webhook_ops.Stdlib.{is_space, skip_spaces}
use webhook_ops.Text.{trim_end, trim_copy}

length-skip_spaces-le : (s : Bytes) → length (skip_spaces s) ≤ length s
unfolding skip_spaces
length-skip_spaces-le [] = omega arith
length-skip_spaces-le (c ∷ s) = ground (arith, length-skip_spaces-le s)

-- A text that begins with no space.
pub first_not_space : (c : ℕ) (s : Bytes) → skip_spaces (c ∷ s) ≡ c ∷ s → is_space c ≡ false
first_not_space c s h = elim (Bool-cases (is_space c)) [
  | inl space ↦
      let e : skip_spaces s ≡ c ∷ s = unfold skip_spaces in (ground arith) in
      absurd (omega (arith, ap length e, length-skip_spaces-le s))
  | inr other ↦ other
]

pub skip_spaces-not_space : (c : ℕ) (s : Bytes) → is_space c ≡ false → skip_spaces (c ∷ s) ≡ c ∷ s
unfolding skip_spaces
skip_spaces-not_space c s h = rw h

is_empty-append : (s t : Bytes) → t ≢ [] → is_empty (s ++ t) ≡ false
is_empty-append [] [] h = absurd (h refl)
is_empty-append [] (c ∷ t) h = refl
is_empty-append (c ∷ s) t h = refl

-- The end of a text decides what is trimmed there.
pub trim_end-append : (s t : Bytes) → trim_end t ≡ t → t ≢ [] → trim_end (s ++ t) ≡ s ++ t
unfolding trim_end
trim_end-append [] t h k = h
trim_end-append (c ∷ s) t h k = rw (trim_end-append s t h k, is_empty-append s t k)

pub trim_end-cons :
    (c : ℕ) (s : Bytes) → is_space c ≡ false → trim_end s ≡ s → trim_end (c ∷ s) ≡ c ∷ s
unfolding trim_end
trim_end-cons c s h k = rw k (ground arith)

trim_end_idempotent : (s : Bytes) → trim_end (trim_end s) ≡ trim_end s
unfolding trim_end
trim_end_idempotent [] = refl
trim_end_idempotent (c ∷ s) = elim (Bool-cases (is_empty (trim_end s) && is_space c)) [
  | inl dropped ↦ rw dropped
  | inr kept ↦ rw (kept, trim_end_idempotent s, kept)
]

skip_spaces_idempotent : (s : Bytes) → skip_spaces (skip_spaces s) ≡ skip_spaces s
unfolding skip_spaces
skip_spaces_idempotent [] = refl
skip_spaces_idempotent (c ∷ s) = elim (Bool-cases (is_space c)) [
  | inl space ↦ rw space (skip_spaces_idempotent s)
  | inr other ↦ rw (other, other)
]

skip_spaces-trim_end : (s : Bytes) → skip_spaces s ≡ s → skip_spaces (trim_end s) ≡ trim_end s
skip_spaces-trim_end [] h = unfold trim_end skip_spaces in refl
skip_spaces-trim_end (c ∷ s) h =
    let other = first_not_space c s h in
    let kept : trim_end (c ∷ s) ≡ c ∷ trim_end s = unfold trim_end in ground arith in
    rw kept (skip_spaces-not_space c (trim_end s) other)

-- A trimmed text is not changed by trimming it again.
trim_copy_idempotent : (s : Bytes) → trim_copy (trim_copy s) ≡ trim_copy s
unfolding trim_copy
trim_copy_idempotent s =
    ap trim_end (skip_spaces-trim_end (skip_spaces s) (skip_spaces_idempotent s))
    ∙ trim_end_idempotent (skip_spaces s)
