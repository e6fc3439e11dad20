-- ===== src/Text.antt =====
-- The string helpers that each file of agent/src has a copy of: `trim_copy`, `lower_copy`,
-- `starts_with_ci`, and `split_lines` of agent/src/tunnel/main.cpp.
pub mod Trim
pub mod Lines
use webhook_ops.Common.{
  ℕ, zero, suc, ◌+◌, ◌≡◌, refl, Bool, true, false, ◌&&◌, Option, none, some, List, [], ◌∷◌, Bytes,
  codes, length, take, drop, ltb, eqb, is_empty, if◌then◌else◌,
}
use webhook_ops.Stdlib.{is_space, to_lower, skip_spaces, find_crlf}

-- `end` moves to the left over spaces; what stands before it is kept.
unfoldable pub trim_end : Bytes → Bytes
unfolding is_space
trim_end [] = []
trim_end (c ∷ s) = let kept = trim_end s in if is_empty kept && is_space c then [] else c ∷ kept

unfoldable pub trim_copy : Bytes → Bytes
unfolding skip_spaces trim_end
trim_copy value = trim_end (skip_spaces value)

unfoldable pub lower_copy : Bytes → Bytes
unfolding to_lower
lower_copy [] = []
lower_copy (c ∷ s) = to_lower c ∷ lower_copy s

unfoldable pub starts_with_ci : Bytes → Bytes → Bool
unfolding lower_copy
starts_with_ci value prefix =
    if ltb (length value) (length prefix)
    then false
    else eqb (lower_copy (take (length prefix) value)) (lower_copy prefix)

-- The loop of `split_lines` over what stands from `pos` on. Each round that goes on passes two bytes
-- at least, so a round for each byte and one more are enough.
unfoldable pub split_loop : ℕ → Bytes → List Bytes
unfolding find_crlf
split_loop zero rest = []
split_loop (suc rounds) rest = elim (find_crlf rest) [
  | none ↦ if is_empty rest then [] else rest ∷ []
  | some next ↦ take next rest ∷ split_loop rounds (drop (next + 2) rest)
]

unfoldable pub split_lines : Bytes → List Bytes
unfolding split_loop
split_lines value = split_loop (length value + 1) value

runs :
    (trim_copy (codes "  a b ") ≡ codes "a b")
    × (lower_copy (codes "Host:") ≡ codes "host:")
    × (starts_with_ci (codes "HOST: x") (codes "host:") ≡ true)
    × (split_lines (codes "ab\r\n\r\nc") ≡ codes "ab" ∷ [] ∷ codes "c" ∷ [])
    × (split_lines (codes "ab\r\n") ≡ codes "ab" ∷ [])
unfolding trim_copy starts_with_ci split_lines
runs = (refl, refl, refl, refl, refl)
