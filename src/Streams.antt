-- ===== src/Streams.antt =====
-- What both programs keep of their streams: a map from stream ids to shared objects, named by their
-- place in a store (`streams_` in agent/src/agent/main.cpp and agent/src/tunnel/main.cpp).
pub mod Store
use webhook_ops.Common.{
  ℕ, zero, suc, ◌≡◌, refl, ap, Bool, true, false, ◌||◌, Option, none, some, List, [], ◌∷◌, arith,
  length, ◌==◌, if◌then◌else◌, Bool-cases, inl, inr,
}

unfoldable pub lookup : ℕ → List (ℕ × ℕ) → Option ℕ
lookup id [] = none
lookup id ((j, h) ∷ streams) = if j == id then some h else lookup id streams

unfoldable pub erase : ℕ → List (ℕ × ℕ) → List (ℕ × ℕ)
erase id [] = []
erase id ((j, h) ∷ streams) = if j == id then erase id streams else (j, h) ∷ erase id streams

-- Some id leads to the object.
unfoldable pub holds : ℕ → List (ℕ × ℕ) → Bool
holds h [] = false
holds h ((_, k) ∷ streams) = k == h || holds h streams

-- How often a socket was closed.
unfoldable pub count : ℕ → List ℕ → ℕ
count n [] = 0
count n (h ∷ closes) = if n == h then suc (count n closes) else count n closes

pub lookup-erase :
    (id j : ℕ) (streams : List (ℕ × ℕ))
    → lookup j (erase id streams) ≡ (if j == id then none else lookup j streams)
unfolding lookup erase
lookup-erase id j [] = ground arith
lookup-erase id j ((k, h) ∷ streams) = ground (arith, lookup-erase id j streams)

pub holds-erase :
    (h id : ℕ) (streams : List (ℕ × ℕ))
    → holds h streams ≡ false
    → holds h (erase id streams) ≡ false
unfolding holds erase
holds-erase h id [] e = refl
holds-erase h id ((k, j) ∷ streams) e = ground (arith, holds-erase h id streams)
