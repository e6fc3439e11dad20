-- ===== src/Streams/Store.antt =====
-- A store of objects that are changed in place, and a flag of each object.
use mathlib.Core.Option
use webhook_ops.Common.{
  ℕ, zero, suc, ◌≡◌, refl, ap, Bool, true, false, List, [], ◌∷◌, ◌++◌, arith, length, ◌==◌,
  if◌then◌else◌, ◌<◌, some, get_elem?, ◌⊎◌, inl, inr, not, Bool-cases,
}

module _ {ℓ} {A : Type ℓ} where
  unfoldable pub modify : ℕ → (A → A) → List A → List A
  modify h f [] = []
  modify zero f (x ∷ xs) = f x ∷ xs
  modify (suc h) f (x ∷ xs) = x ∷ modify h f xs

  -- The flag of an object that is there.
  unfoldable pub flag : (A → Bool) → ℕ → List A → Bool
  flag p h [] = false
  flag p zero (x ∷ xs) = p x
  flag p (suc h) (x ∷ xs) = flag p h xs

  pub flag-modify_same :
      (p : A → Bool) (f : A → A)
      → ((x : A) → p (f x) ≡ p x)
      → (n h : ℕ) (xs : List A) → flag p n (modify h f xs) ≡ flag p n xs
  unfolding flag modify
  flag-modify_same p f same n h [] = refl
  flag-modify_same p f same zero zero (x ∷ xs) = same x
  flag-modify_same p f same zero (suc h) (x ∷ xs) = refl
  flag-modify_same p f same (suc n) zero (x ∷ xs) = refl
  flag-modify_same p f same (suc n) (suc h) (x ∷ xs) = flag-modify_same p f same n h xs

  pub flag-modify_ne :
      (p : A → Bool) (f : A → A) (n h : ℕ) (xs : List A)
      → (n == h) ≡ false
      → flag p n (modify h f xs) ≡ flag p n xs
  unfolding flag modify
  flag-modify_ne p f n h [] e = refl
  flag-modify_ne p f zero zero (x ∷ xs) e = absurd (ground arith)
  flag-modify_ne p f zero (suc h) (x ∷ xs) e = refl
  flag-modify_ne p f (suc n) zero (x ∷ xs) e = refl
  flag-modify_ne p f (suc n) (suc h) (x ∷ xs) e = flag-modify_ne p f n h xs (ground arith)

  pub flag-append :
      (p : A → Bool) (n : ℕ) (xs : List A) (x : A)
      → flag p n (xs ++ x ∷ []) ≡ (if n == length xs then p x else flag p n xs)
  unfolding flag
  flag-append p zero [] x = ground arith
  flag-append p (suc n) [] x = ground arith
  flag-append p zero (y ∷ xs) x = ground arith
  flag-append p (suc n) (y ∷ xs) x = ground (arith, flag-append p n xs x)

  -- A change that may only clear the flag, and one that may only set it.
  pub flag-modify_le :
      (p : A → Bool) (f : A → A)
      → ((x : A) → p (f x) ≡ true → p x ≡ true)
      → (n h : ℕ) (xs : List A) → flag p n (modify h f xs) ≡ true
      → flag p n xs ≡ true
  unfolding flag modify
  flag-modify_le p f le n h [] e = e
  flag-modify_le p f le zero zero (x ∷ xs) e = le x e
  flag-modify_le p f le zero (suc h) (x ∷ xs) e = e
  flag-modify_le p f le (suc n) zero (x ∷ xs) e = e
  flag-modify_le p f le (suc n) (suc h) (x ∷ xs) e = flag-modify_le p f le n h xs e

  pub flag-modify_ge :
      (p : A → Bool) (f : A → A)
      → ((x : A) → p x ≡ true → p (f x) ≡ true)
      → (n h : ℕ) (xs : List A) → flag p n xs ≡ true
      → flag p n (modify h f xs) ≡ true
  unfolding flag modify
  flag-modify_ge p f ge n h [] e = e
  flag-modify_ge p f ge zero zero (x ∷ xs) e = ge x e
  flag-modify_ge p f ge zero (suc h) (x ∷ xs) e = e
  flag-modify_ge p f ge (suc n) zero (x ∷ xs) e = e
  flag-modify_ge p f ge (suc n) (suc h) (x ∷ xs) e = flag-modify_ge p f ge n h xs e

  -- The object that is changed.
  pub flag-modify_self :
      (q p : A → Bool) (f : A → A)
      → ((x : A) → q x ≡ true → p (f x) ≡ true)
      → (h : ℕ) (xs : List A) → flag q h xs ≡ true
      → flag p h (modify h f xs) ≡ true
  unfolding flag modify
  flag-modify_self q p f step h [] e = cc
  flag-modify_self q p f step zero (x ∷ xs) e = step x e
  flag-modify_self q p f step (suc h) (x ∷ xs) e = flag-modify_self q p f step h xs e

  -- One flag of an object gives another.
  pub flag-imp :
      (q p : A → Bool)
      → ((x : A) → q x ≡ true → p x ≡ true)
      → (h : ℕ) (xs : List A) → flag q h xs ≡ true
      → flag p h xs ≡ true
  unfolding flag
  flag-imp q p step h [] e = cc
  flag-imp q p step zero (x ∷ xs) e = step x e
  flag-imp q p step (suc h) (x ∷ xs) e = flag-imp q p step h xs e

  pub flag-not :
      (p q : A → Bool)
      → ((x : A) → q x ≡ true → p x ≡ false)
      → (h : ℕ) (xs : List A) → flag q h xs ≡ true
      → flag p h xs ≡ false
  unfolding flag
  flag-not p q step h [] e = refl
  flag-not p q step zero (x ∷ xs) e = step x e
  flag-not p q step (suc h) (x ∷ xs) e = flag-not p q step h xs e

  pub flag-bound : (p : A → Bool) (n : ℕ) (xs : List A) → flag p n xs ≡ true → n < length xs
  unfolding flag
  flag-bound p n [] e = absurd (cc)
  flag-bound p zero (x ∷ xs) e = omega arith
  flag-bound p (suc n) (x ∷ xs) e = omega (arith, flag-bound p n xs e)

  pub flag-get_elem? :
      (p : A → Bool) (n : ℕ) (xs : List A) {x : A} → get_elem? xs n ≡ some x → flag p n xs ≡ p x
  unfolding flag
  flag-get_elem? p n [] e = absurd (cc)
  flag-get_elem? p zero (y ∷ xs) e = ap p (unwrap e)
    where
      unwrap : {y x : A} → some y ≡ some x → y ≡ x
      unwrap e = cc
  flag-get_elem? p (suc n) (y ∷ xs) e = flag-get_elem? p n xs e

  pub flag-either :
      (q p : A → Bool) (h : ℕ) (xs : List A)
      → flag q h xs ≡ true
      → (flag p h xs ≡ true) ⊎ (flag (λ x. not (p x)) h xs ≡ true)
  unfolding flag
  flag-either q p h [] e = cc
  flag-either q p zero (x ∷ xs) e = elim (Bool-cases (p x)) [
    | inl yes_p ↦ inl yes_p
    | inr no_p ↦ inr (ap not no_p)
  ]
  flag-either q p (suc h) (x ∷ xs) e = flag-either q p h xs e

  pub flag-append_ge :
      (p : A → Bool) (n : ℕ) (xs : List A) (x : A)
      → flag p n xs ≡ true
      → flag p n (xs ++ x ∷ []) ≡ true
  unfolding flag
  flag-append_ge p n [] x e = cc
  flag-append_ge p zero (y ∷ xs) x e = e
  flag-append_ge p (suc n) (y ∷ xs) x e = flag-append_ge p n xs x e

  pub get_elem?-modify :
      (h : ℕ) (f : A → A) (xs : List A) {x : A}
      → get_elem? xs h ≡ some x
      → get_elem? (modify h f xs) h ≡ some (f x)
  unfolding modify
  get_elem?-modify h f [] e = cc
  get_elem?-modify zero f (y ∷ xs) e = ap (Option.map f) e
  get_elem?-modify (suc h) f (y ∷ xs) e = get_elem?-modify h f xs e
