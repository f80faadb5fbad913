-- ===== src/Base/Counting.antt =====
-- Counting the elements of a list that pass a test, and reading a list behind an append.
use xcm.Base.{
  ℕ, zero, suc, ◌+◌, ◌≡◌, ◌≢◌, ap, ◌≤◌, ◌<◌, ◌⊎◌, inl, inr, refl, Bool, true, false, some, List, [],
  ◌∷◌, ◌++◌, arith, if◌then◌else◌, length, set, get_elem?, replicate,
}

module _ {ℓ} {A : Type ℓ} where
  abbrev pub count : (A → Bool) → List A → ℕ
  count p [] = 0
  count p (x ∷ xs) = (if p x then 1 else 0) + count p xs

  pub count-le-length : (p : A → Bool) (xs : List A) → count p xs ≤ length xs
  count-le-length p [] = omega arith
  count-le-length p (x ∷ xs) = ground (arith, count-le-length p xs)

  pub count-set :
      (p : A → Bool) (xs : List A) (i : ℕ) (x v : A)
      → get_elem? xs i ≡ some x
      → count p (set xs i v) + (if p x then 1 else 0) ≡ count p xs + (if p v then 1 else 0)
  count-set p [] i x v h = cc
  count-set p (y ∷ xs) zero x v h = ground arith
  count-set p (y ∷ xs) (suc i) x v h = ground (arith, count-set p xs i x v h)

  pub count-append : (p : A → Bool) (xs ys : List A) → count p (xs ++ ys) ≡ count p xs + count p ys
  count-append p [] ys = omega arith
  count-append p (x ∷ xs) ys = ground (arith, count-append p xs ys)

  pub count-replicate : (p : A → Bool) (n : ℕ) (x : A) → p x ≡ false → count p (replicate n x) ≡ 0
  count-replicate p zero x h = refl
  count-replicate p (suc n) x h = ground (arith, count-replicate p n x h)

  -- If no element fails the test, all are counted.
  pub count_all :
      (p : A → Bool) (xs : List A)
      → ((i : ℕ) (x : A) → get_elem? xs i ≡ some x → p x ≡ true)
      → count p xs ≡ length xs
  count_all p [] h = refl
  count_all p (x ∷ xs) h = ground (arith, h 0 x refl, count_all p xs (λ i y e. h (suc i) y e))

  pub get_elem?-lt : (xs : List A) (i : ℕ) (x : A) → get_elem? xs i ≡ some x → i < length xs
  get_elem?-lt [] i x h = cc
  get_elem?-lt (y ∷ xs) zero x h = omega arith
  get_elem?-lt (y ∷ xs) (suc i) x h = omega (arith, get_elem?-lt xs i x h)

  pub get_elem?-replicate : (n i : ℕ) (x y : A) → get_elem? (replicate n x) i ≡ some y → x ≡ y
  get_elem?-replicate zero i x y h = cc
  get_elem?-replicate (suc n) zero x y h = cc
  get_elem?-replicate (suc n) (suc i) x y h = get_elem?-replicate n i x y h

  pub get_elem?-append_left :
      (xs ys : List A) (i : ℕ) (x : A) → get_elem? xs i ≡ some x → get_elem? (xs ++ ys) i ≡ some x
  get_elem?-append_left [] ys i x h = cc
  get_elem?-append_left (y ∷ xs) ys zero x h = h
  get_elem?-append_left (y ∷ xs) ys (suc i) x h = get_elem?-append_left xs ys i x h

  -- What stands behind an append of copies was there before, or is a copy.
  pub get_elem?-extend :
      (xs : List A) (n i : ℕ) (x y : A)
      → get_elem? (xs ++ replicate n x) i ≡ some y
      → (get_elem? xs i ≡ some y) ⊎ (x ≡ y)
  get_elem?-extend [] n i x y h = inr (get_elem?-replicate n i x y h)
  get_elem?-extend (z ∷ xs) n zero x y h = inl h
  get_elem?-extend (z ∷ xs) n (suc i) x y h = get_elem?-extend xs n i x y h

  pub get_elem?-extend_at :
      (xs : List A) (n : ℕ) (x : A) → 0 < n → get_elem? (xs ++ replicate n x) (length xs) ≡ some x
  get_elem?-extend_at [] zero x h = elim h [ ]
  get_elem?-extend_at [] (suc n) x h = refl
  get_elem?-extend_at (y ∷ xs) n x h = get_elem?-extend_at xs n x h

  -- What a list holds after a write is the value written or was there.
  pub get_elem?-set_cases :
      (xs : List A) (i j : ℕ) (v x : A)
      → get_elem? (set xs i v) j ≡ some x
      → ((j ≡ i) × (x ≡ v)) ⊎ ((j ≢ i) × (get_elem? xs j ≡ some x))
  get_elem?-set_cases [] i j v x h = cc
  get_elem?-set_cases (y ∷ xs) zero zero v x h = inl (refl, cc)
  get_elem?-set_cases (y ∷ xs) zero (suc j) v x h = inr ((λ e. absurd (omega arith)), h)
  get_elem?-set_cases (y ∷ xs) (suc i) zero v x h = inr ((λ e. absurd (omega arith)), h)
  get_elem?-set_cases (y ∷ xs) (suc i) (suc j) v x h = elim (get_elem?-set_cases xs i j v x h) [
    | inl (p, q) ↦ inl (ap suc p, q)
    | inr (p, q) ↦ inr ((λ e. p (omega arith)), q)
  ]
