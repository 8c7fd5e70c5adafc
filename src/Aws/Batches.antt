-- ===== src/Aws/Batches.antt =====
-- Go's `slices.Chunk`.
use openshift_karpenter_oper.Base.{
  ℕ, zero, suc, ◌-◌, ◌≤◌, ◌<◌, ◌≡◌, refl, List, [], ◌∷◌, ◌++◌, arith, length, All,
}

module _ {ℓ} {A : Type ℓ} where
  abbrev pub take : ℕ → List A → List A
  take zero xs = []
  take (suc n) [] = []
  take (suc n) (x ∷ xs) = x ∷ take n xs

  abbrev pub drop : ℕ → List A → List A
  drop zero xs = xs
  drop (suc n) [] = []
  drop (suc n) (x ∷ xs) = drop n xs

  abbrev pub concat : List (List A) → List A
  concat [] = []
  concat (xs ∷ xss) = xs ++ concat xss

  chunk_rounds : ℕ → ℕ → List A → List (List A)
  chunk_rounds zero n xs = []
  chunk_rounds (suc rounds) n [] = []
  chunk_rounds (suc rounds) n (x ∷ xs) = take n (x ∷ xs) ∷ chunk_rounds rounds n (drop n (x ∷ xs))

  -- Every chunk takes an element at least, so as many rounds as there are elements are enough.
  unfoldable pub chunk : ℕ → List A → List (List A)
  unfolding chunk_rounds
  chunk n xs = chunk_rounds (length xs) n xs

  take-append-drop : (n : ℕ) (xs : List A) → take n xs ++ drop n xs ≡ xs
  take-append-drop zero xs = refl
  take-append-drop (suc n) [] = refl
  take-append-drop (suc n) (x ∷ xs) = rw (take-append-drop n xs)

  length-take-le : (n : ℕ) (xs : List A) → length (take n xs) ≤ n
  length-take-le zero xs = omega arith
  length-take-le (suc n) [] = omega arith
  length-take-le (suc n) (x ∷ xs) = omega (arith, length-take-le n xs)

  length-drop : (n : ℕ) (xs : List A) → length (drop n xs) ≡ length xs - n
  length-drop zero xs = omega arith
  length-drop (suc n) [] = omega arith
  length-drop (suc n) (x ∷ xs) = omega (arith, length-drop n xs)

  chunk_rounds-concat :
      (rounds n : ℕ) (xs : List A)
      → length xs ≤ rounds
      → concat (chunk_rounds rounds (suc n) xs) ≡ xs
  unfolding chunk_rounds
  chunk_rounds-concat zero n [] h = refl
  chunk_rounds-concat zero n (x ∷ xs) h = elim h [ ]
  chunk_rounds-concat (suc rounds) n [] h = refl
  chunk_rounds-concat (suc rounds) n (x ∷ xs) h =
      rw (chunk_rounds-concat rounds n (drop n xs) (omega (arith, length-drop n xs)))
        (rw (take-append-drop n xs))

  -- The chunks together are the list, in order.
  pub chunk-concat : (n : ℕ) (xs : List A) → concat (chunk (suc n) xs) ≡ xs
  unfolding chunk
  chunk-concat n xs = chunk_rounds-concat (length xs) n xs (omega arith)

  chunk_rounds-All :
      (rounds n : ℕ) (xs : List A)
      → All (λ ys. (0 < length ys) × (length ys ≤ suc n)) (chunk_rounds rounds (suc n) xs)
  unfolding chunk_rounds
  chunk_rounds-All zero n xs = tt
  chunk_rounds-All (suc rounds) n [] = tt
  chunk_rounds-All (suc rounds) n (x ∷ xs) =
      ((omega arith, omega (arith, length-take-le n xs)), chunk_rounds-All rounds n (drop n xs))

  -- No chunk is empty, and none is longer than the size asked for.
  pub chunk-All :
      (n : ℕ) (xs : List A) → All (λ ys. (0 < length ys) × (length ys ≤ suc n)) (chunk (suc n) xs)
  unfolding chunk
  chunk-All n xs = chunk_rounds-All (length xs) n xs
