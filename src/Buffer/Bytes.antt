-- ===== src/Buffer/Bytes.antt =====
-- Lists that are cut and put together: what the proofs about src/buffer.c need of them.
use jega.Base.{
  length, take, drop, ℕ, zero, suc, ◌+◌, ◌≤◌, ◌≡◌, refl, ap, some, List, [], ◌∷◌, ◌++◌, map, arith,
}

module _ {ℓ} {A : Type ℓ} where
  pub length-map-some : (xs : List A) → length (map some xs) ≡ length xs
  length-map-some [] = refl
  length-map-some (x ∷ xs) = ap suc (length-map-some xs)

  pub take-full : (n : ℕ) (xs : List A) → length xs ≤ n → take n xs ≡ xs
  take-full zero [] h = refl
  take-full (suc n) [] h = refl
  take-full zero (x ∷ xs) h = absurd (omega arith)
  take-full (suc n) (x ∷ xs) h = ap (λ ys. x ∷ ys) (take-full n xs (omega arith))

  pub take-past :
      (m n : ℕ) (xs ys : List A) → m ≡ length xs + n → take m (xs ++ ys) ≡ xs ++ take n ys
  take-past m n [] ys e = ap (λ k. take k ys) (omega arith)
  take-past zero n (x ∷ xs) ys e = absurd (omega arith)
  take-past (suc m) n (x ∷ xs) ys e = ap (λ zs. x ∷ zs) (take-past m n xs ys (omega arith))

  pub take-front : (m : ℕ) (xs ys : List A) → m ≡ length xs → take m (xs ++ ys) ≡ xs
  take-front zero [] ys e = refl
  take-front (suc m) [] ys e = absurd (omega arith)
  take-front zero (x ∷ xs) ys e = absurd (omega arith)
  take-front (suc m) (x ∷ xs) ys e = ap (λ zs. x ∷ zs) (take-front m xs ys (omega arith))

  pub drop-past : (m n : ℕ) (xs ys : List A) → m ≡ length xs + n → drop m (xs ++ ys) ≡ drop n ys
  drop-past m n [] ys e = ap (λ k. drop k ys) (omega arith)
  drop-past zero n (x ∷ xs) ys e = absurd (omega arith)
  drop-past (suc m) n (x ∷ xs) ys e = drop-past m n xs ys (omega arith)

  pub map-some-append : (xs ys : List A) → map some (xs ++ ys) ≡ map some xs ++ map some ys
  map-some-append [] ys = refl
  map-some-append (x ∷ xs) ys = ap (λ zs. some x ∷ zs) (map-some-append xs ys)

  pub length-drop : (n : ℕ) (xs : List A) → n ≤ length xs → length (drop n xs) + n ≡ length xs
  length-drop zero xs h = omega arith
  length-drop (suc n) [] h = absurd (omega arith)
  length-drop (suc n) (x ∷ xs) h = omega (arith, length-drop n xs (omega arith))
