-- ===== src/Run/Tail.antt =====
-- The last elements of a list, as `slice(-n)` takes them.
use cronova.Base.{
  ℕ, zero, suc, ◌+◌, ◌-◌, ◌≤◌, ◌≡◌, refl, sym, ap, ◌∙◌, List, [], ◌∷◌, ◌++◌, length, drop,
  length-append, arith,
}

module _ {ℓ} {A : Type ℓ} where
  -- `xs.slice(-n)`, for a positive `n`
  unfoldable pub last_of : ℕ → List A → List A
  last_of n xs = drop (length xs - n) xs

  length-drop : (k : ℕ) (xs : List A) → length (drop k xs) ≡ length xs - k
  length-drop zero xs = omega arith
  length-drop (suc k) [] = omega arith
  length-drop (suc k) (x ∷ xs) = omega (arith, length-drop k xs)

  drop-append : (k : ℕ) (xs ys : List A) → k ≤ length xs → drop k (xs ++ ys) ≡ drop k xs ++ ys
  drop-append zero xs ys h = refl
  drop-append (suc k) [] ys h = absurd (omega arith)
  drop-append (suc k) (x ∷ xs) ys h = drop-append k xs ys (omega arith)

  drop-nil : (k : ℕ) → drop {A = A} k [] ≡ []
  drop-nil zero = refl
  drop-nil (suc k) = refl

  drop-drop : (j k : ℕ) (xs : List A) → drop j (drop k xs) ≡ drop (k + j) xs
  drop-drop j zero xs = let e : 0 + j ≡ j = omega arith in rw e refl
  drop-drop j (suc k) [] = drop-nil j ∙ sym (drop-nil (suc k + j))
  drop-drop j (suc k) (x ∷ xs) =
      let e : suc k + j ≡ suc (k + j) = omega arith in rw e (drop-drop j k xs)

  pub length-last_of : (n : ℕ) (xs : List A) → length (last_of n xs) ≤ n
  unfolding last_of
  length-last_of n xs = omega (arith, length-drop (length xs - n) xs)

  pub length-last_of-long : (n : ℕ) (xs : List A) → n ≤ length xs → length (last_of n xs) ≡ n
  unfolding last_of
  length-last_of-long n xs h = omega (arith, length-drop (length xs - n) xs)

  pub last_of-short : (n : ℕ) (xs : List A) → length xs ≤ n → last_of n xs ≡ xs
  unfolding last_of
  last_of-short n xs h = let e : length xs - n ≡ 0 = omega arith in rw e refl

  -- What falls out before an element comes in does not matter.
  pub last_of-snoc :
      (n : ℕ) (xs : List A) (x : A) → last_of n (last_of n xs ++ x ∷ []) ≡ last_of n (xs ++ x ∷ [])
  unfolding last_of
  last_of-snoc n xs x =
      let k : ℕ = length xs - n in
      let rest : List A = drop k xs ++ x ∷ [] in
      let inner : drop k (xs ++ x ∷ []) ≡ rest = drop-append k xs (x ∷ []) (omega arith) in
      ap (λ r. drop (length rest - n) r) (sym inner)
      ∙ drop-drop (length rest - n) k (xs ++ x ∷ [])
      ∙ ap (λ j. drop j (xs ++ x ∷ []))
          (omega (
            arith,
            length-append (drop k xs) (x ∷ []),
            length-append xs (x ∷ []),
            length-drop k xs,
          ))
