-- ===== src/Common/Slices.antt =====
-- Prefixes, suffixes and block copies of arrays.
use Prim.Native.Nat.{ℕ, zero, suc, ◌+◌, ◌-◌, ◌≤◌}
use mathlib.Core.Path.{◌≡◌, refl, sym, ap, ◌∙◌}
use mathlib.Core.List.{List, [], ◌∷◌, ◌++◌, append-nil}
use native.Mathlib.Omega.{arith}
use otus_c_2025_3_kushko.Common.Lists.{length, take, drop, length-append, length-take, length-drop}

module _ {ℓ} {A : Type ℓ} where
  -- memcpy(xs + i, bs, length bs), where the block lies inside the array.
  unfoldable pub blit : List A → ℕ → List A → List A
  blit xs i bs = take i xs ++ (bs ++ drop (i + length bs) xs)

  pub nil_of_length : (xs : List A) → length xs ≡ 0 → xs ≡ []
  nil_of_length [] e = refl
  nil_of_length (x ∷ xs) e = absurd (omega arith)

  pub take-all : (n : ℕ) (xs : List A) → length xs ≤ n → take n xs ≡ xs
  take-all zero [] h = refl
  take-all zero (x ∷ xs) h = absurd (omega arith)
  take-all (suc n) [] h = refl
  take-all (suc n) (x ∷ xs) h = ap (λ t. x ∷ t) (take-all n xs (omega arith))

  pub drop-all : (n : ℕ) (xs : List A) → length xs ≤ n → drop n xs ≡ []
  drop-all zero [] h = refl
  drop-all zero (x ∷ xs) h = absurd (omega arith)
  drop-all (suc n) [] h = refl
  drop-all (suc n) (x ∷ xs) h = drop-all n xs (omega arith)

  pub take-append_le : (n : ℕ) (xs ys : List A) → n ≤ length xs → take n (xs ++ ys) ≡ take n xs
  take-append_le zero xs ys h = refl
  take-append_le (suc n) [] ys h = absurd (omega arith)
  take-append_le (suc n) (x ∷ xs) ys h = ap (λ t. x ∷ t) (take-append_le n xs ys (omega arith))

  pub take-append_ge :
      (n : ℕ) (xs ys : List A) → length xs ≤ n → take n (xs ++ ys) ≡ xs ++ take (n - length xs) ys
  take-append_ge n [] ys h = ap (λ k. take k ys) (omega arith)
  take-append_ge zero (x ∷ xs) ys h = absurd (omega arith)
  take-append_ge (suc n) (x ∷ xs) ys h =
      ap (λ t. x ∷ t)
        (take-append_ge n xs ys (omega arith) ∙ ap (λ k. xs ++ take k ys) (omega arith))

  pub drop-append_le :
      (n : ℕ) (xs ys : List A) → n ≤ length xs → drop n (xs ++ ys) ≡ drop n xs ++ ys
  drop-append_le zero xs ys h = refl
  drop-append_le (suc n) [] ys h = absurd (omega arith)
  drop-append_le (suc n) (x ∷ xs) ys h = drop-append_le n xs ys (omega arith)

  pub drop-append_ge :
      (n : ℕ) (xs ys : List A) → length xs ≤ n → drop n (xs ++ ys) ≡ drop (n - length xs) ys
  drop-append_ge n [] ys h = ap (λ k. drop k ys) (omega arith)
  drop-append_ge zero (x ∷ xs) ys h = absurd (omega arith)
  drop-append_ge (suc n) (x ∷ xs) ys h =
      drop-append_ge n xs ys (omega arith) ∙ ap (λ k. drop k ys) (omega arith)

  pub drop-drop : (n m : ℕ) (xs : List A) → drop n (drop m xs) ≡ drop (m + n) xs
  drop-drop n zero xs = ap (λ k. drop k xs) (omega arith)
  drop-drop n (suc m) [] = drop-all n [] (omega arith) ∙ sym (drop-all (suc m + n) [] (omega arith))
  drop-drop n (suc m) (x ∷ xs) =
      drop-drop n m xs ∙ ap (λ k. drop k (x ∷ xs)) {x = suc (m + n)} (omega arith)

  pub take-take : (n m : ℕ) (xs : List A) → n ≤ m → take n (take m xs) ≡ take n xs
  take-take zero m xs h = refl
  take-take (suc n) zero xs h = absurd (omega arith)
  take-take (suc n) (suc m) [] h = refl
  take-take (suc n) (suc m) (x ∷ xs) h = ap (λ t. x ∷ t) (take-take n m xs (omega arith))

  pub take-append-drop : (n : ℕ) (xs : List A) → take n xs ++ drop n xs ≡ xs
  take-append-drop zero xs = refl
  take-append-drop (suc n) [] = refl
  take-append-drop (suc n) (x ∷ xs) = ap (λ t. x ∷ t) (take-append-drop n xs)

  -- A prefix splits at any point inside it.
  pub take-split :
      (n m : ℕ) (xs : List A) → n ≤ m → take m xs ≡ take n xs ++ take (m - n) (drop n xs)
  take-split zero m xs h = ap (λ k. take k xs) (omega arith)
  take-split (suc n) zero xs h = absurd (omega arith)
  take-split (suc n) (suc m) [] h = sym (take-all (suc m - suc n) [] (omega arith))
  take-split (suc n) (suc m) (x ∷ xs) h =
      ap (λ t. x ∷ t)
        (take-split n m xs (omega arith) ∙ ap (λ k. take n xs ++ take k (drop n xs)) (omega arith))

  pub length-blit :
      (xs bs : List A) (i : ℕ) → i + length bs ≤ length xs → length (blit xs i bs) ≡ length xs
  unfolding blit
  length-blit xs bs i h = omega (
    arith,
    length-append (take i xs) (bs ++ drop (i + length bs) xs),
    length-append bs (drop (i + length bs) xs),
    length-take i xs,
    length-drop (i + length bs) xs,
  )

  pub drop-take : (n m : ℕ) (xs : List A) → drop n (take m xs) ≡ take (m - n) (drop n xs)
  drop-take zero m xs = ap (λ k. take k xs) (omega arith)
  drop-take (suc n) zero xs = ap (λ k. take k (drop (suc n) xs)) {x = 0} (omega arith)
  drop-take (suc n) (suc m) [] = sym (take-all (suc m - suc n) [] (omega arith))
  drop-take (suc n) (suc m) (x ∷ xs) = drop-take n m xs ∙ ap (λ k. take k (drop n xs)) (omega arith)

  -- What a block copy leaves alone, and what it stores.
  pub take-blit :
      (j : ℕ) (xs bs : List A) (i : ℕ) → j ≤ i → i ≤ length xs → take j (blit xs i bs) ≡ take j xs
  unfolding blit
  take-blit j xs bs i h k =
      take-append_le j (take i xs) (bs ++ drop (i + length bs) xs) (omega (arith, length-take i xs))
      ∙ take-take j i xs h

  pub take-blit_end :
      (j : ℕ) (xs bs : List A) (i : ℕ)
      → j ≡ i + length bs
      → j ≤ length xs
      → take j (blit xs i bs) ≡ take i xs ++ bs
  unfolding blit
  take-blit_end j xs bs i e h =
      let n : length (take i xs) ≡ i = omega (arith, length-take i xs) in
      take-append_ge j (take i xs) (bs ++ drop (i + length bs) xs) (omega arith)
      ∙ ap (λ t. take i xs ++ t)
          (take-append_le (j - length (take i xs)) bs (drop (i + length bs) xs) (omega arith)
            ∙ take-all (j - length (take i xs)) bs (omega arith))

  pub drop-blit :
      (j : ℕ) (xs bs : List A) (i : ℕ)
      → i + length bs ≤ j
      → i + length bs ≤ length xs
      → drop j (blit xs i bs) ≡ drop j xs
  unfolding blit
  drop-blit j xs bs i h k =
      let n : length (take i xs) ≡ i = omega (arith, length-take i xs) in
      drop-append_ge j (take i xs) (bs ++ drop (i + length bs) xs) (omega arith)
      ∙ drop-append_ge (j - length (take i xs)) bs (drop (i + length bs) xs) (omega arith)
      ∙ drop-drop (j - length (take i xs) - length bs) (i + length bs) xs
      ∙ ap (λ m. drop m xs) (omega arith)

  -- A part as long as the whole is the whole.
  pub append-eq_whole :
      (xs ys zs : List A) → xs ++ ys ≡ zs → length xs ≡ length zs → (xs ≡ zs) × (ys ≡ [])
  append-eq_whole xs ys zs e n =
      let none_left : length ys ≡ 0 = omega (arith, length-append xs ys, ap length e) in
      let empty : ys ≡ [] = nil_of_length ys none_left in
      (sym (append-nil xs) ∙ ap (λ t. xs ++ t) (sym empty) ∙ e, empty)
