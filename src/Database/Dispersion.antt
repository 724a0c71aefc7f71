-- ===== src/Database/Dispersion.antt =====
-- The dispersion that hw15-database/main.c computes.
use otus_c_2025_3_kushko.Common.{
  ℕ, ◌+◌, ◌-◌, ◌*◌, ◌/◌, ◌^◌, ◌≤◌, ◌<◌, ◌≡◌, ap, ap₂, ◌∙◌, List, [], ◌∷◌, Option, some, length, All,
  arith,
}
use native.Mathlib.Nat.{mul-le-mul}
use otus_c_2025_3_kushko.Common.Int.{
  ℤ, pos, negsuc, ◌+ℤ◌, ◌-ℤ◌, ◌*ℤ◌, pos_part, neg_part, wrap_int, wrap_int-small,
  wrap_int-small_neg,
}
use otus_c_2025_3_kushko.Database.{dsp, avg, stat_query, rows_query, add_squares, result, get_stat}

-- The square of the distance of two numbers.
abbrev pub distance : ℕ → ℕ → ℕ
distance a b = a - b + (b - a)

abbrev pub square_distance : ℕ → ℕ → ℕ
square_distance a b = distance a b * distance a b

abbrev pub squares : ℕ → List ℕ → ℕ
squares mean [] = 0
squares mean (v ∷ rows) = square_distance v mean + squares mean rows

-- A column of natural numbers.
abbrev pub ints : List ℕ → List ℤ
ints [] = []
ints (v ∷ rows) = pos v ∷ ints rows

square-abs : (a : ℤ) → a *ℤ a ≡ pos ((pos_part a + neg_part a) * (pos_part a + neg_part a))
unfolding ◌*ℤ◌
square-abs (pos n) = ground arith
square-abs (negsuc n) = ground arith

abs-difference : (a b : ℕ) → pos_part (pos a -ℤ pos b) + neg_part (pos a -ℤ pos b) ≡ distance a b
unfolding ◌-ℤ◌
abs-difference a b = ground arith

wrap-difference : (a b : ℕ) → a ≤ 1000 → b ≤ 1000 → wrap_int (pos a -ℤ pos b) ≡ pos a -ℤ pos b
unfolding ◌-ℤ◌
wrap-difference a b h k = ground (arith, wrap_int-small (a - b), wrap_int-small_neg (b - a - 1))

square_distance-le : (a b : ℕ) → a ≤ 1000 → b ≤ 1000 → square_distance a b ≤ 1000000
square_distance-le a b h k =
    mul-le-mul {n₁ = distance a b} {m₁ = distance a b} {n₂ = 1000} {m₂ = 1000} (omega arith)
      (omega arith)

sum-pos : (a b : ℕ) → pos a +ℤ pos b ≡ pos (a + b)
unfolding ◌+ℤ◌
sum-pos a b = ground arith

square-pos :
    (v mean : ℕ)
    → v ≤ 1000
    → mean ≤ 1000
    → let val = wrap_int (pos v -ℤ pos mean) in wrap_int (val *ℤ val) ≡ pos (square_distance v mean)
square-pos v mean h k =
    rw (wrap-difference v mean h k, square-abs (pos v -ℤ pos mean), abs-difference v mean)
      (wrap_int-small (square_distance v mean) (omega (arith, square_distance-le v mean h k)))

add_squares-cons :
    (mean v total : ℕ) (rows : List ℤ) (cnt : ℕ)
    → v ≤ 1000
    → mean ≤ 1000
    → total + square_distance v mean < 2 ^ 31
    → add_squares (pos mean) (pos v ∷ rows) (pos total) cnt
      ≡ add_squares (pos mean) rows (pos (total + square_distance v mean)) (cnt + 1)
unfolding add_squares
add_squares-cons mean v total rows cnt h k small =
    ap (λ x. add_squares (pos mean) rows (wrap_int (pos total +ℤ x)) (cnt + 1))
      (square-pos v mean h k)
    ∙ ap (λ x. add_squares (pos mean) rows x (cnt + 1))
        (ap wrap_int (sum-pos total (square_distance v mean))
          ∙ wrap_int-small (total + square_distance v mean) small)

add_squares-squares :
    (mean : ℕ) (rows : List ℕ) (total cnt : ℕ)
    → mean ≤ 1000
    → All (λ v. v ≤ 1000) rows
    → total + 1000000 * length rows < 2 ^ 31
    → add_squares (pos mean) (ints rows) (pos total) cnt
      ≡ (pos (total + squares mean rows), cnt + length rows)
unfolding add_squares
add_squares-squares mean [] total cnt k all h = ap₂ (λ x y. (pos x, y)) (omega arith) (omega arith)
add_squares-squares mean (v ∷ rows) total cnt k (small, all) h =
    add_squares-cons mean v total (ints rows) cnt small k
      (omega (arith, square_distance-le v mean small k))
    ∙ add_squares-squares mean rows (total + square_distance v mean) (cnt + 1) k all
        (omega (arith, square_distance-le v mean small k))
    ∙ ap₂ (λ x y. (pos x, y)) (omega arith) (omega arith)

-- With values and a mean of at most 1000 and one to 2000 rows, DSP gives the sum of the squared
-- distances to the mean that the AVG statement gave, divided by the number of rows: no int overflows.
pub dispersion_lem :
    (query : List ℕ → Option (List ℤ)) (column table rows : List ℕ) (mean : ℕ)
    → query (stat_query avg column table) ≡ some (pos mean ∷ [])
    → query (rows_query column table) ≡ some (ints rows)
    → mean ≤ 1000
    → All (λ v. v ≤ 1000) rows
    → 0 < length rows
    → length rows ≤ 2000
    → get_stat query dsp column table ≡ result (pos (squares mean rows / length rows))
unfolding get_stat
dispersion_lem query column table rows mean average all small_mean small some_row few =
    rw (average, all, add_squares-squares mean rows 0 0 small_mean small (omega arith))
      (ground arith)
