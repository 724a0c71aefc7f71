-- ===== src/Tetris/Turn.antt =====
-- What `rotate` of hw17-tetris/game.c does to the cells of a piece.
use otus_c_2025_3_kushko.Common.{ℕ, zero, suc, ◌+◌, ◌*◌, ◌%◌, ◌≡◌, refl, sym, ◌∙◌, arith}
use otus_c_2025_3_kushko.Common.Int.{
  ℤ, pos, pos_part, neg_part, ◌+ℤ◌, ◌-ℤ◌, ◌*ℤ◌, eq_of_parts, int_laws,
}
use otus_c_2025_3_kushko.Tetris.Pieces.{rotate}

four_parts :
    (a : ℤ) → (pos_part (a *ℤ pos 4) + 4 * neg_part a ≡ neg_part (a *ℤ pos 4) + 4 * pos_part a)
unfolding ◌*ℤ◌
four_parts a = ground arith

module _ (x y : ℤ) where
  -- The indices that `rotate` computes in its four directions.
  abbrev quarter : ℕ → ℤ
  quarter zero = x +ℤ y *ℤ pos 4
  quarter (suc zero) = pos 12 +ℤ y -ℤ x *ℤ pos 4
  quarter (suc (suc zero)) = pos 15 -ℤ y *ℤ pos 4 -ℤ x
  quarter (suc (suc (suc d))) = pos 3 -ℤ y +ℤ x *ℤ pos 4

  rotate-quarter : (rotation d : ℕ) → rotation % 4 ≡ d → rotate rotation x y ≡ quarter d
  unfolding rotate
  rotate-quarter rotation zero e = ground arith
  rotate-quarter rotation (suc zero) e = ground arith
  rotate-quarter rotation (suc (suc zero)) e = ground arith
  rotate-quarter rotation (suc (suc (suc zero))) e = ground arith
  rotate-quarter rotation (suc (suc (suc (suc d)))) e = absurd (omega arith)

turn :
    (x y : ℤ) (rotation d : ℕ)
    → rotation % 4 ≡ d
    → rotate (rotation + 1) x y ≡ rotate rotation y (pos 3 -ℤ x)
turn x y rotation zero e =
    rotate-quarter x y (rotation + 1) 1 (omega arith)
    ∙ eq_of_parts _ _ (omega (int_laws, four_parts x, four_parts (pos 3 -ℤ x)))
    ∙ sym (rotate-quarter y (pos 3 -ℤ x) rotation 0 e)
turn x y rotation (suc zero) e =
    rotate-quarter x y (rotation + 1) 2 (omega arith)
    ∙ eq_of_parts _ _ (omega (int_laws, four_parts y))
    ∙ sym (rotate-quarter y (pos 3 -ℤ x) rotation 1 e)
turn x y rotation (suc (suc zero)) e =
    rotate-quarter x y (rotation + 1) 3 (omega arith)
    ∙ eq_of_parts _ _ (omega (int_laws, four_parts x, four_parts (pos 3 -ℤ x)))
    ∙ sym (rotate-quarter y (pos 3 -ℤ x) rotation 2 e)
turn x y rotation (suc (suc (suc zero))) e =
    rotate-quarter x y (rotation + 1) 0 (omega arith)
    ∙ eq_of_parts _ _ (omega (int_laws, four_parts y))
    ∙ sym (rotate-quarter y (pos 3 -ℤ x) rotation 3 e)
turn x y rotation (suc (suc (suc (suc d)))) e = absurd (omega arith)

-- One more rotation is a quarter turn of the cells: the cell (x, y) of the turned piece is the cell
-- (y, 3 - x) of the piece before it.
pub rotate-turn :
    (rotation : ℕ) (x y : ℤ) → rotate (rotation + 1) x y ≡ rotate rotation y (pos 3 -ℤ x)
rotate-turn rotation x y = turn x y rotation (rotation % 4) refl
