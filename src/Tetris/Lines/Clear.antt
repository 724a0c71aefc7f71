-- ===== src/Tetris/Lines/Clear.antt =====
-- The removal of a line, cell by cell.
use otus_c_2025_3_kushko.Common.{
  ℕ, zero, suc, ◌-◌, ◌<◌, ◌≡◌, ◌&&◌, ltb, leb, ◌==◌, if◌then◌else◌, arith,
}
use otus_c_2025_3_kushko.Tetris.Game.{Arena, arena_width}
use otus_c_2025_3_kushko.Tetris.Lines.{copy_row, shift_rows, clear_row, remove_line}

copy_row-cell :
    (n yy : ℕ) (arena : Arena) (a b : ℕ)
    → copy_row n (suc yy) arena a b ≡ (if b == suc yy && ltb a n then arena a yy else arena a b)
unfolding copy_row
copy_row-cell zero yy arena a b = ground arith
copy_row-cell (suc n) yy arena a b =
    ground (arith, copy_row-cell n yy arena a b, copy_row-cell n yy arena n yy)

clear_row-cell :
    (n : ℕ) (arena : Arena) (a b : ℕ)
    → clear_row n arena a b ≡ (if b == 0 && ltb a n then 0 else arena a b)
unfolding clear_row
clear_row-cell zero arena a b = ground arith
clear_row-cell (suc n) arena a b = ground (arith, clear_row-cell n arena a b)

shift_rows-cell :
    (y : ℕ) (arena : Arena) (a b : ℕ)
    → a < 10
    → shift_rows y arena a b ≡ (if ltb 0 b && leb b y then arena a (b - 1) else arena a b)
unfolding shift_rows
shift_rows-cell zero arena a b h = ground arith
shift_rows-cell (suc y) arena a b h = ground (
  arith,
  shift_rows-cell y (copy_row arena_width (suc y) arena) a b h,
  copy_row-cell 10 y arena a b,
  copy_row-cell 10 y arena a (b - 1),
)

-- Removing line `y` empties row 0, moves the rows above `y` down by one, and keeps those below.
pub remove_line-cell :
    (y : ℕ) (arena : Arena) (a b : ℕ)
    → a < 10
    → remove_line y arena a b
      ≡ (if b == 0 then 0 else if leb b y then arena a (b - 1) else arena a b)
unfolding remove_line
remove_line-cell y arena a b h =
    ground (arith, clear_row-cell 10 (shift_rows y arena) a b, shift_rows-cell y arena a b h)
