-- ===== src/Tetris/Lines.antt =====
-- `check_lines` of hw17-tetris/game.c.
pub mod Clear
pub mod Count
use otus_c_2025_3_kushko.Common.{
  ℕ, zero, suc, ◌+◌, ◌-◌, ◌*◌, Bool, true, false, not, ◌&&◌, ltb, ◌==◌, if◌then◌else◌,
}
use otus_c_2025_3_kushko.Common.Int.{pos, ◌+ℤ◌, wrap_int}
use otus_c_2025_3_kushko.Tetris.Game.{Arena, Game, set_cell, arena_width, arena_height}

-- Whether the first `n` cells of row `y` are all filled.
unfoldable pub is_line : Arena → ℕ → ℕ → Bool
is_line arena y zero = true
is_line arena y (suc n) = is_line arena y n && not (arena n y == 0)

-- Row `yy` takes what stands in row `yy - 1`, in the first `n` columns.
unfoldable pub copy_row : ℕ → ℕ → Arena → Arena
copy_row zero yy arena = arena
copy_row (suc n) yy arena =
    let before = copy_row n yy arena in set_cell before n yy (before n (yy - 1))

-- The rows from `y` down to 1 take the row above them.
unfoldable pub shift_rows : ℕ → Arena → Arena
shift_rows zero arena = arena
shift_rows (suc y) arena = shift_rows y (copy_row arena_width (suc y) arena)

unfoldable pub clear_row : ℕ → Arena → Arena
clear_row zero arena = arena
clear_row (suc n) arena = set_cell (clear_row n arena) n 0 0

-- The removal of the full row `y`.
unfoldable pub remove_line : ℕ → Arena → Arena
unfolding shift_rows clear_row
remove_line y arena = clear_row arena_width (shift_rows y arena)

-- The loop of `check_lines`, with `rows` rows left to look at, the lowest of them `rows - 1`, on
-- fuel: it gives the arena and the count of the lines removed. A row that was removed is looked at
-- again.
unfoldable pub scan : ℕ → ℕ → Arena → ℕ → Arena × ℕ
scan zero rows arena count = (arena, count)
scan (suc fuel) zero arena count = (arena, count)
scan (suc fuel) (suc y) arena count =
    let again = scan fuel (suc y) (remove_line y arena) (count + 1) in
    let next = scan fuel y arena count in if is_line arena y arena_width then again else next

-- More rounds than `check_lines` can make.
abbrev pub scan_fuel : ℕ
scan_fuel = 221

-- The score is an int, whose overflow wraps around.
unfoldable pub check_lines : Game → Game
check_lines g =
    let (arena, count) = scan scan_fuel arena_height g.arena 0 in
    record g {
      arena = arena;
      score = if ltb 0 count then wrap_int (g.score +ℤ pos (count * 100)) else g.score;
    }
