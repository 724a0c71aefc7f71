-- ===== src/Tetris/Game.antt =====
-- The state and the moves of hw17-tetris/game.c.
use otus_c_2025_3_kushko.Common.{
  ℕ, ◌+◌, ◌%◌, Bool, true, false, not, ◌&&◌, ◌||◌, List, [], ◌∷◌, ltb, leb, ◌==◌, if◌then◌else◌,
}
use otus_c_2025_3_kushko.Common.Int.{ℤ, pos, negsuc, ◌+ℤ◌, ◌-ℤ◌}
use otus_c_2025_3_kushko.Tetris.Pieces.{rotate, piece_cell}

-- `arena[x][y]`
abbrev pub Arena : Type 0
Arena = ℕ → ℕ → ℕ

abbrev pub arena_width : ℕ
arena_width = 10

abbrev pub arena_height : ℕ
arena_height = 20

abbrev pub set_cell : Arena → ℕ → ℕ → ℕ → Arena
set_cell arena a b v x y = if x == a && y == b then v else arena x y

-- The globals of game.c.
pub record Game : Type 0 where
  pub arena : Arena
  pub index : ℕ
  pub rotation : ℕ
  pub x : ℤ
  pub y : ℤ
  pub over : Bool
  pub score : ℤ

-- The rounds of two nested loops over a piece's cells, as pairs (x_idx, y_idx): by columns as
-- `check_position` runs, and by rows as `place_to_arena` runs.
abbrev pub by_columns : List (ℕ × ℕ)
by_columns =
    (0, 0)
    ∷ (0, 1)
    ∷ (0, 2)
    ∷ (0, 3)
    ∷ (1, 0)
    ∷ (1, 1)
    ∷ (1, 2)
    ∷ (1, 3)
    ∷ (2, 0)
    ∷ (2, 1)
    ∷ (2, 2)
    ∷ (2, 3)
    ∷ (3, 0)
    ∷ (3, 1)
    ∷ (3, 2)
    ∷ (3, 3)
    ∷ []

abbrev pub by_rows : List (ℕ × ℕ)
by_rows =
    (0, 0)
    ∷ (1, 0)
    ∷ (2, 0)
    ∷ (3, 0)
    ∷ (0, 1)
    ∷ (1, 1)
    ∷ (2, 1)
    ∷ (3, 1)
    ∷ (0, 2)
    ∷ (1, 2)
    ∷ (2, 2)
    ∷ (3, 2)
    ∷ (0, 3)
    ∷ (1, 3)
    ∷ (2, 3)
    ∷ (3, 3)
    ∷ []

-- Whether the piece has the cell (x_idx, y_idx).
unfoldable pub covers : ℕ → ℕ → ℕ × ℕ → Bool
covers index rotation (x_idx, y_idx) =
    piece_cell index (rotate rotation (pos x_idx) (pos y_idx)) == 1

-- Whether a covered cell may stand at (x_arena, y_arena).
unfoldable pub is_free : Arena → ℤ → ℤ → Bool
is_free arena (negsuc x) y = false
is_free arena (pos x) (negsuc y) = ltb x arena_width
is_free arena (pos x) (pos y) =
    if leb arena_width x || leb arena_height y then false else not (arena x y == 1)

-- The rounds of `check_position`; a round that fails ends the loop.
unfoldable pub check_cells : Arena → ℕ → ℕ → ℤ → ℤ → List (ℕ × ℕ) → Bool
check_cells arena index rotation x y [] = true
check_cells arena index rotation x y (p ∷ ps) =
    let rest = check_cells arena index rotation x y ps in
    if covers index rotation p
    then (if is_free arena (pos p.0 +ℤ x) (pos p.1 +ℤ y) then rest else false)
    else rest

unfoldable pub check_position : Arena → ℕ → ℕ → ℤ → ℤ → Bool
check_position arena index rotation x y = check_cells arena index rotation x y by_columns

-- The argument is what `rand` returns.
unfoldable pub generate_tetromino : Game → ℕ → Game
generate_tetromino g random =
    let index = random % 7 in
    record g {
      index = index;
      rotation = 0;
      x = pos 3;
      y = pos 0;
      over = not (check_position g.arena index 0 (pos 3) (pos 0));
    }

unfoldable pub move_down : Game → Game × Bool
move_down g =
    if check_position g.arena g.index g.rotation g.x (g.y +ℤ pos 1)
    then (record g { y = g.y +ℤ pos 1 }, true)
    else (g, false)

-- One write of `place_to_arena`, where the cell lies in the arena.
unfoldable pub place_at : Arena → ℤ → ℤ → Arena
place_at arena (pos x) (pos y) =
    if ltb x arena_width && ltb y arena_height then set_cell arena x y 1 else arena
place_at arena (pos x) (negsuc y) = arena
place_at arena (negsuc x) y = arena

unfoldable pub place_cells : ℕ → ℕ → ℤ → ℤ → Arena → List (ℕ × ℕ) → Arena
place_cells index rotation x y arena [] = arena
place_cells index rotation x y arena (p ∷ ps) =
    place_cells index rotation x y
      (if covers index rotation p then place_at arena (pos p.0 +ℤ x) (pos p.1 +ℤ y) else arena) ps

unfoldable pub place_to_arena : Game → Game
place_to_arena g = record g { arena = place_cells g.index g.rotation g.x g.y g.arena by_rows }

-- One key of `handle_input`: w turns, a and d move aside, s moves down.
unfoldable pub press : Game → ℕ → Game
press g key =
    if key == 119
    then (let rotation = (g.rotation + 1) % 4 in
        if check_position g.arena g.index rotation g.x g.y
        then record g { rotation = rotation }
        else g)
    else if key == 97
    then (if check_position g.arena g.index g.rotation (g.x -ℤ pos 1) g.y
        then record g { x = g.x -ℤ pos 1 }
        else g)
    else if key == 100
    then (if check_position g.arena g.index g.rotation (g.x +ℤ pos 1) g.y
        then record g { x = g.x +ℤ pos 1 }
        else g)
    else if key == 115
    then (if check_position g.arena g.index g.rotation g.x (g.y +ℤ pos 1)
        then record g { y = g.y +ℤ pos 1 }
        else g)
    else g

-- `handle_input`: the keys that are waiting, in order.
unfoldable pub handle_input : Game → List ℕ → Game
handle_input g [] = g
handle_input g (key ∷ keys) = handle_input (press g key) keys
