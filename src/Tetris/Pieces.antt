-- ===== src/Tetris/Pieces.antt =====
-- The pieces of hw17-tetris/game.c and `rotate`.
use otus_c_2025_3_kushko.Common.{ℕ, ◌%◌, List, [], ◌∷◌, get_or, ◌==◌, if◌then◌else◌}
use otus_c_2025_3_kushko.Common.Int.{ℤ, pos, negsuc, ◌+ℤ◌, ◌-ℤ◌, ◌*ℤ◌}

-- The sixteen cells of each piece: I, O, S, Z, T, L, J.
unfoldable pub tetrominoes : List (List ℕ)
tetrominoes =
    (0 ∷ 0 ∷ 0 ∷ 0 ∷ 1 ∷ 1 ∷ 1 ∷ 1 ∷ 0 ∷ 0 ∷ 0 ∷ 0 ∷ 0 ∷ 0 ∷ 0 ∷ 0 ∷ [])
    ∷ (0 ∷ 0 ∷ 0 ∷ 0 ∷ 0 ∷ 1 ∷ 1 ∷ 0 ∷ 0 ∷ 1 ∷ 1 ∷ 0 ∷ 0 ∷ 0 ∷ 0 ∷ 0 ∷ [])
    ∷ (0 ∷ 0 ∷ 0 ∷ 0 ∷ 0 ∷ 0 ∷ 1 ∷ 1 ∷ 0 ∷ 1 ∷ 1 ∷ 0 ∷ 0 ∷ 0 ∷ 0 ∷ 0 ∷ [])
    ∷ (0 ∷ 0 ∷ 0 ∷ 0 ∷ 1 ∷ 1 ∷ 0 ∷ 0 ∷ 0 ∷ 1 ∷ 1 ∷ 0 ∷ 0 ∷ 0 ∷ 0 ∷ 0 ∷ [])
    ∷ (0 ∷ 0 ∷ 0 ∷ 0 ∷ 0 ∷ 1 ∷ 0 ∷ 0 ∷ 1 ∷ 1 ∷ 1 ∷ 0 ∷ 0 ∷ 0 ∷ 0 ∷ 0 ∷ [])
    ∷ (0 ∷ 0 ∷ 0 ∷ 0 ∷ 1 ∷ 0 ∷ 0 ∷ 0 ∷ 1 ∷ 1 ∷ 1 ∷ 0 ∷ 0 ∷ 0 ∷ 0 ∷ 0 ∷ [])
    ∷ (0 ∷ 0 ∷ 0 ∷ 0 ∷ 0 ∷ 0 ∷ 0 ∷ 1 ∷ 0 ∷ 1 ∷ 1 ∷ 1 ∷ 0 ∷ 0 ∷ 0 ∷ 0 ∷ [])
    ∷ []

-- The index of the cell (x, y) of a piece in one of its four directions.
unfoldable pub rotate : ℕ → ℤ → ℤ → ℤ
rotate rotation x y =
    let direction = rotation % 4 in
    if direction == 0
    then x +ℤ y *ℤ pos 4
    else if direction == 1
    then pos 12 +ℤ y -ℤ x *ℤ pos 4
    else if direction == 2
    then pos 15 -ℤ y *ℤ pos 4 -ℤ x
    else if direction == 3
    then pos 3 -ℤ y +ℤ x *ℤ pos 4
    else pos 0

-- `tetrominoes[index][idx]`; the array has no cell at a negative index.
abbrev pub piece_cell : ℕ → ℤ → ℕ
piece_cell index (pos idx) = get_or (get_or tetrominoes index []) idx 0
piece_cell index (negsuc idx) = 0
