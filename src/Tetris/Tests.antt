-- ===== src/Tetris/Tests.antt =====
-- Runs of hw17-tetris: the theorems on games, keys and tables at hand.
use otus_c_2025_3_kushko.Common.{
  ℕ, suc, ◌+◌, ◌*◌, ◌≤◌, ◌<◌, ◌≡◌, ◌⊎◌, inr, refl, true, false, List, [], ◌∷◌, none, replicate,
  length, get_or, ltb, ◌==◌, if◌then◌else◌, arith,
}
use otus_c_2025_3_kushko.Common.Int.{wrap_int, pos, ◌+ℤ◌, ◌-ℤ◌, ◌*ℤ◌, ltb_ℤ}
use otus_c_2025_3_kushko.Tetris.Pieces.{rotate, tetrominoes}
use otus_c_2025_3_kushko.Tetris.Game.{
  Arena, Game, check_cells, check_position, covers, is_free, place_to_arena,
}
use otus_c_2025_3_kushko.Tetris.Lines.{check_lines, is_line}
use otus_c_2025_3_kushko.Tetris.Lines.Count.{filled, IsBinary, check_lines_lem}
use otus_c_2025_3_kushko.Tetris.Place.{place_to_arena_lem}
use otus_c_2025_3_kushko.Tetris.Moves.{
  Frame, start_game, landings, run_game, run_game_lem, IsPlaying, Holds,
}
use otus_c_2025_3_kushko.Tetris.Turn.{rotate-turn}
use otus_c_2025_3_kushko.Tetris.Draw.{draw_arena, draw_arena_lem, is_shown}
use otus_c_2025_3_kushko.Tetris.Scoreboard.{
  Table, scoreboard_insert, scoreboard_init, find_place, shift_down, fill,
}
use otus_c_2025_3_kushko.Tetris.Scoreboard.Insert.{
  IsRanked, IsInserted, score_at, scoreboard_insert_lem,
}
use otus_c_2025_3_kushko.Common.{All, Option, none, some, ◌++◌}
use otus_c_2025_3_kushko.Common.Text.{codes, before}
use otus_c_2025_3_kushko.Tetris.Scoreboard.Insert.{name_at}
use otus_c_2025_3_kushko.Tetris.Scoreboard.File.{
  scoreboard_save, scoreboard_load, player_name, play,
}
use otus_c_2025_3_kushko.Tetris.Scoreboard.Saved.{IsSavable, IsPlain}
use otus_c_2025_3_kushko.Tetris.Scoreboard.Play.{play_lem}

-- An empty arena but for its lowest row, which is full.
abbrev one_line : Arena
one_line a b = if b == 19 then 1 else 0

one_line-IsBinary : IsBinary one_line
one_line-IsBinary a b h = ground arith

-- The S piece in its first direction, near the top.
abbrev falling : Game
falling = record {
  arena = one_line;
  index = 2;
  rotation = 0;
  x = pos 3;
  y = pos 0;
  over = false;
  score = pos 0;
}

fits_here : check_position one_line 2 0 (pos 3) (pos 0) ≡ true
unfolding check_position check_cells covers is_free rotate tetrominoes ◌+ℤ◌ ◌-ℤ◌ ◌*ℤ◌
fits_here = refl

falling-IsPlaying : IsPlaying falling
falling-IsPlaying = record {
  kind = omega arith;
  direction = omega arith;
  fallen = omega arith;
  fits = inr fits_here;
}

abbrev two_frames : List Frame
two_frames =
    record { keys = 97 ∷ 119 ∷ []; now = 100; random = 4 }
    ∷ record { keys = 115 ∷ 115 ∷ []; now = 20000; random = 5 }
    ∷ []

run_game_lem_example :
    let g' = (run_game falling 3 0 two_frames).game in
    Holds g'
    × ((lines : ℕ) × (filled g'.arena + 10 * lines
          ≡ 4 * landings (start_game falling 3 0) two_frames)
        × (g'.score ≡ wrap_int (pos (100 * lines))))
run_game_lem_example = run_game_lem falling 3 0 two_frames refl

check_lines_lem_example :
    (lines : ℕ) × (filled (check_lines falling).arena + 10 * lines ≡ filled one_line)
    × ((check_lines falling).score
        ≡ (if ltb 0 lines then wrap_int (pos 0 +ℤ pos (100 * lines)) else pos 0))
    × ((b : ℕ) → b < 20 → is_line (check_lines falling).arena b 10 ≡ false)
    × IsBinary (check_lines falling).arena
    × (check_lines falling ≡ record falling {
      arena = (check_lines falling).arena;
      score = (check_lines falling).score;
    })
check_lines_lem_example = check_lines_lem falling one_line-IsBinary

place_to_arena_lem_example :
    (filled (place_to_arena falling).arena ≡ filled one_line + 4)
    × IsBinary (place_to_arena falling).arena
place_to_arena_lem_example =
    place_to_arena_lem falling 0 one_line-IsBinary (omega arith) (omega arith) refl fits_here

rotate-turn_example : rotate (5 + 1) (pos 1) (pos 2) ≡ rotate 5 (pos 2) (pos 3 -ℤ pos 1)
rotate-turn_example = rotate-turn 5 (pos 1) (pos 2)

draw_arena_lem_example :
    (length (draw_arena falling) ≡ 280)
    × (length (draw_arena falling) + 1 ≤ 512)
    × (get_or (draw_arena falling) (14 * 19 + suc 2) 0
        ≡ (if is_shown falling 2 19 then b'#' else 32))
draw_arena_lem_example = draw_arena_lem falling 2 19 (omega arith) (omega arith)

-- Ten scores of 500, all of one player.
abbrev even_table : Table
even_table = record { names = replicate 10 none; scores = replicate 10 (pos 500) }

even_scores : (i : ℕ) → i < 10 → score_at even_table i ≡ pos 500
even_scores i h = ground arith

even_table-IsRanked : IsRanked even_table
even_table-IsRanked = record {
  ten_names = refl;
  ten_scores = refl;
  descending = λ i j h k. ground (arith, even_scores i, even_scores j);
}

scoreboard_insert_lem_example :
    let t' = scoreboard_insert even_table (b'B' ∷ []) (pos 700) in
    IsRanked t'
    × ((((j : ℕ) → j < 10 → ltb_ℤ (pos 700) (score_at even_table j) ≡ true) × (t' ≡ even_table))
        ⊎ ((place : ℕ) × IsInserted even_table (b'B' ∷ []) (pos 700) place t'))
scoreboard_insert_lem_example =
    scoreboard_insert_lem even_table (b'B' ∷ []) (pos 700) even_table-IsRanked

-- The table at the start of the program: 900, 800, and so on down to 0.
first_table : get_or scoreboard_init.scores 0 (pos 7) ≡ pos 900
unfolding scoreboard_init fill scoreboard_insert find_place shift_down
first_table = refl

last_place : get_or scoreboard_init.scores 9 (pos 7) ≡ pos 0
unfolding scoreboard_init fill scoreboard_insert find_place shift_down
last_place = refl

-- Ten scores of 500 with one name.
abbrev named_table : Table
named_table = record { names = replicate 10 (some (codes "Bo")); scores = replicate 10 (pos 500) }

named_scores : (i : ℕ) → i < 10 → score_at named_table i ≡ pos 500
named_scores i h = ground arith

named_names : (i : ℕ) → i < 10 → name_at named_table i ≡ some (codes "Bo")
named_names i h = ground arith

named_table-IsRanked : IsRanked named_table
named_table-IsRanked = record {
  ten_names = refl;
  ten_scores = refl;
  descending = λ i j h k. ground (arith, named_scores i, named_scores j);
}

named_table-IsSavable : IsSavable named_table
named_table-IsSavable = record {
  ten_names = refl;
  ten_scores = refl;
  named = λ i h. (codes "Bo", named_names i h, omega arith, omega arith);
  scored = λ i h. (500, named_scores i h);
}

abbrev typed : Option (List ℕ)
typed = some (codes "Ann" ++ 10 ∷ [])

typed-IsPlain : All IsPlain (player_name typed) × (0 < length (player_name typed))
unfolding player_name before
typed-IsPlain = omega arith

play_lem_example :
    let t' = scoreboard_insert named_table (player_name typed) (pos 700) in
    (play (some (scoreboard_save named_table)) typed (pos 700) ≡ some (scoreboard_save t'))
    × IsRanked t'
    × IsSavable t'
    × (scoreboard_load (some (scoreboard_save t')) scoreboard_init ≡ some t')
play_lem_example =
    play_lem named_table typed 700 named_table-IsRanked named_table-IsSavable typed-IsPlain.0
      typed-IsPlain.1
