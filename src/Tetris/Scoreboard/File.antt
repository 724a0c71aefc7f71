-- ===== src/Tetris/Scoreboard/File.antt =====
-- scoreboard_save and scoreboard_load of hw17-tetris/scoreboard.c, and the name that
-- hw17-tetris/main.c reads. A file is the list of its characters.
use otus_c_2025_3_kushko.Common.{
  ℕ, zero, suc, ◌+◌, List, [], ◌∷◌, ◌++◌, Option, none, some, get_or, set, length, ltb, ◌==◌,
  if◌then◌else◌,
}
use otus_c_2025_3_kushko.Common.Int.{ℤ, pos, negsuc, ◌-ℤ◌}
use otus_c_2025_3_kushko.Common.Decimal.{show_nat, show_int, atoi}
use otus_c_2025_3_kushko.Common.Text.{codes, c_string, strtok, before}
use otus_c_2025_3_kushko.Tetris.Scoreboard.{
  Table, scoreboard_len, default_name, scoreboard_init, scoreboard_insert,
}

-- What `%s` prints of a name; a null pointer prints as "(null)".
abbrev pub name_text : Option (List ℕ) → List ℕ
name_text none = codes "(null)"
name_text (some name) = name

-- One line of the file.
unfoldable pub save_line : Table → ℕ → List ℕ
save_line t i =
    show_nat (i + 1)
    ++ 9
      ∷ 9
      ∷ (name_text (get_or t.names i none)
          ++ 9 ∷ 9 ∷ (show_int (get_or t.scores i (pos 0)) ++ 10 ∷ []))

-- The loop of `scoreboard_save` from index `i` on, with `n` rounds left.
unfoldable pub save_lines : Table → ℕ → ℕ → List ℕ
save_lines t i zero = []
save_lines t i (suc n) = save_line t i ++ save_lines t (i + 1) n

unfoldable pub scoreboard_save : Table → List ℕ
scoreboard_save t = save_lines t 0 scoreboard_len

-- `getline`: a line with its end, and what is left; `none` at the end of the file.
unfoldable pub getline : List ℕ → Option (List ℕ × List ℕ)
getline [] = none
getline (c ∷ cs) =
    let later = getline cs in
    if c == 10
    then some (c ∷ [], cs)
    else elim later [ none ↦ some (c ∷ [], []) | some (line, rest) ↦ some (c ∷ line, rest) ]

abbrev token_of : Option (List ℕ × List ℕ) → Option (List ℕ)
token_of none = none
token_of (some (token, rest)) = some token

-- After a null result `strtok` has nothing left.
abbrev rest_of : Option (List ℕ × List ℕ) → List ℕ
rest_of none = []
rest_of (some (token, rest)) = rest

-- The three tokens of a line: place, name and score.
unfoldable pub tokens : List ℕ → Option (List ℕ) × Option (List ℕ) × Option (List ℕ)
tokens line =
    let first = strtok 9 (c_string line) in
    let second = strtok 9 (rest_of first) in
    let third = strtok 9 (rest_of second) in (token_of first, token_of second, token_of third)

abbrev place_of : Option (List ℕ) → ℤ
place_of none = pos 0
place_of (some token) = atoi token -ℤ pos 1

abbrev score_of : Option (List ℕ) → ℤ
score_of none = negsuc 0
score_of (some token) = atoi token

-- The writes of a round: `none` when the place is before the start of the arrays, where the source
-- writes all the same.
unfoldable pub put_entry : Table → ℤ → Option (List ℕ) → ℤ → Option Table
put_entry t place none score = some t
put_entry t place (some name) (negsuc score) = some t
put_entry t (negsuc place) (some name) (pos score) = none
put_entry t (pos place) (some name) (pos score) = some (
    if ltb place scoreboard_len
    then record { names = set t.names place (some name); scores = set t.scores place (pos score) }
    else t)

unfoldable pub load_line : Table → List ℕ → Option Table
load_line t line =
    let (place, name, score) = tokens line in put_entry t (place_of place) name (score_of score)

-- The loop of `scoreboard_load` on what is left of the file, with `n` rounds left.
unfoldable pub load_lines : ℕ → List ℕ → Table → Option Table
load_lines zero file t = some t
load_lines (suc n) file t = elim (getline file) [
  | none ↦ some t
  | some (line, rest) ↦ elim (load_line t line) [ none ↦ none | some t' ↦ load_lines n rest t' ]
]

-- `none` is a file that cannot be opened.
unfoldable pub scoreboard_load : Option (List ℕ) → Table → Option Table
scoreboard_load none t = some t
scoreboard_load (some file) t = load_lines scoreboard_len file t

-- The name that `main` takes from what `fgets` read: the text before the line's end, when it is
-- longer than one character.
unfoldable pub player_name : Option (List ℕ) → List ℕ
player_name none = default_name
player_name (some line) =
    let name = (before 10 line).0 in if ltb 1 (length name) then name else default_name

-- `main`: the table is loaded, the score of a game goes into it, and it is saved.
unfoldable pub play : Option (List ℕ) → Option (List ℕ) → ℤ → Option (List ℕ)
play file line score = elim (scoreboard_load file scoreboard_init) [
  | none ↦ none
  | some t ↦ some (scoreboard_save (scoreboard_insert t (player_name line) score))
]
