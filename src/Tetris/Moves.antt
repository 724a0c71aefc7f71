-- ===== src/Tetris/Moves.antt =====
-- The game loop of hw17-tetris/game.c and what it keeps true.
use otus_c_2025_3_kushko.Common.{
  ℕ, zero, suc, ◌+◌, ◌*◌, ◌<◌, ◌≡◌, ◌⊎◌, inl, inr, refl, ap, sym, subst, ◌∙◌, Bool, true, false,
  not, ◌&&◌, ltb, leb, if◌then◌else◌, Bool-cases, List, [], ◌∷◌, arith,
}
use otus_c_2025_3_kushko.Common.Int.{
  ℤ, pos, negsuc, ◌+ℤ◌, ◌≤ℤ◌, wrap_int, wrap_int-add, wrap_int-small,
}
use otus_c_2025_3_kushko.Tetris.Game.{
  Arena, Game, check_position, press, handle_input, move_down, generate_tetromino, place_to_arena,
}
use otus_c_2025_3_kushko.Tetris.Lines.{check_lines, is_line}
use otus_c_2025_3_kushko.Tetris.Lines.Count.{filled, rows, row, IsBinary, check_lines_lem}
use otus_c_2025_3_kushko.Tetris.Place.{place_to_arena_lem}

-- What one round of the loop of `run_game` meets: the keys that are waiting, the clock, and the
-- number that `rand` returns if it is called.
pub record Frame : Type 0 where
  pub keys : List ℕ
  pub now : ℕ
  pub random : ℕ

-- The game with `last_time`.
pub record Loop : Type 0 where
  pub game : Game
  pub last_time : ℕ

-- The end of a fall: the piece is placed, lines are removed, and the next piece comes.
unfoldable pub settle : Game → ℕ → Game
settle g random = generate_tetromino (check_lines (place_to_arena g)) random

-- One round of the loop.
unfoldable pub frame : Loop → Frame → Loop
frame s f =
    let g = handle_input s.game f.keys in
    if leb (s.last_time + 10000) f.now
    then (let (g', moved) = move_down g in
        record { game = if moved then g' else settle g' f.random; last_time = f.now })
    else record s { game = g }

-- The rounds until the game is over.
unfoldable pub run_frames : Loop → List Frame → Loop
run_frames s [] = s
run_frames s (f ∷ fs) = let rest = run_frames (frame s f) fs in if s.game.over then s else rest

-- `run_game` up to its loop: an empty arena and a first piece, at clock `now`.
unfoldable pub start_game : Game → ℕ → ℕ → Loop
start_game g random now = record {
  game = generate_tetromino (record g { arena = λ x y. 0 }) random;
  last_time = now;
}

unfoldable pub run_game : Game → ℕ → ℕ → List Frame → Loop
run_game g random now frames = run_frames (start_game g random now) frames

-- A piece of the seven in one of four directions, from the top row on; where it is is free, unless
-- the game is over.
pub record IsPlaying (g : Game) : Type 0 where
  pub kind : g.index < 7
  pub direction : g.rotation < 4
  pub fallen : pos 0 ≤ℤ g.y
  pub fits : (g.over ≡ true) ⊎ (check_position g.arena g.index g.rotation g.x g.y ≡ true)

-- The arena between moves: cells 0 and 1, and no full row.
pub record IsSettled (arena : Arena) : Type 0 where
  pub binary : IsBinary arena
  pub no_line : (b : ℕ) → b < 20 → is_line arena b 10 ≡ false

down_fallen : (y : ℤ) → pos 0 ≤ℤ y → pos 0 ≤ℤ y +ℤ pos 1
unfolding ◌+ℤ◌
down_fallen y h = ground arith

fallen_row : (y : ℤ) → pos 0 ≤ℤ y → (b : ℕ) × (y ≡ pos b)
fallen_row (pos b) h = (b, refl)
fallen_row (negsuc b) h = absurd (omega arith)

-- A key keeps the piece where it may stand, and leaves the arena, the score and the end alone.
press-IsPlaying :
    (g : Game) (key : ℕ)
    → IsPlaying g
    → IsPlaying (press g key)
      × ((press g key).arena ≡ g.arena)
      × ((press g key).score ≡ g.score)
      × ((press g key).over ≡ g.over)
unfolding press
press-IsPlaying g key v = ground (arith, down_fallen g.y v.fallen)

handle_input-IsPlaying :
    (g : Game) (keys : List ℕ)
    → IsPlaying g
    → IsPlaying (handle_input g keys)
      × ((handle_input g keys).arena ≡ g.arena)
      × ((handle_input g keys).score ≡ g.score)
      × ((handle_input g keys).over ≡ g.over)
unfolding handle_input
handle_input-IsPlaying g [] v = (v, refl, refl, refl)
handle_input-IsPlaying g (key ∷ keys) v =
    let (v', arena, score, over) = press-IsPlaying g key v in
    let (w, arena', score', over') = handle_input-IsPlaying (press g key) keys v' in
    (w, arena' ∙ arena, score' ∙ score, over' ∙ over)

generate-IsPlaying : (g : Game) (random : ℕ) → IsPlaying (generate_tetromino g random)
unfolding generate_tetromino
generate-IsPlaying g random = ground arith

-- Whether a round ends a fall: it is time for a step down, and there is no room below.
abbrev pub lands : Loop → Frame → Bool
lands s f = leb (s.last_time + 10000) f.now && not (move_down (handle_input s.game f.keys)).1

abbrev pub one_if : Bool → ℕ
one_if b = if b then 1 else 0

-- The number of rounds of a game that end a fall.
abbrev pub landings : Loop → List Frame → ℕ
landings s [] = 0
landings s (f ∷ fs) =
    let later = landings (frame s f) fs in if s.game.over then 0 else one_if (lands s f) + later

-- The score of a game that began at 0 and has removed some lines.
abbrev pub HasScored : Game → ℕ → Type 0
HasScored g lines = g.score ≡ wrap_int (pos (100 * lines))

-- What a round does to the counts: each piece that came to rest adds four cells, and for some number
-- of lines that were removed each takes ten away and scores 100.
abbrev Counts : Game → Game → ℕ → Type 0
Counts g g' pieces =
    (lines : ℕ) × (filled g'.arena + 10 * lines ≡ filled g.arena + 4 * pieces)
    × ((total : ℕ) → HasScored g total → HasScored g' (total + lines))

HasScored-lines :
    (score : ℤ) (total lines : ℕ)
    → score ≡ wrap_int (pos (100 * total))
    → (if ltb 0 lines then wrap_int (score +ℤ pos (100 * lines)) else score)
      ≡ wrap_int (pos (100 * (total + lines)))
HasScored-lines score total zero h = h ∙ ap (λ n. wrap_int (pos n)) (omega arith)
HasScored-lines score total (suc lines) h =
    let some_lines : ltb 0 (suc lines) ≡ true = ground arith in
    (rw some_lines refl)
    ∙ ap (λ x. wrap_int (x +ℤ pos (100 * suc lines))) h
    ∙ wrap_int-add (100 * total) (100 * suc lines)
    ∙ ap (λ n. wrap_int (pos n)) (omega arith)

-- All that holds between two rounds.
pub record Holds (g : Game) : Type 0 where
  pub playing : IsPlaying g
  pub settled : IsSettled g.arena

settle-Holds :
    (g : Game) (random : ℕ)
    → Holds g
    → g.over ≡ false
    → Holds (settle g random) × Counts g (settle g random) 1
unfolding settle
settle-Holds g random h alive =
    let v = h.playing in
    let (b, e) = fallen_row g.y v.fallen in
    let fits : check_position g.arena g.index g.rotation g.x g.y ≡ true = ground arith in
    let (four, binary) = place_to_arena_lem g b h.settled.binary v.kind v.direction e fits in
    let (lines, count, score, no_line, binary', _) = check_lines_lem (place_to_arena g) binary in
    (
      record {
        playing = generate-IsPlaying (check_lines (place_to_arena g)) random;
        settled = record {
          binary = unfold generate_tetromino in binary';
          no_line = unfold generate_tetromino in no_line;
        };
      },
      (
        lines,
        unfold generate_tetromino in omega (arith, count, four),
        λ total h.
            unfold generate_tetromino place_to_arena in
            score ∙ HasScored-lines g.score total lines h,
      ),
    )

HasScored-none : (g : Game) (total : ℕ) → HasScored g total → HasScored g (total + 0)
HasScored-none g total h = h ∙ ap (λ n. wrap_int (pos n)) (omega arith)

-- A round that does not end a fall leaves the arena and the score alone.
moved-Holds :
    (g g' : Game)
    → Holds g
    → IsPlaying g'
    → g'.arena ≡ g.arena
    → g'.score ≡ g.score
    → Holds g' × Counts g g' 0
moved-Holds g g' h v a s = (
  record { playing = v; settled = subst (λ (x : Arena). IsSettled x) (sym a) h.settled },
  (0, omega (arith, ap filled a), λ total e. s ∙ HasScored-none g total e),
)

Counts-trans : (a b c : Game) (p p' : ℕ) → Counts a b p → Counts b c p' → Counts a c (p + p')
Counts-trans a b c p p' (l, cells, points) (l', cells', points') = (
  l + l',
  omega (arith, cells, cells'),
  λ total h. points' (total + l) (points total h) ∙ ap (λ n. wrap_int (pos n)) (omega arith),
)

move_down-IsPlaying :
    (g : Game)
    → IsPlaying g
    → IsPlaying (move_down g).0
      × ((move_down g).0.arena ≡ g.arena)
      × ((move_down g).0.score ≡ g.score)
      × (((move_down g).1 ≡ true) ⊎ ((move_down g).0 ≡ g))
unfolding move_down
move_down-IsPlaying g v = ground (arith, down_fallen g.y v.fallen)

frame-Holds :
    (s : Loop) (f : Frame)
    → Holds s.game
    → s.game.over ≡ false
    → Holds (frame s f).game × Counts s.game (frame s f).game (one_if (lands s f))
unfolding frame
frame-Holds s f h alive =
    let g = handle_input s.game f.keys in
    let (v, a, p, o) = handle_input-IsPlaying s.game f.keys h.playing in
    let (h', c) = moved-Holds s.game g h v a p in
    elim (Bool-cases (leb (s.last_time + 10000) f.now)) [
      | inr early ↦ rw early (h', c)
      | inl due ↦
          let (v'', a'', p'', stays) = move_down-IsPlaying g v in
          elim (Bool-cases (move_down g).1) [
            | inl moved ↦
                let (h'', c'') = moved-Holds g (move_down g).0 h' v'' a'' p'' in
                rw (due, moved) (h'', Counts-trans s.game g (move_down g).0 0 0 c c'')
            | inr landed ↦
                let same : (move_down g).0 ≡ g = ground arith in
                let (h'', c'') = settle-Holds g f.random h' (o ∙ alive) in
                rw (due, landed, same) (h'', Counts-trans s.game g (settle g f.random) 0 1 c c'')
          ]
    ]

run_frames-cons :
    (s : Loop) (f : Frame) (fs : List Frame)
    → run_frames s (f ∷ fs) ≡ (if s.game.over then s else run_frames (frame s f) fs)
unfolding run_frames
run_frames-cons s f fs = refl

run_frames-Holds :
    (s : Loop) (frames : List Frame)
    → Holds s.game
    → Holds (run_frames s frames).game
      × Counts s.game (run_frames s frames).game (landings s frames)
run_frames-Holds s [] h = unfold run_frames in (h, (0, omega arith, HasScored-none s.game))
run_frames-Holds s (f ∷ fs) h = elim (Bool-cases s.game.over) [
  | inl ended ↦ rw run_frames-cons (simp ended (h, (0, omega arith, HasScored-none s.game)))
  | inr alive ↦
      let (h', c) = frame-Holds s f h alive in
      let (h'', c') = run_frames-Holds (frame s f) fs h' in
      rw run_frames-cons (
        simp alive (
          h'',
          Counts-trans s.game (frame s f).game (run_frames (frame s f) fs).game (one_if (lands s f))
              (landings (frame s f) fs) c c',
        ))
]

empty_row : (n b : ℕ) → row n (λ x y. 0) b ≡ 0
unfolding row
empty_row zero b = refl
empty_row (suc n) b = omega (arith, empty_row n b)

empty_rows : (n : ℕ) → rows n (λ x y. 0) ≡ 0
unfolding rows
empty_rows zero = refl
empty_rows (suc n) = omega (arith, empty_rows n, empty_row 10 n)

start_game-Holds : (g : Game) (random now : ℕ) → Holds (start_game g random now).game
unfolding start_game
start_game-Holds g random now = record {
  playing = generate-IsPlaying (record g { arena = λ x y. 0 }) random;
  settled = record {
    binary = unfold generate_tetromino in λ a b h. omega arith;
    no_line = unfold generate_tetromino is_line in λ b h. ground arith;
  };
}

-- Whatever keys, clock readings and random numbers a game meets, after any number of rounds the
-- arena has cells 0 and 1 only and no full row, the piece is one of the seven in one of four
-- directions, not above the top row, and stands where it may unless the game is over. For some number
-- of lines, the filled cells and ten for each line are four for each round that ended a fall, when it
-- was time for a step down and there was no room below; and the score, which begins at 0, is 100 for
-- each line, where an int wraps around.
pub run_game_lem :
    (g : Game) (random now : ℕ) (frames : List Frame)
    → g.score ≡ pos 0
    → let g' = (run_game g random now frames).game in
      let pieces = landings (start_game g random now) frames in
      Holds g'
      × ((lines : ℕ) × (filled g'.arena + 10 * lines ≡ 4 * pieces)
          × (g'.score ≡ wrap_int (pos (100 * lines))))
unfolding run_game
run_game_lem g random now frames begins =
    let s = start_game g random now in
    let (h, (lines, cells, score)) = run_frames-Holds s frames (start_game-Holds g random now) in
    let none_yet : filled s.game.arena ≡ 0 =
      unfold start_game generate_tetromino in empty_rows 20 in
    let zero_yet : HasScored s.game 0 =
      unfold start_game generate_tetromino in begins ∙ sym (wrap_int-small 0 (omega arith)) in
    (
      h,
      (
        lines,
        omega (arith, cells, none_yet),
        score 0 zero_yet ∙ ap (λ n. wrap_int (pos n)) (omega arith),
      ),
    )
