-- ===== src/Tetris/Scoreboard.antt =====
-- hw17-tetris/scoreboard.c: the table of the ten best scores.
pub mod Insert
pub mod File
pub mod Saved
pub mod Play
use otus_c_2025_3_kushko.Common.{
  ℕ, zero, suc, ◌+◌, ◌*◌, Option, none, some, List, [], ◌∷◌, get_or, set, replicate, ltb,
  if◌then◌else◌,
}
use otus_c_2025_3_kushko.Common.Int.{ℤ, pos, negsuc, ltb_ℤ}

abbrev pub scoreboard_len : ℕ
scoreboard_len = 10

-- `names` and `scores`; `none` is the null pointer.
pub record Table : Type 0 where
  pub names : List (Option (List ℕ))
  pub scores : List ℤ

-- The search of `scoreboard_insert` from index `i` on, with `n` indices left.
unfoldable pub find_place : ℤ → List ℤ → ℕ → ℕ → Option ℕ
find_place score scores i zero = none
find_place score scores i (suc n) =
    let rest = find_place score scores (suc i) n in
    if ltb_ℤ score (get_or scores i (pos 0)) then rest else some i

-- The loop that makes room at `place`, on one of the arrays, from index `i` down.
unfoldable pub shift_down {ℓ} : {A : Type ℓ} → ℕ → A → ℕ → List A → List A
shift_down place d zero xs = xs
shift_down place d (suc i) xs =
    let rest = shift_down place d i (set xs (suc i) (get_or xs i d)) in
    if ltb place (suc i) then rest else xs

unfoldable pub scoreboard_insert : Table → List ℕ → ℤ → Table
scoreboard_insert t name score = elim (find_place score t.scores 0 scoreboard_len) [
  | none ↦ t
  | some place ↦ record {
    names = set (shift_down place none 9 t.names) place (some name);
    scores = set (shift_down place (pos 0) 9 t.scores) place score;
  }
]

-- "PLAYER"
abbrev pub default_name : List ℕ
default_name = b'P' ∷ b'L' ∷ b'A' ∷ b'Y' ∷ b'E' ∷ b'R' ∷ []

-- The loop of `scoreboard_init` from `i` on, with `n` rounds left.
unfoldable pub fill : ℕ → ℕ → Table → Table
fill i zero t = t
fill i (suc n) t = fill (suc i) n (scoreboard_insert t default_name (pos (i * 100)))

-- `scoreboard_init` up to `scoreboard_load`.
unfoldable pub scoreboard_init : Table
unfolding fill scoreboard_insert find_place shift_down
scoreboard_init =
    fill 0 scoreboard_len (record { names = replicate 10 none; scores = replicate 10 (negsuc 0) })
