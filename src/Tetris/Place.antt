-- ===== src/Tetris/Place.antt =====
-- What `place_to_arena` of hw17-tetris/game.c adds to the arena.
use native.Mathlib.Decide.{ℕ_discrete}
use otus_c_2025_3_kushko.Common.{
  ℕ, zero, suc, ◌+◌, ◌*◌, ◌/◌, ◌%◌, ◌≤◌, ◌<◌, ◌≡◌, ◌≢◌, ◌⊎◌, inl, inr, refl, ap, ◌∙◌, Bool, true,
  false, ◌==◌, if◌then◌else◌, Bool-cases, List, [], ◌∷◌, All, every, every-at, ==_iff, arith,
}
use otus_c_2025_3_kushko.Common.Int.{ℤ, pos, negsuc, ◌+ℤ◌, ◌-ℤ◌, ◌*ℤ◌}
use otus_c_2025_3_kushko.Tetris.Pieces.{rotate, tetrominoes}
use otus_c_2025_3_kushko.Tetris.Game.{
  Arena, Game, set_cell, by_rows, by_columns, covers, is_free, check_cells, check_position,
  place_at, place_cells, place_to_arena,
}
use otus_c_2025_3_kushko.Tetris.Lines.Count.{row, rows, filled, IsBinary}

module _ (arena : Arena) (a b : ℕ) (empty : arena a b ≡ 0) where
  row-set_other : (n c : ℕ) → b ≢ c → row n (set_cell arena a b 1) c ≡ row n arena c
  unfolding row
  row-set_other zero c h = refl
  row-set_other (suc n) c h = ground (arith, row-set_other n c h)

  row-set_right : (n : ℕ) → n ≤ a → row n (set_cell arena a b 1) b ≡ row n arena b
  unfolding row
  row-set_right zero h = refl
  row-set_right (suc n) h = ground (arith, row-set_right n (omega arith))

  row-set : (n : ℕ) → a < n → row n (set_cell arena a b 1) b ≡ row n arena b + 1
  unfolding row
  row-set zero h = absurd (omega arith)
  row-set (suc n) h = elim (ℕ_discrete a n) [
    | yes here ↦ ground (arith, row-set_right n (omega arith))
    | no left ↦ ground (arith, row-set n (omega arith))
  ]

  rows-set_above : (n : ℕ) → n ≤ b → rows n (set_cell arena a b 1) ≡ rows n arena
  unfolding rows
  rows-set_above zero h = refl
  rows-set_above (suc n) h =
      omega (arith, rows-set_above n (omega arith), row-set_other 10 n (omega arith))

  rows-set : (n : ℕ) → a < 10 → b < n → rows n (set_cell arena a b 1) ≡ rows n arena + 1
  unfolding rows
  rows-set zero h k = absurd (omega arith)
  rows-set (suc n) h k = elim (ℕ_discrete b n) [
    | yes here ↦ omega (
      arith,
      rows-set_above n (omega arith),
      row-set 10 h,
      ap (λ (c : ℕ). row 10 arena c) here,
      ap (λ (c : ℕ). row 10 (set_cell arena a b 1) c) here,
    )
    | no below ↦ omega (arith, rows-set n h (omega arith), row-set_other 10 n below)
  ]

-- A free cell is filled by a write, and only that cell.
filled-place_at :
    (arena : Arena) (x : ℤ) (b : ℕ)
    → IsBinary arena
    → is_free arena x (pos b) ≡ true
    → filled (place_at arena x (pos b)) ≡ filled arena + 1
unfolding is_free place_at
filled-place_at arena (pos a) b bin free =
    ground (arith, bin a b, λ (e : arena a b ≡ 0). rows-set arena a b e 20)
filled-place_at arena (negsuc a) b bin free = cc

filled-place_at_row :
    (arena : Arena) (x y : ℤ) (b : ℕ)
    → y ≡ pos b
    → IsBinary arena
    → is_free arena x y ≡ true
    → filled (place_at arena x y) ≡ filled arena + 1
filled-place_at_row arena x y b e bin free = rw e (filled-place_at arena x b bin (rw (← e) free))

place_at-IsBinary : (arena : Arena) (x y : ℤ) → IsBinary arena → IsBinary (place_at arena x y)
unfolding place_at
place_at-IsBinary arena (pos x) (pos y) bin a b h = ground (arith, bin a b h)
place_at-IsBinary arena (pos x) (negsuc y) bin a b h = bin a b h
place_at-IsBinary arena (negsuc x) y bin a b h = bin a b h

is_free-place_at :
    (arena : Arena) (x y x' y' : ℤ)
    → (x ≢ x') ⊎ (y ≢ y')
    → is_free (place_at arena x y) x' y' ≡ is_free arena x' y'
unfolding is_free place_at
is_free-place_at arena x y x' y' apart = ground arith

-- The number of a piece's cells among some rounds.
unfoldable pub count_cells : ℕ → ℕ → List (ℕ × ℕ) → ℕ
count_cells index rotation [] = 0
count_cells index rotation (p ∷ ps) =
    (if covers index rotation p then 1 else 0) + count_cells index rotation ps

-- No round stands twice in a list.
abbrev Apart : List (ℕ × ℕ) → Type 0
Apart [] = Unit
Apart (p ∷ ps) = All (λ q. (p.0 ≢ q.0) ⊎ (p.1 ≢ q.1)) ps × Apart ps

by_rows-Apart : Apart by_rows
by_rows-Apart = omega arith

+ℤ-injective : (a b : ℕ) (x : ℤ) → pos a +ℤ x ≡ pos b +ℤ x → a ≡ b
unfolding ◌+ℤ◌
+ℤ-injective a b x e = ground arith

module _ (index rotation : ℕ) (x : ℤ) (y : ℕ) where
  abbrev target : ℕ × ℕ → ℤ × ℤ
  target p = (pos p.0 +ℤ x, pos p.1 +ℤ pos y)

  -- The cell of a round is free, if the piece has it.
  abbrev Free : Arena → ℕ × ℕ → Type 0
  Free arena p =
      (covers index rotation p ≡ false) ⊎ (is_free arena (target p).0 (target p).1 ≡ true)

  Free-place_at :
      (arena : Arena) (p : ℕ × ℕ) (ps : List (ℕ × ℕ))
      → All (λ q. (p.0 ≢ q.0) ⊎ (p.1 ≢ q.1)) ps
      → All (Free arena) ps
      → All (Free (place_at arena (target p).0 (target p).1)) ps
  Free-place_at arena p [] apart free = tt
  Free-place_at arena p (q ∷ ps) apart free = (
    elim free.0 [
      | inl absent ↦ inl absent
      | inr open_cell ↦ inr (
          is_free-place_at arena (target p).0 (target p).1 (target q).0 (target q).1 (elim apart.0 [
            | inl h ↦ inl (λ e. h (+ℤ-injective p.0 q.0 x e))
            | inr h ↦ inr (λ e. h (+ℤ-injective p.1 q.1 (pos y) e))
          ])
          ∙ open_cell)
    ],
    Free-place_at arena p ps apart.1 free.1,
  )

  row_pos : (b : ℕ) → pos b +ℤ pos y ≡ pos (b + y)
  unfolding ◌+ℤ◌
  row_pos b = ground arith

  place_cells-filled :
      (arena : Arena) (ps : List (ℕ × ℕ))
      → IsBinary arena
      → Apart ps
      → All (Free arena) ps
      → (filled (place_cells index rotation x (pos y) arena ps)
          ≡ filled arena + count_cells index rotation ps)
        × IsBinary (place_cells index rotation x (pos y) arena ps)
  unfolding place_cells count_cells
  place_cells-filled arena [] bin apart free = (omega arith, bin)
  place_cells-filled arena (p ∷ ps) bin apart free = elim (Bool-cases (covers index rotation p)) [
    | inl present ↦
        let (x', y') = target p in
        let open_cell : is_free arena x' y' ≡ true = ground arith in
        let (count, binary) =
          place_cells-filled (place_at arena x' y') ps (place_at-IsBinary arena x' y' bin) apart.1
            (Free-place_at arena p ps apart.0 free.1) in
        rw present (
          omega
              (arith, count, filled-place_at_row arena x' y' (p.1 + y) (row_pos p.1) bin open_cell),
          binary,
        )
    | inr absent ↦
        let (count, binary) = place_cells-filled arena ps bin apart.1 free.1 in
        rw absent (omega (arith, count), binary)
  ]

-- The number of cells of a piece in a direction is four, as a test on both at once.
has_four : ℕ → Bool
has_four n = count_cells (n / 4) (n % 4) by_rows == 4

four_table : every has_four 28 ≡ true
unfolding every has_four count_cells covers rotate tetrominoes ◌+ℤ◌ ◌-ℤ◌ ◌*ℤ◌
four_table = refl

-- Each of the seven pieces has four cells, in each of its directions.
count_cells-four :
    (index rotation : ℕ) → index < 7 → rotation < 4 → count_cells index rotation by_rows ≡ 4
count_cells-four index rotation h k =
    let n = index * 4 + rotation in
    let i : n / 4 ≡ index = omega arith in
    let r : n % 4 ≡ rotation = omega arith in
    let t : has_four n ≡ true = every-at has_four 28 n four_table (omega arith) in
    rw (i, r) at ((==_iff (count_cells (n / 4) (n % 4) by_rows) 4).0 (unfold has_four in t))

-- What `check_position` says of each round.
check_cells-Free :
    (arena : Arena) (index rotation : ℕ) (x : ℤ) (y : ℕ) (ps : List (ℕ × ℕ))
    → check_cells arena index rotation x (pos y) ps ≡ true
    → All (Free index rotation x y arena) ps
unfolding check_cells
check_cells-Free arena index rotation x y [] h = tt
check_cells-Free arena index rotation x y (p ∷ ps) h = elim (Bool-cases (covers index rotation p)) [
  | inl present ↦ (inr (ground arith), check_cells-Free arena index rotation x y ps (ground arith))
  | inr absent ↦ (inl absent, check_cells-Free arena index rotation x y ps (ground arith))
]

by_rows-by_columns {κ} : (P : ℕ × ℕ → Type κ) → All P by_columns → All P by_rows
by_rows-by_columns P h = assumption

-- From an arena of cells 0 and 1 where `check_position` holds of the piece at its place, not above
-- the top row, `place_to_arena` fills exactly four cells more.
pub place_to_arena_lem :
    (g : Game) (y : ℕ)
    → IsBinary g.arena
    → g.index < 7
    → g.rotation < 4
    → g.y ≡ pos y
    → check_position g.arena g.index g.rotation g.x g.y ≡ true
    → (filled (place_to_arena g).arena ≡ filled g.arena + 4) × IsBinary (place_to_arena g).arena
unfolding place_to_arena check_position
place_to_arena_lem g y bin hi hr e fits =
    let free : All (Free g.index g.rotation g.x y g.arena) by_rows =
      by_rows-by_columns (Free g.index g.rotation g.x y g.arena)
        (check_cells-Free g.arena g.index g.rotation g.x y by_columns (rw (← e) fits)) in
    let (count, binary) =
      place_cells-filled g.index g.rotation g.x y g.arena by_rows bin by_rows-Apart free in
    rw e (omega (arith, count, count_cells-four g.index g.rotation hi hr), binary)
