-- ===== src/Tetris/Draw.antt =====
-- `draw_arena` of hw17-tetris/game.c: the text that it builds in a buffer of 512 bytes.
use otus_c_2025_3_kushko.Common.{
  ℕ, zero, suc, ◌+◌, ◌*◌, ◌≤◌, ◌<◌, ◌≡◌, refl, ap, ◌∙◌, Bool, not, ◌&&◌, ◌||◌, List, [], ◌∷◌, ◌++◌,
  length, length-append, get_or, ◌==◌, if◌then◌else◌, arith,
}
use otus_c_2025_3_kushko.Common.Int.{pos, ◌+ℤ◌, ◌-ℤ◌, ltb_ℤ}
use otus_c_2025_3_kushko.Tetris.Pieces.{rotate, piece_cell}
use otus_c_2025_3_kushko.Tetris.Game.{Game}

-- Whether a cell of the arena shows as filled.
unfoldable pub is_shown : Game → ℕ → ℕ → Bool
is_shown g x_idx y_idx =
    let x = pos x_idx in
    let y = pos y_idx in
    let idx = rotate g.rotation (x -ℤ g.x) (y -ℤ g.y) in
    g.arena x_idx y_idx == 1
    || ((not (ltb_ℤ x g.x) && ltb_ℤ x (g.x +ℤ pos 4))
        && (not (ltb_ℤ y g.y) && ltb_ℤ y (g.y +ℤ pos 4))
        && piece_cell g.index idx == 1)

-- The inner loop, from column `x` on with `n` columns left.
unfoldable pub draw_cells : Game → ℕ → ℕ → ℕ → List ℕ
draw_cells g y x zero = []
draw_cells g y x (suc n) = (if is_shown g x y then b'#' else 32) ∷ draw_cells g y (x + 1) n

-- The outer loop, from row `y` on with `n` rows left.
unfoldable pub draw_rows : Game → ℕ → ℕ → List ℕ
draw_rows g y zero = []
draw_rows g y (suc n) = b'|' ∷ (draw_cells g y 0 10 ++ (b'|' ∷ 13 ∷ 10 ∷ draw_rows g (y + 1) n))

-- The text in `buf`, before its terminating zero.
unfoldable pub draw_arena : Game → List ℕ
draw_arena g = draw_rows g 0 20

length-draw_cells : (g : Game) (y x n : ℕ) → length (draw_cells g y x n) ≡ n
unfolding draw_cells
length-draw_cells g y x zero = refl
length-draw_cells g y x (suc n) = ap suc (length-draw_cells g y (x + 1) n)

length-draw_rows : (g : Game) (y n : ℕ) → length (draw_rows g y n) ≡ n * 14
unfolding draw_rows
length-draw_rows g y zero = refl
length-draw_rows g y (suc n) = omega (
  arith,
  length-append (draw_cells g y 0 10) (b'|' ∷ 13 ∷ 10 ∷ draw_rows g (y + 1) n),
  length-draw_cells g y 0 10,
  length-draw_rows g (y + 1) n,
)

get_or-append_left {ℓ} :
    {A : Type ℓ} (xs ys : List A) (i : ℕ) (d : A)
    → i < length xs
    → get_or (xs ++ ys) i d ≡ get_or xs i d
get_or-append_left [] ys i d h = absurd (omega arith)
get_or-append_left (x ∷ xs) ys zero d h = refl
get_or-append_left (x ∷ xs) ys (suc i) d h = get_or-append_left xs ys i d (omega arith)

get_or-append_right {ℓ} :
    {A : Type ℓ} (xs ys : List A) (i : ℕ) (d : A)
    → get_or (xs ++ ys) (length xs + i) d ≡ get_or ys i d
get_or-append_right [] ys i d = ap (λ k. get_or ys k d) (omega arith)
get_or-append_right (x ∷ xs) ys i d =
    ap (λ k. get_or (x ∷ xs ++ ys) k d) {y = suc (length xs + i)} (omega arith)
    ∙ get_or-append_right xs ys i d

draw_cells-cell :
    (g : Game) (y x n i c : ℕ)
    → c ≡ x + i
    → i < n
    → get_or (draw_cells g y x n) i 0 ≡ (if is_shown g c y then b'#' else 32)
unfolding draw_cells
draw_cells-cell g y x zero i c e h = absurd (omega arith)
draw_cells-cell g y x (suc n) zero c e h =
    ap (λ k. if is_shown g k y then b'#' else 32) {x = x} {y = c} (omega arith)
draw_cells-cell g y x (suc n) (suc i) c e h =
    draw_cells-cell g y (x + 1) n i c (omega arith) (omega arith)

draw_rows-cell :
    (g : Game) (y n j a r : ℕ)
    → r ≡ y + j
    → j < n
    → a < 10
    → get_or (draw_rows g y n) (14 * j + suc a) 0 ≡ (if is_shown g a r then b'#' else 32)
unfolding draw_rows
draw_rows-cell g y zero j a r e h k = absurd (omega arith)
draw_rows-cell g y (suc n) zero a r e h k =
    let cells = draw_cells g y 0 10 in
    let line = b'|' ∷ 13 ∷ 10 ∷ draw_rows g (y + 1) n in
    ap (λ i. get_or (b'|' ∷ (cells ++ line)) i 0) {y = suc a} (omega arith)
    ∙ get_or-append_left cells line a 0 (omega (arith, length-draw_cells g y 0 10))
    ∙ draw_cells-cell g y 0 10 a a (omega arith) k
    ∙ ap (λ i. if is_shown g a i then b'#' else 32) {x = y} {y = r} (omega arith)
draw_rows-cell g y (suc n) (suc j) a r e h k =
    let cells = draw_cells g y 0 10 in
    let line = b'|' ∷ 13 ∷ 10 ∷ draw_rows g (y + 1) n in
    ap (λ i. get_or (b'|' ∷ (cells ++ line)) i 0)
      {y = suc (length cells + suc (suc (suc (14 * j + suc a))))}
      (omega (arith, length-draw_cells g y 0 10))
    ∙ get_or-append_right cells line (suc (suc (suc (14 * j + suc a)))) 0
    ∙ draw_rows-cell g (y + 1) n j a r (omega arith) (omega arith) k

-- The text of the arena is 280 characters long, so that it fits the buffer of 512 with its zero, and
-- its character for column `a` of row `r` is a hash where the arena is filled or the piece shows,
-- and a space elsewhere.
pub draw_arena_lem :
    (g : Game) (a r : ℕ)
    → a < 10
    → r < 20
    → (length (draw_arena g) ≡ 280)
      × (length (draw_arena g) + 1 ≤ 512)
      × (get_or (draw_arena g) (14 * r + suc a) 0 ≡ (if is_shown g a r then b'#' else 32))
unfolding draw_arena
draw_arena_lem g a r h k = (
  length-draw_rows g 0 20,
  omega (arith, length-draw_rows g 0 20),
  draw_rows-cell g 0 20 r a r (omega arith) k h,
)
