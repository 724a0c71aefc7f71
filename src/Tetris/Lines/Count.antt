-- ===== src/Tetris/Lines/Count.antt =====
-- Counting the filled cells of the arena of hw17-tetris/game.c, and what `check_lines` does to them.
use otus_c_2025_3_kushko.Common.{
  ℕ, zero, suc, ◌+◌, ◌-◌, ◌*◌, ◌≤◌, ◌<◌, ◌≡◌, refl, ap, ◌∙◌, true, false, ltb, if◌then◌else◌, arith,
  Bool-cases, inl, inr,
}
use native.Mathlib.Decide.{ℕ_discrete}
use otus_c_2025_3_kushko.Common.Int.{pos, ◌+ℤ◌, wrap_int}
use otus_c_2025_3_kushko.Tetris.Game.{Arena, Game}
use otus_c_2025_3_kushko.Tetris.Lines.{is_line, remove_line, scan, scan_fuel, check_lines}
use otus_c_2025_3_kushko.Tetris.Lines.Clear.{remove_line-cell}

-- The sum of the first `n` cells of row `b`.
unfoldable pub row : ℕ → Arena → ℕ → ℕ
row zero arena b = 0
row (suc n) arena b = row n arena b + arena n b

-- The sum of the first `n` rows.
unfoldable pub rows : ℕ → Arena → ℕ
rows zero arena = 0
rows (suc n) arena = rows n arena + row 10 arena n

-- The count of the filled cells.
abbrev pub filled : Arena → ℕ
filled arena = rows 20 arena

-- The cells are 0 or 1.
abbrev pub IsBinary : Arena → Type 0
IsBinary arena = (a b : ℕ) → a < 10 → arena a b ≤ 1

row-le : (n : ℕ) (arena : Arena) (b : ℕ) → n ≤ 10 → IsBinary arena → row n arena b ≤ n
unfolding row
row-le zero arena b h bin = omega arith
row-le (suc n) arena b h bin =
    omega (arith, row-le n arena b (omega arith) bin, bin n b (omega arith))

rows-le : (n : ℕ) (arena : Arena) → IsBinary arena → rows n arena ≤ n * 10
unfolding rows
rows-le zero arena bin = omega arith
rows-le (suc n) arena bin = omega (arith, rows-le n arena bin, row-le 10 arena n (omega arith) bin)

row-line :
    (n : ℕ) (arena : Arena) (b : ℕ)
    → n ≤ 10
    → IsBinary arena
    → is_line arena b n ≡ true
    → row n arena b ≡ n
unfolding row is_line
row-line zero arena b h bin e = refl
row-line (suc n) arena b h bin e =
    ground (arith, row-line n arena b (omega arith) bin, bin n b (omega arith))

module _ (y : ℕ) (arena : Arena) where
  row-remove_moved :
      (n b : ℕ) → n ≤ 10 → b < y → row n (remove_line y arena) (suc b) ≡ row n arena b
  unfolding row
  row-remove_moved zero b h k = refl
  row-remove_moved (suc n) b h k = ground (
    arith,
    row-remove_moved n b (omega arith) k,
    remove_line-cell y arena n (suc b) (omega arith),
  )

  row-remove_top : (n : ℕ) → n ≤ 10 → row n (remove_line y arena) 0 ≡ 0
  unfolding row
  row-remove_top zero h = refl
  row-remove_top (suc n) h =
      ground (arith, row-remove_top n (omega arith), remove_line-cell y arena n 0 (omega arith))

  row-remove_kept : (n b : ℕ) → n ≤ 10 → y < b → row n (remove_line y arena) b ≡ row n arena b
  unfolding row
  row-remove_kept zero b h k = refl
  row-remove_kept (suc n) b h k =
      ground
        (arith, row-remove_kept n b (omega arith) k, remove_line-cell y arena n b (omega arith))

  rows-remove_above : (n : ℕ) → n ≤ y → rows (suc n) (remove_line y arena) ≡ rows n arena
  unfolding rows
  rows-remove_above zero h = omega (arith, row-remove_top 10 (omega arith))
  rows-remove_above (suc n) h =
      omega (
        arith,
        rows-remove_above n (omega arith),
        row-remove_moved 10 n (omega arith) (omega arith),
      )

  -- A removal takes the cells of its line away, and no others.
  rows-remove : (n : ℕ) → y < n → rows n (remove_line y arena) + row 10 arena y ≡ rows n arena
  unfolding rows
  rows-remove zero h = absurd (omega arith)
  rows-remove (suc n) h = elim (ℕ_discrete y n) [
    | yes last ↦
        omega (arith, rows-remove_above n (omega arith), ap (λ (b : ℕ). row 10 arena b) last)
    | no more ↦
        omega (arith, rows-remove n (omega arith), row-remove_kept 10 n (omega arith) (omega arith))
  ]

  is_line-remove :
      (n b : ℕ) → n ≤ 10 → y < b → is_line (remove_line y arena) b n ≡ is_line arena b n
  unfolding is_line
  is_line-remove zero b h k = refl
  is_line-remove (suc n) b h k =
      ground (arith, is_line-remove n b (omega arith) k, remove_line-cell y arena n b (omega arith))

  remove_line-IsBinary : IsBinary arena → IsBinary (remove_line y arena)
  remove_line-IsBinary bin a b h =
      ground (arith, remove_line-cell y arena a b h, bin a b h, bin a (b - 1) h)

-- What the loop has done when it stops, started at `arena` with `count` lines removed.
record Scanned (arena : Arena) (count : ℕ) (out : Arena × ℕ) : Type 0 where
  binary : IsBinary out.0
  grows : count ≤ out.1
  conserves : filled out.0 + 10 * out.1 ≡ filled arena + 10 * count
  no_line : (b : ℕ) → b < 20 → is_line out.0 b 10 ≡ false

module _ (y : ℕ) (arena : Arena) (count : ℕ) (h : y < 20) (bin : IsBinary arena)
    (full : is_line arena y 10 ≡ true) where
  filled-remove : filled (remove_line y arena) + 10 ≡ filled arena
  filled-remove =
      omega (arith, rows-remove y arena 20 h, row-line 10 arena y (omega arith) bin full)

  Scanned-remove :
      {out : Arena × ℕ} → Scanned (remove_line y arena) (count + 1) out → Scanned arena count out
  Scanned-remove s = record {
    binary = s.binary;
    grows = omega (arith, s.grows);
    conserves = omega (arith, s.conserves, filled-remove);
    no_line = s.no_line;
  }

scan-Scanned :
    (fuel n : ℕ) (arena : Arena) (count : ℕ)
    → n ≤ 20
    → IsBinary arena
    → n + filled arena ≤ fuel
    → ((b : ℕ) → n ≤ b → b < 20 → is_line arena b 10 ≡ false)
    → Scanned arena count (scan fuel n arena count)
unfolding scan
scan-Scanned zero n arena count h bin enough below = record {
  binary = bin;
  grows = omega arith;
  conserves = omega arith;
  no_line = λ b k. below b (omega arith) k;
}
scan-Scanned (suc fuel) zero arena count h bin enough below = record {
  binary = bin;
  grows = omega arith;
  conserves = omega arith;
  no_line = λ b k. below b (omega arith) k;
}
scan-Scanned (suc fuel) (suc y) arena count h bin enough below =
    elim (Bool-cases (is_line arena y 10)) [
      | inl full ↦ rw full (
          Scanned-remove y arena count h bin full (
            scan-Scanned fuel (suc y) (remove_line y arena) (count + 1) h
              (remove_line-IsBinary y arena bin)
              (omega (arith, filled-remove y arena count h bin full))
              (λ b k l. is_line-remove y arena 10 b (omega arith) k ∙ below b k l)))
      | inr not_full ↦ rw not_full (
          scan-Scanned fuel y arena count (omega arith) bin (omega arith) (λ b k l.
            elim (ℕ_discrete y b) [
              | yes here ↦ rw (← here) not_full
              | no after ↦ below b (omega arith) l
            ]))
    ]

-- From an arena of cells 0 and 1, `check_lines` ends with no full row left, and for some number of
-- lines removes ten filled cells and adds 100 to the score for each, where the score, an int, wraps
-- around; no other field changes.
pub check_lines_lem :
    (g : Game)
    → IsBinary g.arena
    → (lines : ℕ) × (filled (check_lines g).arena + 10 * lines ≡ filled g.arena)
      × ((check_lines g).score
          ≡ (if ltb 0 lines then wrap_int (g.score +ℤ pos (100 * lines)) else g.score))
      × ((b : ℕ) → b < 20 → is_line (check_lines g).arena b 10 ≡ false)
      × IsBinary (check_lines g).arena
      × (check_lines g ≡ record g { arena = (check_lines g).arena; score = (check_lines g).score })
unfolding check_lines
check_lines_lem g bin =
    let s =
      scan-Scanned scan_fuel 20 g.arena 0 (omega arith) bin (omega (arith, rows-le 20 g.arena bin))
        (λ b k l. absurd (omega arith)) in
    (
      (scan scan_fuel 20 g.arena 0).1,
      omega (arith, s.conserves),
      ap
          (λ n.
            if ltb 0 (scan scan_fuel 20 g.arena 0).1 then wrap_int (g.score +ℤ pos n) else g.score)
          (omega arith),
      s.no_line,
      s.binary,
      refl,
    )
