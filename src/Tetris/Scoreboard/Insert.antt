-- ===== src/Tetris/Scoreboard/Insert.antt =====
-- What `scoreboard_insert` of hw17-tetris/scoreboard.c does to the table.
use native.Mathlib.Decide.{ℕ_discrete}
use otus_c_2025_3_kushko.Common.{
  ℕ, zero, suc, ◌+◌, ◌-◌, ◌≤◌, ◌<◌, ◌≡◌, refl, ◌∙◌, ◌⊎◌, inl, inr, true, false, ◌&&◌, Option, none,
  some, Option-cases, List, length, get_or, set, ltb, leb, ◌==◌, if◌then◌else◌, Bool-cases,
  length-set, get_or-set, arith,
}
use otus_c_2025_3_kushko.Common.Int.{ℤ, pos, ltb_ℤ, ◌≤ℤ◌}
use otus_c_2025_3_kushko.Tetris.Scoreboard.{Table, find_place, shift_down, scoreboard_insert}

abbrev pub score_at : Table → ℕ → ℤ
score_at t i = get_or t.scores i (pos 0)

abbrev pub name_at : Table → ℕ → Option (List ℕ)
name_at t i = get_or t.names i none

-- Ten names and ten scores, the highest score first.
pub record IsRanked (t : Table) : Type 0 where
  pub ten_names : length t.names ≡ 10
  pub ten_scores : length t.scores ≡ 10
  pub descending : (i j : ℕ) → i ≤ j → j < 10 → score_at t j ≤ℤ score_at t i

module _ {A : Type 0} (d : A) (place : ℕ) where
  length-shift_down : (i : ℕ) (xs : List A) → length (shift_down place d i xs) ≡ length xs
  unfolding shift_down
  length-shift_down zero xs = refl
  length-shift_down (suc i) xs = elim (Bool-cases (ltb place (suc i))) [
    | inl more ↦ rw more (
        length-shift_down i (set xs (suc i) (get_or xs i d))
        ∙ length-set xs (suc i) (get_or xs i d))
    | inr stop ↦ rw stop refl
  ]

  get_or-shift_down :
      (i : ℕ) (xs : List A) (j : ℕ)
      → i < length xs
      → get_or (shift_down place d i xs) j d
        ≡ (if ltb place j && leb j i then get_or xs (j - 1) d else get_or xs j d)
  unfolding shift_down
  get_or-shift_down zero xs j h = ground arith
  get_or-shift_down (suc i) xs j h = elim (Bool-cases (ltb place (suc i))) [
    | inl more ↦ rw more (
        get_or-shift_down i (set xs (suc i) (get_or xs i d)) j
          (omega (arith, length-set xs (suc i) (get_or xs i d)))
        ∙ ground (
          arith,
          get_or-set xs (suc i) j (get_or xs i d) d h,
          get_or-set xs (suc i) (j - 1) (get_or xs i d) d h,
        ))
    | inr stop ↦ rw stop (ground arith)
  ]

not_above : (a b : ℤ) → ltb_ℤ a b ≡ false → b ≤ℤ a
not_above a b h = ground arith

above_le : (a b : ℤ) → ltb_ℤ a b ≡ true → a ≤ℤ b
above_le a b h = ground arith

-- The place found is the first whose score is not above the new one.
find_place-first :
    (score : ℤ) (scores : List ℤ) (i n place : ℕ)
    → find_place score scores i n ≡ some place
    → (i ≤ place)
      × (place < i + n)
      × (get_or scores place (pos 0) ≤ℤ score)
      × ((j : ℕ) → i ≤ j → j < place → ltb_ℤ score (get_or scores j (pos 0)) ≡ true)
unfolding find_place
find_place-first score scores i zero place h = cc
find_place-first score scores i (suc n) place h =
    elim (Bool-cases (ltb_ℤ score (get_or scores i (pos 0)))) [
      | inl above ↦
          let (lo, hi, fits, before) =
            find_place-first score scores (suc i) n place (ground arith) in
          (
            omega arith,
            omega arith,
            fits,
            λ j p q. elim (ℕ_discrete i j) [
              | yes here ↦ rw here at above
              | no after ↦ before j (omega arith) q
            ],
          )
      | inr found ↦
          let here : i ≡ place = ground arith in
          (
            omega arith,
            omega arith,
            rw here at (not_above score (get_or scores i (pos 0)) found),
            λ j p q. absurd (omega arith),
          )
    ]

find_place-none :
    (score : ℤ) (scores : List ℤ) (i n : ℕ)
    → find_place score scores i n ≡ none
    → (j : ℕ) → i ≤ j
    → j < i + n
    → ltb_ℤ score (get_or scores j (pos 0)) ≡ true
unfolding find_place
find_place-none score scores i zero e j h k = absurd (omega arith)
find_place-none score scores i (suc n) e j h k =
    elim (Bool-cases (ltb_ℤ score (get_or scores i (pos 0)))) [
      | inl above ↦ elim (ℕ_discrete i j) [
        | yes here ↦ rw here at above
        | no after ↦
            find_place-none score scores (suc i) n (ground arith) j (omega arith) (omega arith)
      ]
      | inr found ↦ absurd (ground arith)
    ]

-- The table after an insertion at `place`: what stood before it is kept, what stood from it on has
-- moved down by one, and the last has dropped out.
pub record IsInserted (t : Table) (name : List ℕ) (score : ℤ) (place : ℕ) (t' : Table)
    : Type 0 where
  pub in_table : place < 10
  pub not_below : score_at t place ≤ℤ score
  pub above : (j : ℕ) → j < place → ltb_ℤ score (score_at t j) ≡ true
  pub score_there :
      (j : ℕ)
      → j < 10
      → score_at t' j
        ≡ (if j == place then score else if ltb place j then score_at t (j - 1) else score_at t j)
  pub name_there :
      (j : ℕ)
      → j < 10
      → name_at t' j
        ≡ (if j == place then some name else if ltb place j then name_at t (j - 1) else name_at t j)

module _ (t : Table) (name : List ℕ) (score : ℤ) (v : IsRanked t) where
  inserted : ℕ → Table
  inserted place = record {
    names = set (shift_down place none 9 t.names) place (some name);
    scores = set (shift_down place (pos 0) 9 t.scores) place score;
  }

  insert-some :
      (place : ℕ)
      → find_place score t.scores 0 10 ≡ some place
      → scoreboard_insert t name score ≡ inserted place
  unfolding scoreboard_insert inserted
  insert-some place e = ground arith

  insert-none : find_place score t.scores 0 10 ≡ none → scoreboard_insert t name score ≡ t
  unfolding scoreboard_insert
  insert-none e = ground arith

  cell-inserted :
      {A : Type 0} (d new : A) (xs : List A) (place j : ℕ)
      → length xs ≡ 10
      → place < 10
      → j < 10
      → get_or (set (shift_down place d 9 xs) place new) j d
        ≡ (if j == place then new else if ltb place j then get_or xs (j - 1) d else get_or xs j d)
  cell-inserted d new xs place j e h k = ground (
    arith,
    get_or-set (shift_down place d 9 xs) place j new d,
    length-shift_down d place 9 xs,
    get_or-shift_down d place 9 xs j,
  )

  inserted-IsInserted :
      (place : ℕ)
      → find_place score t.scores 0 10 ≡ some place
      → IsInserted t name score place (inserted place)
  unfolding inserted
  inserted-IsInserted place e =
      let (lo, hi, fits, before) = find_place-first score t.scores 0 10 place e in
      record {
        in_table = omega arith;
        not_below = fits;
        above = λ j h. before j (omega arith) h;
        score_there =
            λ j h. cell-inserted (pos 0) score t.scores place j v.ten_scores (omega arith) h;
        name_there =
            λ j h. cell-inserted none (some name) t.names place j v.ten_names (omega arith) h;
      }

  inserted-IsRanked :
      (place : ℕ) → IsInserted t name score place (inserted place) → IsRanked (inserted place)
  inserted-IsRanked place s = record {
    ten_names =
        unfold inserted in
        length-set (shift_down place none 9 t.names) place (some name)
        ∙ length-shift_down none place 9 t.names
        ∙ v.ten_names;
    ten_scores =
        unfold inserted in
        length-set (shift_down place (pos 0) 9 t.scores) place score
        ∙ length-shift_down (pos 0) place 9 t.scores
        ∙ v.ten_scores;
    descending = λ i j h k. ground (
      arith,
      s.score_there i,
      s.score_there j,
      s.above i,
      s.not_below,
      above_le score (score_at t i),
      v.descending i j,
      v.descending i (j - 1),
      v.descending place (j - 1),
      v.descending (i - 1) (j - 1),
    );
  }

-- Inserting into a ranked table of ten leaves it ranked. Either every score of the table is above
-- the new one and the table is as it was, or the new entry stands at the first place whose score is
-- not above it, the names and the scores from there on have moved down together by one, and the
-- last entry has dropped out.
pub scoreboard_insert_lem :
    (t : Table) (name : List ℕ) (score : ℤ)
    → IsRanked t
    → let t' = scoreboard_insert t name score in
      IsRanked t'
      × ((((j : ℕ) → j < 10 → ltb_ℤ score (score_at t j) ≡ true) × (t' ≡ t))
          ⊎ ((place : ℕ) × IsInserted t name score place t'))
scoreboard_insert_lem t name score v = elim (Option-cases (find_place score t.scores 0 10)) [
  | inl e ↦
      rw (insert-none t name score v e)
        (v, inl (λ j h. find_place-none score t.scores 0 10 e j (omega arith) (omega arith), refl))
  | inr (place, e) ↦
      let s = inserted-IsInserted t name score v place e in
      rw (insert-some t name score v place e)
        (inserted-IsRanked t name score v place s, inr (place, s))
]
