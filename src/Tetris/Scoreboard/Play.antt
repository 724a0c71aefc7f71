-- ===== src/Tetris/Scoreboard/Play.antt =====
-- One run of the program of hw17-tetris/main.c, between the file it loads and the file it saves.
use otus_c_2025_3_kushko.Common.{
  ℕ, ◌-◌, ◌<◌, ◌≡◌, refl, sym, inl, inr, List, All, Option, some, length, subst, arith,
}
use native.Mathlib.Decide.{ℕ_discrete, dec_lt}
use otus_c_2025_3_kushko.Common.Int.{pos}
use otus_c_2025_3_kushko.Tetris.Scoreboard.{
  Table, scoreboard_init, scoreboard_insert, fill, find_place, shift_down,
}
use otus_c_2025_3_kushko.Tetris.Scoreboard.Insert.{
  IsRanked, IsInserted, score_at, name_at, scoreboard_insert_lem,
}
use otus_c_2025_3_kushko.Tetris.Scoreboard.File.{
  scoreboard_save, scoreboard_load, player_name, play,
}
use otus_c_2025_3_kushko.Tetris.Scoreboard.Saved.{
  IsSavable, IsPlain, scoreboard_load-scoreboard_save,
}

module _ (t t' : Table) (name : List ℕ) (score place : ℕ) (v : IsSavable t)
    (s : IsInserted t name (pos score) place t') where
  inserted_name :
      All IsPlain name
      → 0 < length name
      → (i : ℕ) → i < 10
      → (found : List ℕ) × (name_at t' i ≡ some found) × All IsPlain found × (0 < length found)
  inserted_name plain some_char i h = elim (ℕ_discrete i place) [
    | yes here ↦ (name, ground (arith, s.name_there i h), plain, some_char)
    | no other ↦ elim (dec_lt place i) [
      | yes after ↦
          let (found, e, p, n) = v.named (i - 1) (omega arith) in
          (found, ground (arith, s.name_there i h, e), p, n)
      | no first ↦
          let (found, e, p, n) = v.named i h in (found, ground (arith, s.name_there i h, e), p, n)
    ]
  ]

  inserted_score : (i : ℕ) → i < 10 → (found : ℕ) × (score_at t' i ≡ pos found)
  inserted_score i h = elim (ℕ_discrete i place) [
    | yes here ↦ (score, ground (arith, s.score_there i h))
    | no other ↦ elim (dec_lt place i) [
      | yes after ↦
          let (found, e) = v.scored (i - 1) (omega arith) in
          (found, ground (arith, s.score_there i h, e))
      | no first ↦ let (found, e) = v.scored i h in (found, ground (arith, s.score_there i h, e))
    ]
  ]

insert-IsSavable :
    (t : Table) (name : List ℕ) (score : ℕ)
    → IsRanked t
    → IsSavable t
    → All IsPlain name
    → 0 < length name
    → IsSavable (scoreboard_insert t name (pos score))
insert-IsSavable t name score r v plain some_char =
    let (r', outcome) = scoreboard_insert_lem t name (pos score) r in
    elim outcome [
      | inl (above, same) ↦ subst IsSavable (sym same) v
      | inr (place, s) ↦ record {
        ten_names = r'.ten_names;
        ten_scores = r'.ten_scores;
        named =
            inserted_name t (scoreboard_insert t name (pos score)) name score place v s plain
              some_char;
        scored = inserted_score t (scoreboard_insert t name (pos score)) name score place v s;
      }
    ]

init_lengths : (length scoreboard_init.names ≡ 10) × (length scoreboard_init.scores ≡ 10)
unfolding scoreboard_init fill scoreboard_insert find_place shift_down
init_lengths = (refl, refl)

-- A run of the program from the file of a ranked table that can be saved, with a name of plain
-- characters and a score that is not negative, saves the table with the score inserted, which is
-- again ranked and can be saved, so that a next run loads it.
pub play_lem :
    (t : Table) (line : Option (List ℕ)) (score : ℕ)
    → IsRanked t
    → IsSavable t
    → All IsPlain (player_name line)
    → 0 < length (player_name line)
    → let t' = scoreboard_insert t (player_name line) (pos score) in
      (play (some (scoreboard_save t)) line (pos score) ≡ some (scoreboard_save t'))
      × IsRanked t'
      × IsSavable t'
      × (scoreboard_load (some (scoreboard_save t')) scoreboard_init ≡ some t')
unfolding play
play_lem t line score r v plain some_char =
    let loads = λ (u : Table) (w : IsSavable u).
      scoreboard_load-scoreboard_save u scoreboard_init w init_lengths.0 init_lengths.1 in
    let t' = scoreboard_insert t (player_name line) (pos score) in
    let v' = insert-IsSavable t (player_name line) score r v plain some_char in
    (
      ground (arith, loads t v),
      (scoreboard_insert_lem t (player_name line) (pos score) r).0,
      v',
      loads t' v',
    )
