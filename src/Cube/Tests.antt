-- ===== src/Cube/Tests.antt =====
-- A run of hw16-cube/main.c: two rounds without an end, and then escape.
use otus_c_2025_3_kushko.Common.{◌≡◌, refl, true, false, List, [], ◌∷◌}
use otus_c_2025_3_kushko.Cube.{Event, key_down, other, shown, shows, main}
use otus_c_2025_3_kushko.Cube.Frames.{frames_from, corner_counts, cube_counts, main-shows}

abbrev quiet : List (List Event)
quiet = [] ∷ (other ∷ key_down false ∷ []) ∷ []

main-shows_example :
    (main (shown true) ([] ∷ (other ∷ key_down false ∷ []) ∷ (key_down true ∷ other ∷ []) ∷ [])
      ≡ shows (record { frames = frames_from 1 3; ended = true }))
    × (corner_counts true false true 7 ≡ cube_counts true false true)
main-shows_example =
    main-shows true quiet (key_down true ∷ other ∷ []) [] true false true 7 (refl, (refl, tt)) refl
