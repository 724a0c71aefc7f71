-- ===== src/Cube/Frames.antt =====
-- The frames of hw16-cube/main.c.
use otus_c_2025_3_kushko.Common.{
  ℕ, zero, suc, ◌+◌, ◌^◌, min, ◌≡◌, refl, ap, ◌∙◌, Bool, true, false, not, map, ◌&&◌, ◌==◌, ◌||◌,
  Bool-cases, inl, inr, List, [], ◌∷◌, ◌++◌, All, length, if◌then◌else◌, arith,
}
use otus_c_2025_3_kushko.Common.Int.{ℤ, pos, negsuc}
use otus_c_2025_3_kushko.Cube.{
  Vertex, Event, ends, Call, load_identity, clear, begin_quads, end_quads, pop_matrix,
  enable_depth_test, swap_window, rotatef, color3f, vertex3f, quads, draw, next_angle, poll, Drawn,
  run_frames_from, shown, shows, main,
}

-- Some event of a round ends the loop, or none.
abbrev pub has_end : List Event → Bool
has_end [] = false
has_end (event ∷ events) = ends event || has_end events

poll-has_end : (set : Bool) (events : List Event) → poll set events ≡ (set || has_end events)
unfolding poll
poll-has_end true [] = refl
poll-has_end false [] = refl
poll-has_end set (event ∷ events) = elim (Bool-cases (ends event)) [
  | inl e ↦ rw e (poll-has_end true events ∙ ground arith)
  | inr e ↦ rw e (poll-has_end set events)
]

-- `n` frames from the one that is number `k`, whose angle is its number, up to 2 ^ 24.
abbrev pub frames_from : ℕ → ℕ → List (List Call)
frames_from k zero = []
frames_from k (suc n) = draw (min k (2 ^ 24)) ∷ frames_from (k + 1) n

abbrev pub AreQuiet : List (List Event) → Type 0
AreQuiet = All (λ events. has_end events ≡ false)

next_angle-min : (k : ℕ) → next_angle (min k (2 ^ 24)) ≡ min (k + 1) (2 ^ 24)
unfolding next_angle
next_angle-min k = ground arith

run_frames-drawn :
    (k : ℕ) (quiet : List (List Event)) (last : List Event) (rest : List (List Event))
    → AreQuiet quiet
    → has_end last ≡ true
    → run_frames_from (min k (2 ^ 24)) (quiet ++ last ∷ rest)
      ≡ record { frames = frames_from (k + 1) (suc (length quiet)); ended = true }
unfolding run_frames_from
run_frames-drawn k [] last rest h e =
    rw (poll-has_end false last ∙ e)
      (ap (λ angle. record { frames = draw angle ∷ []; ended = true }) (next_angle-min k))
run_frames-drawn k (events ∷ quiet) last rest h e = rw (poll-has_end false events ∙ h.0) (
    ap
      (λ angle. record {
        frames = draw angle ∷ (run_frames_from angle (quiet ++ last ∷ rest)).frames;
        ended = (run_frames_from angle (quiet ++ last ∷ rest)).ended;
      })
      (next_angle-min k)
    ∙ ap
        (λ (d : Drawn). record { frames = draw (min (k + 1) (2 ^ 24)) ∷ d.frames; ended = d.ended })
        (run_frames-drawn (k + 1) quiet last rest h.1 e))

-- A coordinate is that of a corner: half, or minus half.
abbrev is_side : ℤ → Bool → Bool
is_side (pos n) true = n == 5
is_side (pos n) false = false
is_side (negsuc n) true = false
is_side (negsuc n) false = n == 4

abbrev is_corner : Bool → Bool → Bool → Vertex → Bool
is_corner a b c v = is_side v.x a && is_side v.y b && is_side v.z c

-- The corners that a frame draws, in order.
abbrev vertices : List Call → List Vertex
vertices [] = []
vertices (vertex3f v ∷ calls) = v ∷ vertices calls
vertices (load_identity ∷ calls) = vertices calls
vertices (clear ∷ calls) = vertices calls
vertices (begin_quads ∷ calls) = vertices calls
vertices (end_quads ∷ calls) = vertices calls
vertices (pop_matrix ∷ calls) = vertices calls
vertices (enable_depth_test ∷ calls) = vertices calls
vertices (swap_window ∷ calls) = vertices calls
vertices (rotatef angle ∷ calls) = vertices calls
vertices (color3f r g b ∷ calls) = vertices calls

-- Four corners after each other are a face.
abbrev faces : List Vertex → List (List Vertex)
faces [] = []
faces (p ∷ []) = (p ∷ []) ∷ []
faces (p ∷ q ∷ []) = (p ∷ q ∷ []) ∷ []
faces (p ∷ q ∷ r ∷ []) = (p ∷ q ∷ r ∷ []) ∷ []
faces (p ∷ q ∷ r ∷ s ∷ vs) = (p ∷ q ∷ r ∷ s ∷ []) ∷ faces vs

-- How often a face has a corner, by the signs of the corner's coordinates.
abbrev times : Bool → Bool → Bool → List Vertex → ℕ
times a b c [] = 0
times a b c (v ∷ vs) = (if is_corner a b c v then 1 else 0) + times a b c vs

-- How often each face of a frame has a corner.
abbrev pub corner_counts : Bool → Bool → Bool → ℕ → List ℕ
corner_counts a b c angle = map (times a b c) (faces (vertices (draw angle)))

abbrev once_if : Bool → ℕ
once_if b = if b then 1 else 0

-- The back, the front, the top, the bottom, the right and the left of a cube, as a corner of it has
-- or has not each.
abbrev pub cube_counts : Bool → Bool → Bool → List ℕ
cube_counts a b c =
    once_if (not c) ∷ once_if c ∷ once_if b ∷ once_if (not b) ∷ once_if a ∷ once_if (not a) ∷ []

corners-cube : (a b c : Bool) (angle : ℕ) → corner_counts a b c angle ≡ cube_counts a b c
unfolding draw quads
corners-cube true true true angle = refl
corners-cube true true false angle = refl
corners-cube true false true angle = refl
corners-cube true false false angle = refl
corners-cube false true true angle = refl
corners-cube false true false angle = refl
corners-cube false false true angle = refl
corners-cube false false false angle = refl

-- Once the window is shown, the loop draws a frame for each round up to the first whose events have
-- an end, and for that one too, and then ends. The angle of a frame is its number, which is never
-- taken modulo 360, up to 2 ^ 24, where it stays. And a frame draws, four corners each, the six faces
-- of a cube from minus half to half: each corner of the cube stands once in each of the three faces
-- that it belongs to, and in no other.
pub main-shows :
    (swaps : Bool) (quiet : List (List Event)) (last : List Event) (rest : List (List Event))
    (a b c : Bool) (angle : ℕ)
    → AreQuiet quiet
    → has_end last ≡ true
    → (main (shown swaps) (quiet ++ last ∷ rest)
        ≡ shows (record { frames = frames_from 1 (suc (length quiet)); ended = true }))
      × (corner_counts a b c angle ≡ cube_counts a b c)
unfolding main
main-shows swaps quiet last rest a b c angle h e =
    (ap shows (run_frames-drawn 0 quiet last rest h e), corners-cube a b c angle)
