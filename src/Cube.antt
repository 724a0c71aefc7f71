-- ===== src/Cube.antt =====
-- hw16-cube/main.c: a cube that turns until a key ends it. What SDL and OpenGL answer is an argument;
-- the calls of OpenGL for a frame are data.
pub mod Frames
mod Tests
use otus_c_2025_3_kushko.Common.{
  ℕ, zero, suc, ◌+◌, ◌%◌, ◌^◌, Bool, true, false, ◌||◌, List, [], ◌∷◌, ◌++◌, leb, if◌then◌else◌,
}
use otus_c_2025_3_kushko.Common.Int.{ℤ, pos, negsuc}
use otus_c_2025_3_kushko.Common.Text.{codes}

-- An event of SDL: SDL_QUIT, a key, which may be escape, or any other.
pub data Event : Type 0 where
  quit : Event
  key_down : Bool → Event
  other : Event

abbrev pub ends : Event → Bool
ends quit = true
ends (key_down escape) = escape
ends other = false

-- A corner, its coordinates in tenths.
pub record Vertex : Type 0 where
  pub x : ℤ
  pub y : ℤ
  pub z : ℤ

-- The calls of OpenGL in a frame; a color is in hundredths, and an angle, in degrees, is about the
-- axis (1, 0.5, 0).
pub data Call : Type 0 where
  load_identity clear begin_quads end_quads pop_matrix enable_depth_test swap_window : Call
  rotatef : ℕ → Call
  color3f : ℕ → ℕ → ℕ → Call
  vertex3f : Vertex → Call

abbrev half : ℤ
half = pos 5

abbrev minus_half : ℤ
minus_half = negsuc 4

abbrev at : ℤ → ℤ → ℤ → Call
at x y z = vertex3f (record { x = x; y = y; z = z })

-- The calls between `glBegin` and `glEnd`.
unfoldable pub quads : List Call
quads =
    color3f 50 0 50
    ∷ at minus_half minus_half minus_half
    ∷ at half minus_half minus_half
    ∷ at half half minus_half
    ∷ at minus_half half minus_half
    ∷ color3f 40 0 40
    ∷ at minus_half minus_half half
    ∷ at half minus_half half
    ∷ at half half half
    ∷ at minus_half half half
    ∷ color3f 45 0 45
    ∷ at minus_half half minus_half
    ∷ at minus_half half half
    ∷ at half half half
    ∷ at half half minus_half
    ∷ color3f 65 0 65
    ∷ at minus_half minus_half minus_half
    ∷ at minus_half minus_half half
    ∷ at half minus_half half
    ∷ at half minus_half minus_half
    ∷ color3f 55 0 55
    ∷ at half minus_half minus_half
    ∷ at half half minus_half
    ∷ at half half half
    ∷ at half minus_half half
    ∷ color3f 60 0 60
    ∷ at minus_half minus_half minus_half
    ∷ at minus_half half minus_half
    ∷ at minus_half half half
    ∷ at minus_half minus_half half
    ∷ []

-- The calls of a frame.
unfoldable pub draw : ℕ → List Call
draw angle =
    load_identity
    ∷ rotatef angle
    ∷ clear
    ∷ begin_quads
    ∷ (quads ++ end_quads ∷ pop_matrix ∷ enable_depth_test ∷ swap_window ∷ [])

-- `angle + 1 % 360`, where the remainder is taken first. A float holds every whole number up to
-- 2 ^ 24, and the next one rounds back to it.
unfoldable pub next_angle : ℕ → ℕ
next_angle angle = let sum = angle + 1 % 360 in if leb sum (2 ^ 24) then sum else 2 ^ 24

-- The loop over the events that are there.
unfoldable pub poll : Bool → List Event → Bool
poll has_quit_event [] = has_quit_event
poll has_quit_event (event ∷ events) = poll (if ends event then true else has_quit_event) events

-- What has been drawn, frame by frame, and whether the loop has ended.
pub record Drawn : Type 0 where
  pub frames : List (List Call)
  pub ended : Bool

-- The loop of `main`, over the events that each round meets.
unfoldable pub run_frames_from : ℕ → List (List Event) → Drawn
run_frames_from angle [] = record { frames = []; ended = false }
run_frames_from angle (events ∷ rounds) =
    let angle' = next_angle angle in
    let later = run_frames_from angle' rounds in
    if poll false events
    then record { frames = draw angle' ∷ []; ended = true }
    else record { frames = draw angle' ∷ later.frames; ended = later.ended }

-- How far the window comes; an error of the swap interval is printed and does not stop the program.
pub data Setup : Type 0 where
  no_video no_window no_context gl_error : Setup
  shown : Bool → Setup

-- The start of the message at an exit, or the frames.
pub data Outcome : Type 0 where
  exits : List ℕ → Outcome
  shows : Drawn → Outcome

unfoldable pub main : Setup → List (List Event) → Outcome
main no_video rounds = exits (codes "SDL_Init() failed: ")
main no_window rounds = exits (codes "SDL_CreateWindow() failed: ")
main no_context rounds = exits (codes "SDL_GL_CreateContext() failed: ")
main gl_error rounds = exits (codes "GL init failed: ")
main (shown swaps) rounds = shows (run_frames_from 0 rounds)
