-- ===== src/Driver/Events.antt =====
-- The mouse events of hw14-driver/mouse_driv.c: `simulate_mouse_data` and the file operations.
use native.Mathlib.Decide.{dec_le}
use otus_c_2025_3_kushko.Common.{
  ℕ, ◌+◌, ◌-◌, ◌%◌, ◌^◌, ◌≤◌, ◌<◌, ◌≡◌, refl, subst, ◌⊎◌, List, [], ◌∷◌, ◌++◌, length, take, drop,
  leb, ltb, le→leb, lt→leb_false, ◌==◌, if◌then◌else◌, blit, arith, length-blit, take-append-drop,
  length-take, length-drop,
}
use otus_c_2025_3_kushko.Common.Int.{ℤ, pos, negsuc, ◌≤ℤ◌}
use otus_c_2025_3_kushko.Common.Decimal.{show_int}
use otus_c_2025_3_kushko.Driver.Kernel.{Kernel, Ret, add_size, sub_size}
use otus_c_2025_3_kushko.Driver.Ring.{
  Ring, Read, space, available, ring_buffer_read, ring_buffer_write,
}
use otus_c_2025_3_kushko.Driver.Ring.Inv.{IsValid, contents}
use otus_c_2025_3_kushko.Driver.Ring.Store.{straight-append, gap-append, round-append}

-- The conversion of an `unsigned long` to `int`.
abbrev pub to_int : ℕ → ℤ
to_int n = let w = n % 2 ^ 32 in if ltb w (2 ^ 31) then pos w else negsuc (2 ^ 32 - w - 1)

-- `get_random_long() % 10 - 5`, in unsigned arithmetic.
unfoldable pub coordinate : ℕ → ℤ
coordinate random = to_int (sub_size (random % 10) 5)

-- "MOUSE_X:" and "MOUSE_Y:"
abbrev pub x_label : List ℕ
x_label = b'M' ∷ b'O' ∷ b'U' ∷ b'S' ∷ b'E' ∷ b'_' ∷ b'X' ∷ b':' ∷ []

abbrev pub y_label : List ℕ
y_label = b'M' ∷ b'O' ∷ b'U' ∷ b'S' ∷ b'E' ∷ b'_' ∷ b'Y' ∷ b':' ∷ []

-- A label, a number and a line end.
abbrev pub event_line : List ℕ → ℤ → List ℕ
event_line label value = label ++ show_int value ++ 10 ∷ []

-- `event_str` for a display mode: 0 for x, 1 for y, any other for both.
unfoldable pub event_text : ℤ → ℤ → ℤ → List ℕ
event_text (pos mode) x y =
    if mode == 0
    then event_line x_label x
    else if mode == 1
    then event_line y_label y
    else event_line x_label x ++ event_line y_label y
event_text (negsuc mode) x y = event_line x_label x ++ event_line y_label y

-- The part of `simulate_mouse_data` under the lock: an event that does not fit is dropped.
unfoldable pub put_event : Ring → List ℕ → Ring
put_event r event =
    let n = length event in
    if leb n (space r)
    then (if leb (add_size r.head n) r.size
        then record r { bytes = blit r.bytes r.head event; head = add_size r.head n }
        else (let first = sub_size r.size r.head in
            record r {
              bytes = blit (blit r.bytes r.head (take first event)) 0 (drop first event);
              head = sub_size n first;
            }))
    else r

-- The two arguments behind the mode are what `get_random_long` returns.
unfoldable pub simulate_mouse_data : Ring → ℤ → ℕ → ℕ → Ring
simulate_mouse_data r mode random_x random_y =
    put_event r (event_text mode (coordinate random_x) (coordinate random_y))

unfoldable pub mouse_open : Ring → ℤ → ℕ → ℕ → Ring
mouse_open r mode random_x random_y = simulate_mouse_data r mode random_x random_y

unfoldable pub mouse_release : Ring → Ring
mouse_release r = r

unfoldable pub mouse_read : Kernel → Ring → ℕ → ℕ → Read
mouse_read k r len offset = ring_buffer_read k r len offset

unfoldable pub mouse_write : Kernel → Ring → List ℕ → ℕ → Ring × Ret
mouse_write k r user len = ring_buffer_write k r user len

-- A simulated coordinate lies from -5 to 4.
coordinate_bounds : (random : ℕ) → (negsuc 4 ≤ℤ coordinate random) × (coordinate random ≤ℤ pos 4)
unfolding coordinate
coordinate_bounds random = ground arith

module _ (r : Ring) (v : IsValid r) (event : List ℕ) where
  abbrev first : ℕ
  first = sub_size r.size r.head

  event_halves : take first event ++ drop first event ≡ event
  event_halves = take-append-drop first event

  pub put_event-appends :
      length event ≤ space r
      → (available r + length event < r.size) ⊎ (r.tail ≡ 0)
      → contents (put_event r event) ≡ contents r ++ event
  unfolding put_event space available
  put_event-appends room fits = ground (
    arith,
    length-take first event,
    length-drop first event,
    length-blit r.bytes event r.head,
    length-blit r.bytes (take first event) r.head,
    straight-append r v event (add_size r.head (length event)),
    gap-append r v event (add_size r.head (length event)),
    round-append r v (take first event) (drop first event),
    event_halves,
  )

  put_event-dropped : space r < length event → put_event r event ≡ r
  unfolding put_event
  put_event-dropped over = ground arith

  put_event_lem :
      (available r + length (if leb (length event) (space r) then event else []) < r.size)
        ⊎ (r.tail ≡ 0)
      → contents (put_event r event)
        ≡ (if leb (length event) (space r) then contents r ++ event else contents r)
  put_event_lem fits = elim (dec_le (length event) (space r)) [
    | yes room ↦
        let stored = le→leb (length event) (space r) room in
        rw stored (
          put_event-appends room (
            subst (λ b. (available r + length (if b then event else []) < r.size) ⊎ (r.tail ≡ 0))
              stored fits))
    | no over ↦
        rw (lt→leb_false (length event) (space r) (omega arith), put_event-dropped (omega arith))
          refl
  ]

  pub put_event-IsValid : IsValid (put_event r event)
  unfolding put_event space
  put_event-IsValid = ground (
    arith,
    length-take first event,
    length-drop first event,
    length-blit r.bytes event r.head,
    length-blit r.bytes (take first event) r.head,
    length-blit (blit r.bytes r.head (take first event)) (drop first event) 0,
  )

-- Opening the device of a valid ring keeps it valid, and stores the event whole behind the bytes
-- that are there, or drops it if it is longer than the free space; the condition is that what is
-- stored leaves one byte of the buffer free or that `tail` is 0.
pub mouse_open_lem :
    (r : Ring) (mode : ℤ) (random_x random_y : ℕ)
    → IsValid r
    → let event = event_text mode (coordinate random_x) (coordinate random_y) in
      (available r + length (if leb (length event) (space r) then event else []) < r.size)
        ⊎ (r.tail ≡ 0)
      → let r' = mouse_open r mode random_x random_y in
        IsValid r'
        × (contents r' ≡ (if leb (length event) (space r) then contents r ++ event else contents r))
unfolding mouse_open simulate_mouse_data
mouse_open_lem r mode random_x random_y v fits =
    let event = event_text mode (coordinate random_x) (coordinate random_y) in
    (put_event-IsValid r v event, put_event_lem r v event fits)
