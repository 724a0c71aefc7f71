-- ===== src/Driver/Tests.antt =====
-- Runs of the driver, and its theorems at concrete rings.
use otus_c_2025_3_kushko.Common.{
  ℕ, ◌+◌, ◌-◌, ◌*◌, ◌≤◌, ◌<◌, ◌≡◌, refl, inl, ◌⊎◌, true, false, Option, none, some, List, [], ◌∷◌,
  ◌++◌, length, take, drop, replicate, min, ◌==◌, blit, if◌then◌else◌, arith, length-append,
  length-take, length-drop, length-replicate, take-append_le,
}
use otus_c_2025_3_kushko.Common.Int.{ℤ, pos}
use otus_c_2025_3_kushko.Common.Decimal.{show_int}
use otus_c_2025_3_kushko.Driver.Kernel.{Kernel, done, enospc, efault}
use otus_c_2025_3_kushko.Driver.Ring.{
  Ring, space, available, copy_in, copy_out, ring_buffer_write, ring_buffer_read,
}
use otus_c_2025_3_kushko.Driver.Ring.Inv.{IsValid, contents}
use otus_c_2025_3_kushko.Driver.Ring.Write.{write-appends, write-loses, write-outcomes}
use otus_c_2025_3_kushko.Driver.Ring.Fetch.{read-outcomes}
use otus_c_2025_3_kushko.Driver.Events.{coordinate, event_text, mouse_open}
use otus_c_2025_3_kushko.Driver.Session.{
  Call, opening, reading, writing, closing, dispatch, run_calls, brought_all, HaveRoom,
  run_calls_lem,
}
use otus_c_2025_3_kushko.Driver.Events.{simulate_mouse_data, put_event, mouse_read, mouse_write}
use otus_c_2025_3_kushko.Driver.Sysfs.{buffer_size_store, buffer_size_store_lem, SizeStored}
use otus_c_2025_3_kushko.Driver.Lifecycle.{
  Module, Registry, ready, no_memory, refused, mouse_driv_init, IsReleased, IsLoaded,
  mouse_driv_init_lem,
}

abbrev user_copy : List ℕ → ℕ → ℕ → List ℕ × ℕ
user_copy u i n = (take n (drop i u ++ replicate n 0), n - length (drop i u))

length-user_copy : (u : List ℕ) (i n : ℕ) → length (user_copy u i n).0 ≡ n
length-user_copy u i n = omega (
  arith,
  length-take n (drop i u ++ replicate n 0),
  length-append (drop i u) (replicate n 0),
  length-replicate {A = ℕ} n 0,
)

user_copied :
    (u : List ℕ) (i n : ℕ)
    → (user_copy u i n).1 ≡ 0
    → i + n ≤ length u
    → (user_copy u i n).0 ≡ take n (drop i u)
user_copied u i n e h = take-append_le n (drop i u) (replicate n 0) (omega (arith, length-drop i u))

zeros : (n : ℕ) (d : List ℕ) → some (replicate n 0) ≡ some d → length d ≡ n
zeros n d e = ground (arith, length-replicate {A = ℕ} n 0)

-- A kernel that has memory, and whose callers pass lists that can be read and written.
abbrev kernel : Kernel
kernel = record {
  kmalloc = λ n. some (replicate n 0);
  length-kmalloc = zeros;
  copy_from_user = user_copy;
  length-copy = length-user_copy;
  copied = user_copied;
  copy_to_user = λ i bs. 0;
}

-- Two bytes round the end of an array of five.
abbrev wrapped : Ring
wrapped = record { bytes = 9 ∷ 0 ∷ 0 ∷ 0 ∷ 8 ∷ []; size = 5; head = 1; tail = 4 }

-- One byte in the middle.
abbrev middle : Ring
middle = record { bytes = 0 ∷ 0 ∷ 7 ∷ 0 ∷ 0 ∷ []; size = 5; head = 3; tail = 2 }

wrapped-IsValid : IsValid wrapped
wrapped-IsValid = omega arith

middle-IsValid : IsValid middle
middle-IsValid = omega arith

write_round :
    ring_buffer_write kernel middle (1 ∷ 2 ∷ 3 ∷ []) 3
    ≡ (record { bytes = 3 ∷ 0 ∷ 7 ∷ 1 ∷ 2 ∷ []; size = 5; head = 1; tail = 2 }, done 3)
unfolding ring_buffer_write copy_in space blit
write_round = refl

read_round : (ring_buffer_read kernel wrapped 9 100).got ≡ 8 ∷ 9 ∷ []
unfolding ring_buffer_read copy_out available
read_round = refl

write-appends_example :
    (◌≡◌ {A = ℕ} 3 (min 3 (space middle)))
    × (contents (ring_buffer_write kernel middle (1 ∷ 2 ∷ 3 ∷ []) 3).0
        ≡ contents middle ++ take 3 (1 ∷ 2 ∷ 3 ∷ []))
    × IsValid (ring_buffer_write kernel middle (1 ∷ 2 ∷ 3 ∷ []) 3).0
unfolding ring_buffer_write copy_in space available
write-appends_example =
    write-appends kernel middle (1 ∷ 2 ∷ 3 ∷ []) 3 3 middle-IsValid (omega arith)
      (inl (omega arith)) refl

-- Four bytes behind the one that is stored fill the array: all five are gone.
write-loses_example : contents (ring_buffer_write kernel middle (1 ∷ 2 ∷ 3 ∷ 4 ∷ []) 4).0 ≡ []
unfolding ring_buffer_write copy_in space available
write-loses_example =
    write-loses kernel middle (1 ∷ 2 ∷ 3 ∷ 4 ∷ []) 4 4 middle-IsValid (omega arith) (omega arith)
      refl

write-outcomes_example :
    let (r', ret) = ring_buffer_write kernel wrapped (1 ∷ 2 ∷ 3 ∷ []) 3 in
    IsValid r'
    × (((min 3 (space wrapped) ≡ 0) × (ret ≡ enospc) × (r' ≡ wrapped))
        ⊎ ((0 < min 3 (space wrapped))
            × (ret ≡ efault)
            × (contents r' ≡ contents wrapped)
            × (r'.head ≡ wrapped.head)
            × (r'.tail ≡ wrapped.tail))
        ⊎ ((0 < min 3 (space wrapped))
            × (ret ≡ done (min 3 (space wrapped)))
            × (r'.tail ≡ wrapped.tail)))
write-outcomes_example = write-outcomes kernel wrapped (1 ∷ 2 ∷ 3 ∷ []) 3 wrapped-IsValid

read-outcomes_example :
    let o = ring_buffer_read kernel wrapped 9 100 in
    IsValid o.ring
    × (((min 9 (available wrapped) ≡ 0) × (o.ret ≡ done 0) × (o.ring ≡ wrapped) × (o.offset ≡ 100))
        ⊎ ((0 < min 9 (available wrapped))
            × (o.ret ≡ efault)
            × (o.ring ≡ wrapped)
            × (o.offset ≡ 100))
        ⊎ ((0 < min 9 (available wrapped))
            × (o.ret ≡ done (min 9 (available wrapped)))
            × (o.got ++ contents o.ring ≡ contents wrapped)
            × (length o.got ≡ min 9 (available wrapped))
            × (o.offset ≡ 100 + min 9 (available wrapped))))
read-outcomes_example = read-outcomes kernel wrapped 9 100 wrapped-IsValid

-- An array of sixteen bytes, three of them stored, that takes an event round its end.
-- An event, a read of one byte, and a write.
abbrev roomy : Ring
roomy = record { bytes = replicate 16 1; size = 16; head = 11; tail = 8 }

roomy-IsValid : IsValid roomy
roomy-IsValid = omega arith

abbrev calls : List Call
calls = opening (pos 0) 17 3 ∷ reading kernel 1 0 ∷ writing kernel (3 ∷ 4 ∷ []) 1 ∷ closing ∷ []

calls-HaveRoom : HaveRoom roomy calls
unfolding dispatch mouse_open simulate_mouse_data put_event mouse_read ring_buffer_read copy_out
    mouse_write ring_buffer_write space available event_text coordinate show_int copy_in
calls-HaveRoom = (inl (omega arith), (tt, ((omega arith, inl (omega arith)), (tt, tt))))

run_calls_lem_example :
    let (r', got) = run_calls roomy calls in
    (contents roomy ++ brought_all roomy calls ≡ got ++ contents r') × IsValid r'
run_calls_lem_example = run_calls_lem roomy calls roomy-IsValid calls-HaveRoom

-- "2" is parsed, any other text is refused.
abbrev parse_two : List ℕ → Option ℤ
parse_two (x ∷ xs) = if x == 50 then some (pos 2) else none
parse_two [] = none

abbrev parse_size : List ℕ → Option ℕ
parse_size (x ∷ xs) = some (x * 2)
parse_size [] = none

buffer_size_store_lem_example :
    IsValid (buffer_size_store kernel parse_size wrapped (50 ∷ []) 1).0
    × SizeStored kernel parse_size wrapped
        (50 ∷ [])
        1
        (buffer_size_store kernel parse_size wrapped (50 ∷ []) 1).0
        (buffer_size_store kernel parse_size wrapped (50 ∷ []) 1).1
buffer_size_store_lem_example =
    buffer_size_store_lem kernel parse_size wrapped (50 ∷ []) 1 wrapped-IsValid

abbrev unloaded : Module
unloaded = record {
  buffer = record { bytes = []; size = 0; head = 0; tail = 0 };
  major_number = pos 0;
  chrdev = false;
  kobject = false;
  attributes = false;
}

-- The sysfs object cannot be created.
abbrev no_kobject : Registry
no_kobject = record { major = pos 240; kobject_created = false; group_created = true }

unloaded-IsReleased : IsReleased unloaded
unloaded-IsReleased = record {
  no_buffer = refl;
  no_device = refl;
  no_object = refl;
  no_attributes = refl;
}

mouse_driv_init_lem_example :
    let (m', ret) = mouse_driv_init kernel no_kobject 64 unloaded in
    ((ret ≡ ready) × IsLoaded m' × (m'.buffer.size ≡ 64))
    ⊎ ((ret ≡ no_memory) × IsReleased m')
    ⊎ ((ret ≡ refused (pos 240)) × IsReleased m')
mouse_driv_init_lem_example =
    mouse_driv_init_lem kernel no_kobject 64 unloaded (omega arith) unloaded-IsReleased
