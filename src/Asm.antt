-- ===== src/Asm.antt =====
-- hw03-asm/main.c: a linked list of numbers in memory, which the program prints, filters and frees.
pub mod Memory
pub mod Chain
pub mod Filter
pub mod Walk
pub mod Whole
mod Tests
use otus_c_2025_3_kushko.Common.{
  ℕ, zero, suc, ◌+◌, ◌%◌, Bool, true, false, List, [], ◌∷◌, ◌++◌, Option, none, some, length, ◌==◌,
  if◌then◌else◌,
}
use otus_c_2025_3_kushko.Common.Int.{ℤ, pos, negsuc}
use otus_c_2025_3_kushko.Common.Decimal.{show_int}
use otus_c_2025_3_kushko.Asm.Memory.{Element, Heap, load, store, release, Allocator}

-- The memory and what has been printed.
pub record State : Type 0 where
  pub heap : Heap
  pub out : List ℕ

-- The end of a walk: a result, the use of memory that is not allocated, or no fuel left.
pub data Run (A : Type 0) : Type 0 where
  ok : A → State → Run A
  fault : Run A
  out_of_fuel : Run A

infixl 5 ◌>>=◌
abbrev pub ◌>>=◌ : {A B : Type 0} → Run A → (A → State → Run B) → Run B
ok a s >>= k = k a s
fault >>= k = fault
out_of_fuel >>= k = out_of_fuel

-- The element at an address, which is then handed on.
abbrev pub with_element : {A : Type 0} → Option Element → (Element → Run A) → Run A
with_element none k = fault
with_element (some e) k = k e

-- A function that `m` calls with an element's address.
abbrev pub Action : Type 0
Action = ℕ → State → Run (Unit {0})

-- The format is "%ld ".
unfoldable pub print_int : Action
print_int li s =
    with_element (load s.heap li)
      (λ e. ok tt (record s { out = s.out ++ (show_int e.value ++ 32 ∷ []) }))

unfoldable pub free_element : Action
free_element li s =
    with_element (load s.heap li) (λ e. ok tt (record s { heap = release s.heap li }))

-- The lowest bit of a number in two's complement.
unfoldable pub p : ℤ → Bool
p (pos n) = n % 2 == 1
p (negsuc n) = n % 2 == 0

-- `m`: the walk along a list, on fuel.
unfoldable pub m : ℕ → ℕ → Action → State → Run (Unit {0})
m zero li func s = out_of_fuel
m (suc fuel) li func s =
    if li == 0
    then ok tt s
    else with_element (load s.heap li) (λ e. func li s >>= λ u s'. m fuel e.prev_addr func s')

module _ (allocator : Allocator) where
  -- Null when there is no memory.
  unfoldable pub add_element : ℕ → ℤ → State → ℕ × State
  add_element prev_addr value s =
      let li = allocator.malloc s.heap in
      if li == 0 then (0, s) else (
        li,
        record s { heap = store s.heap li (record { value = value; prev_addr = prev_addr }) },
      )

  -- `f`: the elements whose values pass a test, added to the list `dst`, on fuel.
  unfoldable pub f : ℕ → ℕ → (ℤ → Bool) → ℕ → State → Run ℕ
  f zero src func dst s = out_of_fuel
  f (suc fuel) src func dst s =
      if src == 0
      then ok dst s
      else with_element (load s.heap src) (λ e.
        let (dst', s') = if func e.value then add_element dst e.value s else (dst, s) in
        with_element (load s'.heap src) (λ e'. f fuel e'.prev_addr func dst' s'))

  -- The loop of `main` that builds the list, from the end of the data.
  unfoldable pub build : List ℤ → State → ℕ × State
  build [] s = (0, s)
  build (value ∷ values) s = let (first, s') = build values s in add_element first value s'

  abbrev puts_newline : State → State
  puts_newline s = record s { out = s.out ++ 10 ∷ [] }

  -- `main` after the data are there. The fuel is more than the lists are long.
  unfoldable pub main : List ℤ → State → Run (Unit {0})
  main values s =
      let fuel = suc (length values) in
      let (first, built) = build values s in
      m fuel first print_int built >>= λ u printed.
      f fuel first p 0 (puts_newline printed) >>= λ second filtered.
      m fuel second print_int filtered >>= λ u shown.
      m fuel first free_element (puts_newline shown) >>= λ u freed. m fuel second free_element freed
