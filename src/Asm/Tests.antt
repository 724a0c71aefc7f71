-- ===== src/Asm/Tests.antt =====
-- hw03-asm with an allocator that gives the address after the highest one in use.
use otus_c_2025_3_kushko.Common.{ℕ, suc, ◌<◌, ◌≡◌, refl, List, [], ◌∷◌, ◌++◌, none, max, arith}
use otus_c_2025_3_kushko.Common.Int.{ℤ, pos}
use otus_c_2025_3_kushko.Common.Decimal.{show_int, show_nat}
use otus_c_2025_3_kushko.Common.Text.{codes}
use otus_c_2025_3_kushko.Asm.{
  State, Run, ok, p, main, m, f, build, add_element, print_int, free_element,
}
use otus_c_2025_3_kushko.Asm.Memory.{Heap, load, store, release, Allocator}
use otus_c_2025_3_kushko.Asm.Walk.{line}
use otus_c_2025_3_kushko.Asm.Filter.{filter_onto}
use otus_c_2025_3_kushko.Asm.Whole.{main_lem}

abbrev top : Heap → ℕ
top [] = 0
top ((a, e) ∷ h) = max a (top h)

above_top : (h : Heap) (a : ℕ) → top h < a → load h a ≡ none
unfolding load
above_top [] a k = refl
above_top ((b, e) ∷ h) a k = ground (arith, above_top h a (omega arith))

abbrev next_address : Allocator
next_address = record {
  malloc = λ h. suc (top h);
  fresh = λ h k. above_top h (suc (top h)) (omega arith);
}

abbrev data_list : List ℤ
data_list = pos 4 ∷ pos 8 ∷ pos 15 ∷ pos 23 ∷ pos 42 ∷ []

abbrev start : State
start = record { heap = []; out = [] }

abbrev outcome : Run (Unit {0}) → List ℕ
outcome (ok u s) = s.out
outcome Run.fault = []
outcome Run.out_of_fuel = []

main_run :
    outcome (main next_address data_list start)
    ≡ codes "4 8 15 23 42 " ++ 10 ∷ (codes "23 15 " ++ 10 ∷ [])
unfolding main m f build add_element print_int free_element load store release p show_int show_nat
main_run = refl

main_lem_example :
    (s' : State) × (main next_address data_list start ≡ ok tt s')
    × (s'.out ≡ [] ++ (line data_list ++ 10 ∷ (line (filter_onto p data_list []) ++ 10 ∷ [])))
    × ((a : ℕ) → load s'.heap a ≡ load start.heap a)
main_lem_example = main_lem next_address (λ h. omega arith) data_list start
