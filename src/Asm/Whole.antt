-- ===== src/Asm/Whole.antt =====
-- What hw03-asm/main.c prints, and what it leaves in memory.
use otus_c_2025_3_kushko.Common.{
  ℕ, suc, ◌+◌, ◌≤◌, ◌<◌, ◌≡◌, ◌≢◌, refl, ap, ap₂, ◌∙◌, inl, inr, Bool, true, Bool-cases, List, [],
  ◌∷◌, ◌++◌, length, append_assoc, arith,
}
use otus_c_2025_3_kushko.Common.Int.{ℤ}
use otus_c_2025_3_kushko.Asm.{State, ok, m, f, p, build, main, print_int, free_element}
use otus_c_2025_3_kushko.Asm.Memory.{Heap, load, Allocator}
use otus_c_2025_3_kushko.Asm.Chain.{
  Cells, Chain, Chain-frame, Chain-loads, has, IsGrown, IsGrown-Chain,
}
use otus_c_2025_3_kushko.Asm.Walk.{
  line, values, m-print_int, m-free_element, release_all, load-release_all,
}
use otus_c_2025_3_kushko.Asm.Filter.{filter_onto, build-IsMade, f-IsMade}

length-values : (xs : Cells) → length (values xs) ≡ length xs
length-values [] = refl
length-values (x ∷ xs) = ap suc (length-values xs)

length-filter_onto :
    (test : ℤ → Bool) (xs ys : List ℤ) → length (filter_onto test xs ys) ≤ length xs + length ys
length-filter_onto test [] ys = omega arith
length-filter_onto test (x ∷ xs) ys = elim (Bool-cases (test x)) [
  | inl in_list ↦ rw in_list (omega (arith, length-filter_onto test xs (x ∷ ys)))
  | inr out ↦ rw out (omega (arith, length-filter_onto test xs ys))
]

-- Freeing two lists, of which the second was made after the first, gives back all that the making
-- of both took.
all_freed :
    (h0 h1 h2 : Heap) (xs zs : Cells) (a : ℕ)
    → IsGrown h0 h1 [] xs
    → IsGrown h1 h2 [] zs
    → load (release_all (release_all h2 xs) zs) a ≡ load h0 a
unfolding has
all_freed h0 h1 h2 xs zs a g k = ground (
  arith,
  load-release_all (release_all h2 xs) zs a,
  load-release_all h2 xs a,
  g.outside a,
  k.outside a,
  g.origin a,
  k.origin a,
  g.kept a,
)

spared :
    (h1 h2 : Heap) (first : ℕ) (xs zs : Cells) (a : ℕ)
    → Chain h1 first xs
    → IsGrown h1 h2 [] zs
    → has zs a ≡ true
    → load (release_all h2 xs) a ≡ load h2 a
unfolding has
spared h1 h2 first xs zs a c k i =
    ground (arith, i, load-release_all h2 xs a, k.origin a i, Chain-loads h1 first xs a c)

two_lines :
    (o xs zs : List ℕ)
    → (((o ++ xs) ++ 10 ∷ []) ++ zs) ++ 10 ∷ [] ≡ o ++ (xs ++ 10 ∷ (zs ++ 10 ∷ []))
two_lines o xs zs =
    append_assoc ((o ++ xs) ++ 10 ∷ []) zs (10 ∷ [])
    ∙ append_assoc (o ++ xs) (10 ∷ []) (zs ++ 10 ∷ [])
    ∙ append_assoc o xs (10 ∷ (zs ++ 10 ∷ []))

module _ (allocator : Allocator) (enough : (h : Heap) → allocator.malloc h ≢ 0) where
  abbrev newline : State → State
  newline s = record s { out = s.out ++ 10 ∷ [] }

  main-run :
      (vs : List ℤ) (s t1 s2 t2 t3 t4 : State) (second : ℕ)
      → m (suc (length vs)) (build allocator vs s).0 print_int (build allocator vs s).1 ≡ ok tt t1
      → f allocator (suc (length vs)) (build allocator vs s).0 p 0 (newline t1) ≡ ok second s2
      → m (suc (length vs)) second print_int s2 ≡ ok tt t2
      → m (suc (length vs)) (build allocator vs s).0 free_element (newline t2) ≡ ok tt t3
      → m (suc (length vs)) second free_element t3 ≡ ok tt t4
      → main allocator vs s ≡ ok tt t4
  unfolding main
  main-run vs s t1 s2 t2 t3 t4 second e1 e2 e3 e4 e5 = ground (arith, e1, e2, e3, e4, e5)

  -- When memory suffices, the program ends without a fault: it prints the data in order, and after
  -- them the odd ones in the opposite order, each on a line of its own, and at its end every address
  -- of the memory holds what it held at the start.
  pub main_lem :
      (data_list : List ℤ) (s : State)
      → (s' : State) × (main allocator data_list s ≡ ok tt s')
        × (s'.out
            ≡ s.out ++ (line data_list ++ 10 ∷ (line (filter_onto p data_list []) ++ 10 ∷ [])))
        × ((a : ℕ) → load s'.heap a ≡ load s.heap a)
  main_lem vs s =
      let fuel = suc (length vs) in
      let (first, s1) = build allocator vs s in
      let g = build-IsMade allocator enough vs s in
      let xs = g.cells in
      let fit : length xs < fuel = omega (arith, length-values xs, ap length g.content) in
      let t1 : State = record s1 { out = s1.out ++ line (values xs) } in
      let u1 : State = record t1 { out = t1.out ++ 10 ∷ [] } in
      let shown1 = m-print_int fuel first xs s1 g.chain fit in
      let (second, s2, filtered, k) =
        f-IsMade allocator enough fuel first p 0 u1 xs [] g.chain refl fit in
      let zs = k.cells in
      let fit2 : length zs < fuel = omega (
        arith,
        length-values zs,
        ap length k.content,
        length-filter_onto p (values xs) [],
        length-values xs,
        fit,
        ap length g.content,
      ) in
      let t2 : State = record s2 { out = s2.out ++ line (values zs) } in
      let shown2 = m-print_int fuel second zs s2 k.chain fit2 in
      let u2 : State = newline t2 in
      let first_there = IsGrown-Chain s1.heap s2.heap [] zs xs first k.memory g.chain in
      let freed1 = m-free_element fuel first xs u2 first_there fit in
      let t3 : State = record u2 { heap = release_all s2.heap xs } in
      let second_there =
        Chain-frame s2.heap t3.heap second zs k.chain
          (λ a i. spared s1.heap s2.heap first xs zs a g.chain k.memory i) in
      let freed2 = m-free_element fuel second zs t3 second_there fit2 in
      let t4 : State = record t3 { heap = release_all t3.heap zs } in
      (
        t4,
        main-run vs s t1 s2 t2 t3 t4 second shown1 filtered shown2 freed1 freed2,
        ap (λ o. (o ++ line (values zs)) ++ 10 ∷ []) k.printed
            ∙ two_lines s1.out (line (values xs)) (line (values zs))
            ∙ ap₂ (λ o us. o ++ (line (values xs) ++ 10 ∷ (line us ++ 10 ∷ []))) g.printed k.content
            ∙ ap (λ us. s.out ++ (line us ++ 10 ∷ (line (filter_onto p us []) ++ 10 ∷ [])))
                g.content,
        λ a. all_freed s.heap s1.heap s2.heap xs zs a g.memory k.memory,
      )
