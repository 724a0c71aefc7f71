-- ===== src/Asm/Filter.antt =====
-- The lists that `build` and `f` of hw03-asm/main.c make.
use otus_c_2025_3_kushko.Common.{
  ℕ, zero, suc, ◌<◌, ◌≡◌, ◌≢◌, refl, ap, ◌∙◌, inl, inr, Bool, true, false, Bool-cases, List, [],
  ◌∷◌, some, length, ◌==◌, if◌then◌else◌, subst, arith,
}
use otus_c_2025_3_kushko.Common.Int.{ℤ}
use otus_c_2025_3_kushko.Asm.{State, ok, add_element, f, build}
use otus_c_2025_3_kushko.Asm.Memory.{Heap, load, Allocator}
use otus_c_2025_3_kushko.Asm.Chain.{
  Cells, Chain, element, has, IsGrown, same-IsGrown, IsGrown-Chain, IsGrown-then, store-IsGrown,
  store-Chain,
}
use otus_c_2025_3_kushko.Asm.Walk.{values}

-- The values that pass a test, before others, in the opposite order.
abbrev pub filter_onto : (ℤ → Bool) → List ℤ → List ℤ → List ℤ
filter_onto test [] ys = ys
filter_onto test (x ∷ xs) ys = filter_onto test xs (if test x then x ∷ ys else ys)

-- A list of some values, with the elements `zs` which are new but for `ys`.
pub record IsMade (s : State) (ys : Cells) (vs : List ℤ) (p : ℕ) (s' : State) : Type 0 where
  pub cells : Cells
  pub chain : Chain s'.heap p cells
  pub content : values cells ≡ vs
  pub memory : IsGrown s.heap s'.heap ys cells
  pub more : (a : ℕ) → has ys a ≡ true → has cells a ≡ true
  pub printed : s'.out ≡ s.out

module _ (allocator : Allocator) (enough : (h : Heap) → allocator.malloc h ≢ 0) where
  add_element-IsMade :
      (p : ℕ) (v : ℤ) (s : State) (ys : Cells)
      → Chain s.heap p ys
      → let (li, s') = add_element allocator p v s in IsMade s ys (v ∷ values ys) li s'
  unfolding add_element
  add_element-IsMade p v s ys c =
      let li = allocator.malloc s.heap in
      let null : li == 0 ≡ false = ground (arith, enough s.heap) in
      let free = allocator.fresh s.heap (enough s.heap) in
      rw null record {
        cells = (li, v) ∷ ys;
        chain = store-Chain s.heap li v p (enough s.heap) free ys c;
        content = refl;
        memory = store-IsGrown s.heap li v p (enough s.heap) free ys;
        more = λ a h. unfold has in ground (arith, h);
        printed = refl;
      }

  IsMade-then :
      (s s' s'' : State) (ys : Cells) (us vs : List ℤ) (p q : ℕ)
      → (made : IsMade s ys us p s') → IsMade s' made.cells vs q s''
      → IsMade s ys vs q s''
  IsMade-then s s' s'' ys us vs p q g k = record {
    cells = k.cells;
    chain = k.chain;
    content = k.content;
    memory = IsGrown-then s.heap s'.heap s''.heap ys g.cells k.cells g.memory k.memory k.more;
    more = λ a h. k.more a (g.more a h);
    printed = k.printed ∙ g.printed;
  }

  same-IsMade : (s : State) (p : ℕ) (ys : Cells) → Chain s.heap p ys → IsMade s ys (values ys) p s
  same-IsMade s p ys c = record {
    cells = ys;
    chain = c;
    content = refl;
    memory = same-IsGrown s.heap ys;
    more = λ a h. h;
    printed = refl;
  }

  -- `main` builds the list of the data.
  pub build-IsMade :
      (vs : List ℤ) (s : State) → let (first, s') = build allocator vs s in IsMade s [] vs first s'
  unfolding build
  build-IsMade [] s = same-IsMade s 0 [] refl
  build-IsMade (v ∷ vs) s =
      let (first, s') = build allocator vs s in
      let g = build-IsMade vs s in
      let (first', s'') = add_element allocator first v s' in
      let k = add_element-IsMade first v s' g.cells g.chain in
      subst (λ us. IsMade s [] (v ∷ us) first' s'') g.content
        (IsMade-then s s' s'' [] vs (v ∷ values g.cells) first first' g k)

  module _ (fuel a : ℕ) (v : ℤ) (q : ℕ) (func : ℤ → Bool) (dst : ℕ) (s : State) (some_addr : a ≢ 0)
      (e : load s.heap a ≡ some (element v q)) where
    f-skip : func v ≡ false → f allocator (suc fuel) a func dst s ≡ f allocator fuel q func dst s
    unfolding f
    f-skip h = ground (arith, e, h)

    f-take :
        (dst' : ℕ) (s' : State)
        → func v ≡ true
        → add_element allocator dst v s ≡ (dst', s')
        → load s'.heap a ≡ some (element v q)
        → f allocator (suc fuel) a func dst s ≡ f allocator fuel q func dst' s'
    unfolding f
    f-take dst' s' h added e' = ground (arith, e, h, added, e')

  filter_onto-take :
      (func : ℤ → Bool) (v : ℤ) (vs us : List ℤ)
      → func v ≡ true
      → filter_onto func vs (v ∷ us) ≡ filter_onto func (v ∷ vs) us
  filter_onto-take func v vs us h = rw h refl

  filter_onto-skip :
      (func : ℤ → Bool) (v : ℤ) (vs us : List ℤ)
      → func v ≡ false
      → filter_onto func vs us ≡ filter_onto func (v ∷ vs) us
  filter_onto-skip func v vs us h = rw h refl

  -- `f` ends with enough fuel, with the values of one list that pass the test added to another.
  pub f-IsMade :
      (fuel src : ℕ) (func : ℤ → Bool) (dst : ℕ) (s : State) (xs ys : Cells)
      → Chain s.heap src xs
      → Chain s.heap dst ys
      → length xs < fuel
      → (d : ℕ) × (s' : State) × (f allocator fuel src func dst s ≡ ok d s')
        × IsMade s ys (filter_onto func (values xs) (values ys)) d s'
  f-IsMade zero src func dst s xs ys c d k = absurd (omega arith)
  f-IsMade (suc fuel) src func dst s [] ys c d k =
      (dst, s, unfold f in ground (arith, c), same-IsMade s dst ys d)
  f-IsMade (suc fuel) src func dst s (x ∷ xs) ys (here, some_addr, apart, (q, e, c)) d k =
      elim (Bool-cases (func x.1)) [
        | inr out ↦
            let (d', s', r, made) = f-IsMade fuel q func dst s xs ys c d (omega arith) in
            (
              d',
              s',
              ap (λ a. f allocator (suc fuel) a func dst s) here
                  ∙ f-skip fuel x.0 x.1 q func dst s some_addr e out
                  ∙ r,
              subst (λ us. IsMade s ys us d' s')
                  (filter_onto-skip func x.1 (values xs) (values ys) out) made,
            )
        | inl in_list ↦
            let (dst', t) = add_element allocator dst x.1 s in
            let g = add_element-IsMade dst x.1 s ys d in
            let c' = IsGrown-Chain s.heap t.heap ys g.cells xs q g.memory c in
            let e' : load t.heap x.0 ≡ some (element x.1 q) = elim (g.memory.kept x.0) [
              | inl free ↦ absurd (cc (free, e))
              | inr same ↦ same ∙ e
            ] in
            let (d', s', r, made) =
              f-IsMade fuel q func dst' t xs g.cells c' g.chain (omega arith) in
            (
              d',
              s',
              ap (λ a. f allocator (suc fuel) a func dst s) here
                  ∙ f-take fuel x.0 x.1 q func dst s some_addr e dst' t in_list refl e'
                  ∙ r,
              subst (λ us. IsMade s ys us d' s')
                  (ap (filter_onto func (values xs)) g.content
                    ∙ filter_onto-take func x.1 (values xs) (values ys) in_list)
                  (IsMade-then s t s' ys (x.1 ∷ values ys)
                    (filter_onto func (values xs) (values g.cells)) dst' d' g made),
            )
      ]
