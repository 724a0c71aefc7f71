-- ===== src/Asm/Chain.antt =====
-- Lists in the memory of hw03-asm/main.c, as the addresses and values of their elements.
use otus_c_2025_3_kushko.Common.{
  ℕ, ◌≡◌, ◌≢◌, ◌⊎◌, inl, inr, refl, sym, ◌∙◌, Bool, true, false, ◌||◌, Bool-cases, List, [], ◌∷◌,
  none, some, ◌==◌, arith,
}
use otus_c_2025_3_kushko.Common.Int.{ℤ}
use otus_c_2025_3_kushko.Asm.Memory.{Element, Heap, load, store, load-store}

abbrev pub Cells : Type 0
Cells = List (ℕ × ℤ)

abbrev pub element : ℤ → ℕ → Element
element v q = record { value = v; prev_addr = q }

unfoldable pub has : Cells → ℕ → Bool
has [] a = false
has (x ∷ xs) a = x.0 == a || has xs a

-- From `p` the addresses lead through the distinct elements `xs` to null.
abbrev pub Chain : Heap → ℕ → Cells → Type 0
Chain h p [] = p ≡ 0
Chain h p (x ∷ xs) =
    (p ≡ x.0)
    × (x.0 ≢ 0)
    × (has xs x.0 ≡ false)
    × ((q : ℕ) × (load h x.0 ≡ some (element x.1 q)) × Chain h q xs)

-- A list survives a change that spares its elements.
pub Chain-frame :
    (h g : Heap) (p : ℕ) (xs : Cells)
    → Chain h p xs
    → ((a : ℕ) → has xs a ≡ true → load g a ≡ load h a)
    → Chain g p xs
unfolding has
Chain-frame h g p [] c same = c
Chain-frame h g p (x ∷ xs) (here, some_addr, apart, (q, e, c)) same = (
  here,
  some_addr,
  apart,
  (q, same x.0 (ground arith) ∙ e, Chain-frame h g q xs c (λ a k. same a (ground (arith, k)))),
)

pub Chain-loads :
    (h : Heap) (p : ℕ) (xs : Cells) (a : ℕ) → Chain h p xs → has xs a ≡ true → load h a ≢ none
unfolding has
Chain-loads h p [] a c k = cc
Chain-loads h p (x ∷ xs) a (here, some_addr, apart, (q, e, c)) k =
    ground (arith, e, Chain-loads h q xs a c)

-- What the memory `h'` has besides that of `h`: the elements `zs`, which are new but for `ys`.
pub record IsGrown (h h' : Heap) (ys zs : Cells) : Type 0 where
  pub kept : (a : ℕ) → (load h a ≡ none) ⊎ (load h' a ≡ load h a)
  pub outside : (a : ℕ) → has zs a ≡ false → load h' a ≡ load h a
  pub origin : (a : ℕ) → has zs a ≡ true → (has ys a ≡ true) ⊎ (load h a ≡ none)

pub same-IsGrown : (h : Heap) (ys : Cells) → IsGrown h h ys ys
same-IsGrown h ys = record { kept = λ a. inr refl; outside = λ a k. refl; origin = λ a k. inl k }

pub IsGrown-Chain :
    (h h' : Heap) (ys zs xs : Cells) (p : ℕ) → IsGrown h h' ys zs → Chain h p xs → Chain h' p xs
IsGrown-Chain h h' ys zs xs p g c =
    Chain-frame h h' p xs c (λ a k. elim (g.kept a) [
      | inl free ↦ absurd (Chain-loads h p xs a c k free)
      | inr same ↦ same
    ])

module _ (h : Heap) (b : ℕ) (v : ℤ) (p : ℕ) (some_addr : b ≢ 0) (free : load h b ≡ none) where
  abbrev pub grown : Heap
  grown = store h b (element v p)

  pub store-IsGrown : (ys : Cells) → IsGrown h grown ys ((b, v) ∷ ys)
  unfolding has
  store-IsGrown ys = record {
    kept = λ a. ground (arith, load-store h b a (element v p), free);
    outside = λ a k. ground (arith, load-store h b a (element v p));
    origin = λ a k. ground (arith, free);
  }

  pub store-Chain : (ys : Cells) → Chain h p ys → Chain grown b ((b, v) ∷ ys)
  store-Chain ys c = (
    refl,
    some_addr,
    elim (Bool-cases (has ys b)) [
      | inl inside ↦ absurd (Chain-loads h p ys b c inside free)
      | inr apart ↦ apart
    ],
    (
      p,
      load-store h b b (element v p) ∙ ground arith,
      IsGrown-Chain h grown [] ((b, v) ∷ []) ys p (store-IsGrown []) c,
    ),
  )

pub IsGrown-then :
    (h h' h'' : Heap) (xs ys zs : Cells)
    → IsGrown h h' xs ys
    → IsGrown h' h'' ys zs
    → ((a : ℕ) → has ys a ≡ true → has zs a ≡ true)
    → IsGrown h h'' xs zs
IsGrown-then h h' h'' xs ys zs f g more = record {
  kept = λ a. elim (f.kept a) [
    | inl free ↦ inl free
    | inr same ↦ elim (g.kept a) [
      | inl free ↦ inl (sym same ∙ free)
      | inr same' ↦ inr (same' ∙ same)
    ]
  ];
  outside = λ a k. g.outside a k ∙ f.outside a (ground (arith, more a));
  origin = λ a k. elim (g.origin a k) [
    | inl old ↦ f.origin a old
    | inr free ↦ elim (f.kept a) [
      | inl none_before ↦ inr none_before
      | inr same ↦ inr (sym same ∙ free)
    ]
  ];
}
