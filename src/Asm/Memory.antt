-- ===== src/Asm/Memory.antt =====
-- The memory of hw03-asm/main.c: the elements that are allocated, by their addresses.
use otus_c_2025_3_kushko.Common.{
  ℕ, ◌≡◌, ◌≢◌, refl, List, [], ◌∷◌, Option, none, some, ◌==◌, if◌then◌else◌, arith,
}
use otus_c_2025_3_kushko.Common.Int.{ℤ}

-- struct list_element
pub record Element : Type 0 where
  pub value : ℤ
  pub prev_addr : ℕ

abbrev pub Heap : Type 0
Heap = List (ℕ × Element)

-- What is allocated at an address.
unfoldable pub load : Heap → ℕ → Option Element
load [] p = none
load ((a, e) ∷ h) p = if a == p then some e else load h p

unfoldable pub store : Heap → ℕ → Element → Heap
store h p e = (p, e) ∷ h

unfoldable pub release : Heap → ℕ → Heap
release [] p = []
release ((a, e) ∷ h) p = let rest = release h p in if a == p then rest else (a, e) ∷ rest

pub load-store :
    (h : Heap) (p a : ℕ) (e : Element)
    → load (store h p e) a ≡ (if p == a then some e else load h a)
unfolding store load
load-store h p a e = refl

pub load-release : (h : Heap) (p a : ℕ) → load (release h p) a ≡ (if p == a then none else load h a)
unfolding release load
load-release [] p a = ground arith
load-release ((b, e) ∷ h) p a = ground (arith, load-release h p a)

-- `malloc` gives an address that is free, or null.
pub record Allocator : Type 0 where
  pub malloc : Heap → ℕ
  pub fresh : (h : Heap) → malloc h ≢ 0 → load h (malloc h) ≡ none
