-- ===== src/Threads/Lists.antt =====
-- An instance of the list functions that hw10-threads calls, which shows that what is said of them
-- can hold.
use otus_c_2025_3_kushko.Common.{
  ℕ, ◌≡◌, ◌≢◌, ◌⊎◌, inl, inr, refl, ap, ◌∙◌, Bool, true, false, ◌&&◌, if◌then◌else◌, List, [], ◌∷◌,
  ◌++◌, ltb, ◌==◌, arith, Bool-cases, All, length, get_elem?,
}
use otus_c_2025_3_kushko.Common.Int.{ℤ, pos, negsuc, ltb_ℤ, ◌≤ℤ◌}
use otus_c_2025_3_kushko.Threads.Glib.{Glib, Strings, count, IsOrdered, IsOrder}
use otus_c_2025_3_kushko.Threads.Topn.{ListItem, eq_ℤ}
use otus_c_2025_3_kushko.Threads.Order.{eq_ℤ-eq, eq_ℤ_refl}

unfoldable pub compare_strings : List ℕ → List ℕ → ℤ
compare_strings [] [] = pos 0
compare_strings [] (b ∷ bs) = negsuc 0
compare_strings (a ∷ rest_a) [] = pos 1
compare_strings (a ∷ rest_a) (b ∷ bs) =
    let rest = compare_strings rest_a bs in
    if a == b then rest else if ltb a b then negsuc 0 else pos 1

pub compare_strings-eq : (a b : List ℕ) → compare_strings a b ≡ pos 0 → a ≡ b
unfolding compare_strings
compare_strings-eq [] [] h = refl
compare_strings-eq [] (b ∷ bs) h = cc
compare_strings-eq (a ∷ rest_a) [] h = cc
compare_strings-eq (a ∷ rest_a) (b ∷ bs) h = ground (arith, compare_strings-eq rest_a bs)

pub compare_strings_refl : (a : List ℕ) → compare_strings a a ≡ pos 0
unfolding compare_strings
compare_strings_refl [] = refl
compare_strings_refl (a ∷ rest_a) = ground (arith, compare_strings_refl rest_a)

abbrev pub strings : Strings
strings = record {
  g_strcmp0 = compare_strings;
  zero_equal = compare_strings-eq;
  equal_zero = compare_strings_refl;
}

abbrev same_item : ListItem → ListItem → Bool
same_item a b = eq_ℤ (compare_strings a.key b.key) (pos 0) && eq_ℤ a.value b.value

same_item-eq : (a b : ListItem) → same_item a b ≡ true → a ≡ b
same_item-eq a b h = ground (
  arith,
  compare_strings-eq a.key b.key,
  eq_ℤ-eq (compare_strings a.key b.key) (pos 0),
  eq_ℤ-eq a.value b.value,
)

same_item_refl : (a : ListItem) → same_item a a ≡ true
same_item_refl a = ground (arith, compare_strings_refl a.key, eq_ℤ_refl a.value)

unfoldable pub remove : List ListItem → ListItem → List ListItem
remove [] x = []
remove (y ∷ ys) x = let rest = remove ys x in if same_item y x then ys else y ∷ rest

pub remove-middle :
    (xs ys : List ListItem) (x : ListItem)
    → All (λ y. y ≢ x) xs
    → remove (xs ++ x ∷ ys) x ≡ xs ++ ys
unfolding remove
remove-middle [] ys x h = ground (arith, same_item_refl x)
remove-middle (y ∷ xs) ys x h = elim (Bool-cases (same_item y x)) [
  | inl e ↦ absurd (h.0 (same_item-eq y x e))
  | inr e ↦ rw e (ap (λ zs. y ∷ zs) (remove-middle xs ys x h.1))
]

module _ (compare : ListItem → ListItem → ℤ) where
  unfoldable pub insert_sorted : List ListItem → ListItem → List ListItem
  insert_sorted [] x = x ∷ []
  insert_sorted (y ∷ ys) x =
      let rest = insert_sorted ys x in if ltb_ℤ (pos 0) (compare x y) then y ∷ rest else x ∷ y ∷ ys

  unfoldable pub sort : List ListItem → List ListItem
  sort [] = []
  sort (x ∷ xs) = insert_sorted (sort xs) x

  pub insert_sorted-count :
      (xs : List ListItem) (x : ListItem) (p : ListItem → Bool)
      → count p (insert_sorted xs x) ≡ count p (x ∷ xs)
  unfolding insert_sorted count
  insert_sorted-count [] x p = refl
  insert_sorted-count (y ∷ ys) x p = elim (Bool-cases (ltb_ℤ (pos 0) (compare x y))) [
    | inl e ↦ rw e (omega (arith, insert_sorted-count ys x p))
    | inr e ↦ rw e refl
  ]

  pub sort-count : (xs : List ListItem) (p : ListItem → Bool) → count p (sort xs) ≡ count p xs
  unfolding sort count
  sort-count [] p = refl
  sort-count (x ∷ xs) p = insert_sorted-count (sort xs) x p ∙ omega (arith, sort-count xs p)

  All-insert_sorted :
      (P : ListItem → Type 0) (xs : List ListItem) (x : ListItem)
      → P x
      → All P xs
      → All P (insert_sorted xs x)
  unfolding insert_sorted
  All-insert_sorted P [] x h k = (h, tt)
  All-insert_sorted P (y ∷ ys) x h k = elim (Bool-cases (ltb_ℤ (pos 0) (compare x y))) [
    | inl e ↦ rw e (k.0, All-insert_sorted P ys x h k.1)
    | inr e ↦ rw e (h, k)
  ]

  positive-le : (a : ℤ) → ltb_ℤ (pos 0) a ≡ false → a ≤ℤ pos 0
  positive-le a h = ground arith

  positive-other : (a b : ℤ) → ltb_ℤ (pos 0) a ≡ true → (a ≤ℤ pos 0) ⊎ (b ≤ℤ pos 0) → b ≤ℤ pos 0
  positive-other a b h k = ground arith

  All-le :
      (v : IsOrder compare) (x y : ListItem) (ys : List ListItem)
      → compare x y ≤ℤ pos 0
      → All (λ z. compare y z ≤ℤ pos 0) ys
      → All (λ z. compare x z ≤ℤ pos 0) ys
  All-le v x y [] h k = tt
  All-le v x y (z ∷ zs) h k = (v.trans x y z h k.0, All-le v x y zs h k.1)

  pub insert_sorted-IsOrdered :
      (v : IsOrder compare) (xs : List ListItem) (x : ListItem)
      → IsOrdered compare xs
      → IsOrdered compare (insert_sorted xs x)
  unfolding insert_sorted
  insert_sorted-IsOrdered v [] x h = (tt, tt)
  insert_sorted-IsOrdered v (y ∷ ys) x h = elim (Bool-cases (ltb_ℤ (pos 0) (compare x y))) [
    | inl e ↦
        let le = positive-other (compare x y) (compare y x) e (v.total x y) in
        rw e (
          All-insert_sorted (λ z. compare y z ≤ℤ pos 0) ys x le h.0,
          insert_sorted-IsOrdered v ys x h.1,
        )
    | inr e ↦ let le = positive-le (compare x y) e in rw e ((le, All-le v x y ys le h.0), h)
  ]

  pub sort-IsOrdered : (v : IsOrder compare) (xs : List ListItem) → IsOrdered compare (sort xs)
  unfolding sort
  sort-IsOrdered v [] = tt
  sort-IsOrdered v (x ∷ xs) = insert_sorted-IsOrdered v (sort xs) x (sort-IsOrdered v xs)

abbrev pub lists : Glib ListItem
lists = record {
  g_slist_length = length;
  g_slist_nth_data = get_elem?;
  g_slist_copy = λ xs. xs;
  g_slist_remove = remove;
  g_slist_insert_sorted = λ xs x compare. insert_sorted compare xs x;
  g_slist_sort = λ xs compare. sort compare xs;
  g_slist_append = λ xs x. xs ++ x ∷ [];
  length_doc = λ xs. refl;
  nth_data_doc = λ xs n. refl;
  copy_doc = λ xs. refl;
  append_doc = λ xs x. refl;
  remove_doc = remove-middle;
  insert_sorted_ordered = λ compare xs x v h. insert_sorted-IsOrdered compare v xs x h;
  insert_sorted_count = λ compare xs x p. insert_sorted-count compare xs x p;
  sort_ordered = λ compare xs v. sort-IsOrdered compare v xs;
  sort_count = λ compare xs p. sort-count compare xs p;
}
