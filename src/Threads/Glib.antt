-- ===== src/Threads/Glib.antt =====
-- The functions of GLib that hw10-threads calls on lists, and what their documentation says of them.
use otus_c_2025_3_kushko.Common.{
  ℕ, ◌+◌, ◌≡◌, ◌≢◌, ◌⊎◌, Bool, if◌then◌else◌, Option, List, [], ◌∷◌, ◌++◌, length, get_elem?, All,
}
use otus_c_2025_3_kushko.Common.Int.{ℤ, pos, ◌≤ℤ◌}

-- The number of elements that pass a test.
unfoldable pub count : {A : Type 0} → (A → Bool) → List A → ℕ
count p [] = 0
count p (x ∷ xs) = (if p x then 1 else 0) + count p xs

-- No element comes after one that it must precede.
abbrev pub IsOrdered : {A : Type 0} → (A → A → ℤ) → List A → Type 0
IsOrdered compare [] = Unit
IsOrdered compare (x ∷ xs) = All (λ y. compare x y ≤ℤ pos 0) xs × IsOrdered compare xs

-- A comparison function that a list can be sorted by.
pub record IsOrder {A : Type 0} (compare : A → A → ℤ) : Type 0 where
  pub total : (a b : A) → (compare a b ≤ℤ pos 0) ⊎ (compare b a ≤ℤ pos 0)
  pub trans : (a b c : A) → compare a b ≤ℤ pos 0 → compare b c ≤ℤ pos 0 → compare a c ≤ℤ pos 0

-- The list functions. Pointers to elements are the elements themselves, and `none` is the null
-- pointer, which a list of pointers can hold.
pub record Glib (A : Type 0) : Type 0 where
  pub g_slist_length : List A → ℕ
  pub g_slist_nth_data : List A → ℕ → Option A
  pub g_slist_copy : List A → List A
  pub g_slist_remove : List A → A → List A
  pub g_slist_insert_sorted : List A → A → (A → A → ℤ) → List A
  pub g_slist_sort : List A → (A → A → ℤ) → List A
  pub g_slist_append : List (Option A) → Option A → List (Option A)
  pub length_doc : (xs : List A) → g_slist_length xs ≡ length xs
  pub nth_data_doc : (xs : List A) (n : ℕ) → g_slist_nth_data xs n ≡ get_elem? xs n
  pub copy_doc : (xs : List A) → g_slist_copy xs ≡ xs
  pub append_doc : (xs : List (Option A)) (x : Option A) → g_slist_append xs x ≡ xs ++ x ∷ []
  pub remove_doc :
      (xs ys : List A) (x : A) → All (λ y. y ≢ x) xs → g_slist_remove (xs ++ x ∷ ys) x ≡ xs ++ ys
  pub insert_sorted_ordered :
      (compare : A → A → ℤ) (xs : List A) (x : A)
      → IsOrder compare
      → IsOrdered compare xs
      → IsOrdered compare (g_slist_insert_sorted xs x compare)
  pub insert_sorted_count :
      (compare : A → A → ℤ) (xs : List A) (x : A) (p : A → Bool)
      → count p (g_slist_insert_sorted xs x compare) ≡ count p (x ∷ xs)
  pub sort_ordered :
      (compare : A → A → ℤ) (xs : List A)
      → IsOrder compare
      → IsOrdered compare (g_slist_sort xs compare)
  pub sort_count :
      (compare : A → A → ℤ) (xs : List A) (p : A → Bool)
      → count p (g_slist_sort xs compare) ≡ count p xs

-- `g_strcmp0`: zero for equal strings, and for no others.
pub record Strings : Type 0 where
  pub g_strcmp0 : List ℕ → List ℕ → ℤ
  pub zero_equal : (a b : List ℕ) → g_strcmp0 a b ≡ pos 0 → a ≡ b
  pub equal_zero : (a : List ℕ) → g_strcmp0 a a ≡ pos 0
