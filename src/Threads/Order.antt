-- ===== src/Threads/Order.antt =====
-- What `topn_value_compare` and the tests of keys of hw10-threads/topn_container.c decide.
use otus_c_2025_3_kushko.Common.{ℕ, ◌≡◌, ◌⊎◌, inl, inr, true, List, arith}
use otus_c_2025_3_kushko.Common.Int.{ℤ, pos, ◌≤ℤ◌}
use otus_c_2025_3_kushko.Threads.Glib.{Glib, Strings, IsOrder}
use otus_c_2025_3_kushko.Threads.Topn.{ListItem, topn_value_compare, same_key, eq_ℤ}

compare-le : (a b : ListItem) → topn_value_compare a b ≤ℤ pos 0 → b.value ≤ℤ a.value
unfolding topn_value_compare
compare-le a b h = ground arith

le-compare : (a b : ListItem) → b.value ≤ℤ a.value → topn_value_compare a b ≤ℤ pos 0
unfolding topn_value_compare
le-compare a b h = ground arith

le_ℤ-total : (a b : ℤ) → (a ≤ℤ b) ⊎ (b ≤ℤ a)
le_ℤ-total a b = ground arith

le_ℤ-trans : (a b c : ℤ) → a ≤ℤ b → b ≤ℤ c → a ≤ℤ c
le_ℤ-trans a b c h k = omega arith

pub compare-IsOrder : IsOrder topn_value_compare
compare-IsOrder = record {
  total = λ a b. elim (le_ℤ-total a.value b.value) [
    | inl h ↦ inr (le-compare b a h)
    | inr h ↦ inl (le-compare a b h)
  ];
  trans = λ a b c h k.
      le-compare a c (le_ℤ-trans c.value b.value a.value (compare-le b c k) (compare-le a b h));
}

pub eq_ℤ-eq : (a b : ℤ) → eq_ℤ a b ≡ true → a ≡ b
eq_ℤ-eq a b h = ground arith

pub eq_ℤ_refl : (a : ℤ) → eq_ℤ a a ≡ true
eq_ℤ_refl a = ground arith

module _ (glib : Glib ListItem) (strings : Strings) where
  pub same_key-eq : (a b : List ℕ) → same_key glib strings a b ≡ true → a ≡ b
  unfolding same_key
  same_key-eq a b h = strings.zero_equal a b (eq_ℤ-eq (strings.g_strcmp0 a b) (pos 0) h)

  pub same_key_refl : (a : List ℕ) → same_key glib strings a a ≡ true
  unfolding same_key
  same_key_refl a = rw (strings.equal_zero a) (eq_ℤ_refl (pos 0))
