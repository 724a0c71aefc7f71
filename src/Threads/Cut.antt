-- ===== src/Threads/Cut.antt =====
-- How `topn_cont_prep_capacity` of hw10-threads/topn_container.c cuts a container.
use otus_c_2025_3_kushko.Common.{
  ℕ, zero, suc, ◌+◌, ◌≤◌, ◌≡◌, ◌≢◌, inl, inr, refl, ap, sym, ◌∙◌, Bool, true, List, [], ◌∷◌, ◌++◌,
  ltb, arith, none, some, Option-cases, All, length, take, get_elem?, take-all, take-append_le,
  length-append, subst,
}
use otus_c_2025_3_kushko.Common.Int.{pos, ◌≤ℤ◌}
use otus_c_2025_3_kushko.Threads.Glib.{Glib, Strings, count, IsOrdered}
use otus_c_2025_3_kushko.Threads.Topn.{ListItem, topn_value_compare, same_key, cut}
use otus_c_2025_3_kushko.Threads.Order.{same_key_refl}
use otus_c_2025_3_kushko.Threads.Lookup.{has_key, AreApart}

All-take :
    (P : ListItem → Type 0) (n : ℕ) (items : List ListItem) → All P items → All P (take n items)
All-take P zero items h = tt
All-take P (suc n) [] h = tt
All-take P (suc n) (y ∷ ys) h = (h.0, All-take P n ys h.1)

IsOrdered-take :
    (n : ℕ) (items : List ListItem)
    → IsOrdered topn_value_compare items
    → IsOrdered topn_value_compare (take n items)
IsOrdered-take zero items h = tt
IsOrdered-take (suc n) [] h = tt
IsOrdered-take (suc n) (item ∷ items) h =
    (All-take (λ y. topn_value_compare item y ≤ℤ pos 0) n items h.0, IsOrdered-take n items h.1)

count-take :
    (p : ListItem → Bool) (n : ℕ) (items : List ListItem) → count p (take n items) ≤ count p items
unfolding count
count-take p zero items = omega arith
count-take p (suc n) [] = omega arith
count-take p (suc n) (item ∷ items) = omega (arith, count-take p n items)

count-append :
    (p : ListItem → Bool) (xs ys : List ListItem) → count p (xs ++ ys) ≡ count p xs + count p ys
unfolding count
count-append p [] ys = omega arith
count-append p (x ∷ xs) ys = omega (arith, count-append p xs ys)

count-tail :
    (p : ListItem → Bool) (x : ListItem) (ys : List ListItem) → count p ys ≤ count p (x ∷ ys)
unfolding count
count-tail p x ys = omega arith

All-middle :
    (P : ListItem → Type 0) (xs ys : List ListItem) (x : ListItem)
    → All P (xs ++ x ∷ ys)
    → All P (xs ++ ys)
All-middle P [] ys x h = h.1
All-middle P (y ∷ xs) ys x h = (h.0, All-middle P xs ys x h.1)

IsOrdered-middle :
    (xs ys : List ListItem) (x : ListItem)
    → IsOrdered topn_value_compare (xs ++ x ∷ ys)
    → IsOrdered topn_value_compare (xs ++ ys)
IsOrdered-middle [] ys x h = h.1
IsOrdered-middle (y ∷ xs) ys x h =
    (All-middle (λ z. topn_value_compare y z ≤ℤ pos 0) xs ys x h.0, IsOrdered-middle xs ys x h.1)

-- A list with an item at index `n`, split there.
split_at :
    (n : ℕ) (items : List ListItem) (x : ListItem)
    → get_elem? items n ≡ some x
    → (xs ys : List ListItem) × (items ≡ xs ++ x ∷ ys) × (length xs ≡ n)
split_at n [] x h = absurd (ground arith)
split_at zero (item ∷ items) x h = ([], items, ground arith, refl)
split_at (suc n) (item ∷ items) x h =
    let (xs, ys, e, l) = split_at n items x h in (item ∷ xs, ys, ap (λ zs. item ∷ zs) e, ap suc l)

get_elem?-none : (n : ℕ) (items : List ListItem) → get_elem? items n ≡ none → length items ≤ n
get_elem?-none n [] h = omega arith
get_elem?-none zero (item ∷ items) h = cc
get_elem?-none (suc n) (item ∷ items) h = omega (arith, get_elem?-none n items h)

module _ (glib : Glib ListItem) (strings : Strings) where
  -- The highest value first, and no two items of one key.
  pub record IsTop (items : List ListItem) : Type 0 where
    pub ordered : IsOrdered topn_value_compare items
    pub apart : AreApart glib strings items

  pub IsTop-take : (n : ℕ) (items : List ListItem) → IsTop items → IsTop (take n items)
  IsTop-take n items v = record {
    ordered = IsOrdered-take n items v.ordered;
    apart = λ key. omega (arith, count-take (has_key glib strings key) n items, v.apart key);
  }

  one_more : (x : ListItem) (ys : List ListItem) → 1 ≤ count (has_key glib strings x.key) (x ∷ ys)
  unfolding count
  one_more x ys = ground (arith, same_key_refl glib strings x.key)

  others :
      (xs : List ListItem) (x : ListItem)
      → count (has_key glib strings x.key) xs ≡ 0
      → All (λ y. y ≢ x) xs
  unfolding count
  others [] x h = tt
  others (y ∷ ys) x h = (
    λ e. ground (
      arith,
      same_key_refl glib strings x.key,
      ap (λ (z : ListItem). same_key glib strings z.key x.key) e,
    ),
    others ys x (omega arith),
  )

  apart-middle :
      (xs ys : List ListItem) (x : ListItem)
      → AreApart glib strings (xs ++ x ∷ ys)
      → count (has_key glib strings x.key) xs ≡ 0
  apart-middle xs ys x apart =
      ground
        (arith, apart x.key, count-append (has_key glib strings x.key) xs (x ∷ ys), one_more x ys)

  IsTop-middle : (xs ys : List ListItem) (x : ListItem) → IsTop (xs ++ x ∷ ys) → IsTop (xs ++ ys)
  IsTop-middle xs ys x v = record {
    ordered = IsOrdered-middle xs ys x v.ordered;
    apart = λ key. omega (
      arith,
      v.apart key,
      count-append (has_key glib strings key) xs (x ∷ ys),
      count-append (has_key glib strings key) xs ys,
      count-tail (has_key glib strings key) x ys,
    );
  }

  -- One round of `topn_cont_prep_capacity` on a list that is too long.
  cut-step :
      (fuel n : ℕ) (xs ys : List ListItem) (x : ListItem)
      → IsTop (xs ++ x ∷ ys)
      → length xs ≡ n
      → get_elem? (xs ++ x ∷ ys) n ≡ some x
      → cut glib strings (suc fuel) n (xs ++ x ∷ ys) ≡ cut glib strings fuel n (xs ++ ys)
  unfolding cut
  cut-step fuel n xs ys x v h e =
      let removed = glib.remove_doc xs ys x (others xs x (apart-middle xs ys x v.apart)) in
      let found = glib.nth_data_doc (xs ++ x ∷ ys) n ∙ e in
      let long : ltb n (glib.g_slist_length (xs ++ x ∷ ys)) ≡ true =
        ground (arith, glib.length_doc (xs ++ x ∷ ys), length-append xs (x ∷ ys)) in
      ground (arith, found, long, removed)

  -- The rounds of `topn_cont_prep_capacity` leave the first `n` items.
  pub cut-take :
      (fuel n : ℕ) (items : List ListItem)
      → IsTop items
      → length items ≤ fuel
      → cut glib strings fuel n items ≡ take n items
  cut-take zero n items v h = unfold cut in sym (take-all n items (omega arith))
  cut-take (suc fuel) n items v h = elim (Option-cases (get_elem? items n)) [
    | inl e ↦
        unfold cut in
        ground (arith, glib.nth_data_doc items n, e, take-all n items, get_elem?-none n items)
    | inr (x, e) ↦
        let (xs, ys, split, at_n) = split_at n items x e in
        let v' : IsTop (xs ++ x ∷ ys) = subst IsTop split v in
        ap (cut glib strings (suc fuel) n) split
        ∙ cut-step fuel n xs ys x v' at_n (subst (λ zs. get_elem? zs n ≡ some x) split e)
        ∙ cut-take fuel n (xs ++ ys) (IsTop-middle xs ys x v')
            (omega (arith, length-append xs ys, length-append xs (x ∷ ys), ap length split))
        ∙ take-append_le n xs ys (omega arith)
        ∙ sym (take-append_le n xs (x ∷ ys) (omega arith))
        ∙ sym (ap (take n) split)
  ]
