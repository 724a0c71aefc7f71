-- ===== src/Threads/Upsert.antt =====
-- What the operations of hw10-threads/topn_container.c do to a container.
use otus_c_2025_3_kushko.Common.{
  ℕ, ◌≤◌, ◌≡◌, inl, inr, refl, ap, sym, ◌∙◌, true, List, ◌∷◌, arith, Option, none, some,
  Option-cases, length, take, length-take, subst,
}
use otus_c_2025_3_kushko.Common.Int.{ℤ}
use otus_c_2025_3_kushko.Threads.Glib.{Glib, Strings, count}
use otus_c_2025_3_kushko.Threads.Topn.{
  ListItem, Container, topn_value_compare, same_key, bump, topn_cont_add_item,
  topn_cont_prep_capacity, topn_cont_add,
}
use otus_c_2025_3_kushko.Threads.Order.{compare-IsOrder, same_key-eq}
use otus_c_2025_3_kushko.Threads.Lookup.{
  lookup, upsert, has_key, AreApart, lookup-counts, counts-AreApart, bump-none, bump-has_key,
  bump-lookup, lookup-none,
}
use otus_c_2025_3_kushko.Threads.Cut.{IsTop, IsTop-take, cut-take}

module _ (glib : Glib ListItem) (strings : Strings) where
  abbrev contents : List ListItem → List ℕ → Option ℤ
  contents = lookup glib strings

  new_item-AreApart :
      (items : List ListItem) (item : ListItem)
      → AreApart glib strings items
      → contents items item.key ≡ none
      → AreApart glib strings (item ∷ items)
  unfolding count
  new_item-AreApart items item apart absent key = ground (
    arith,
    apart key,
    λ (e : same_key glib strings item.key key ≡ true).
        subst (λ k. count (has_key glib strings k) items ≡ 0)
          (same_key-eq glib strings item.key key e)
          (lookup-none glib strings items item.key absent),
  )

  new_item-lookup :
      (items : List ListItem) (key : List ℕ) (value : ℤ)
      → contents items key ≡ none
      → (key' : List ℕ)
      → contents (record { key = key; value = value } ∷ items) key'
        ≡ upsert glib strings (contents items) key value key'
  unfolding lookup upsert
  new_item-lookup items key value absent key' = ground arith

  abbrev insert_new : List ListItem → List ℕ → ℤ → List ListItem
  insert_new items key value =
      glib.g_slist_insert_sorted items (record { key = key; value = value }) topn_value_compare

  add_item-new :
      (c : Container) (key : List ℕ) (value : ℤ)
      → bump glib strings key value c.list ≡ none
      → topn_cont_add_item glib strings c key value
        ≡ record c { list = insert_new c.list key value }
  unfolding topn_cont_add_item
  add_item-new c key value e = ground (arith, e)

  add_item-old :
      (c : Container) (key : List ℕ) (value : ℤ) (items : List ListItem)
      → bump glib strings key value c.list ≡ some items
      → topn_cont_add_item glib strings c key value
        ≡ record c { list = glib.g_slist_sort items topn_value_compare }
  unfolding topn_cont_add_item
  add_item-old c key value items e = ground (arith, e)

  -- `topn_cont_add_item` keeps a container's order and its keys apart, and the value of its key, or
  -- zero, becomes the sum with the new one; no other key's changes, nor does the capacity.
  pub add_item-IsTop :
      (c : Container) (key : List ℕ) (value : ℤ)
      → IsTop glib strings c.list
      → let c' = topn_cont_add_item glib strings c key value in
        IsTop glib strings c'.list
        × (c'.capacity ≡ c.capacity)
        × ((key' : List ℕ)
            → contents c'.list key' ≡ upsert glib strings (contents c.list) key value key')
  add_item-IsTop c key value v = elim (Option-cases (bump glib strings key value c.list)) [
    | inl e ↦
        let item : ListItem = record { key = key; value = value } in
        let absent = bump-none glib strings c.list key value e in
        let apart = new_item-AreApart c.list item v.apart absent in
        let same_counts = glib.insert_sorted_count topn_value_compare c.list item in
        rw (add_item-new c key value e) (
          record {
            ordered =
                glib.insert_sorted_ordered topn_value_compare c.list item compare-IsOrder v.ordered;
            apart =
                counts-AreApart glib strings (item ∷ c.list) (insert_new c.list key value) apart
                  same_counts;
          },
          refl,
          λ key'.
              lookup-counts glib strings (item ∷ c.list) (insert_new c.list key value) apart
                same_counts key'
              ∙ new_item-lookup c.list key value absent key',
        )
    | inr (items, e) ↦
        let same_counts = glib.sort_count topn_value_compare items in
        let sorted = glib.g_slist_sort items topn_value_compare in
        let apart : AreApart glib strings items =
          λ k. omega (arith, bump-has_key glib strings c.list items key value k e, v.apart k) in
        rw (add_item-old c key value items e) (
          record {
            ordered = glib.sort_ordered topn_value_compare items compare-IsOrder;
            apart = counts-AreApart glib strings items sorted apart same_counts;
          },
          refl,
          λ key'.
              lookup-counts glib strings items sorted apart same_counts key'
              ∙ bump-lookup glib strings c.list items key value key' e,
        )
  ]

  -- The first `capacity` items of a list in order, with keys apart, whose map is `map`.
  pub record IsCut (map : List ℕ → Option ℤ) (capacity : ℕ) (items : List ListItem) : Type 0 where
    pub whole : List ListItem
    pub whole_IsTop : IsTop glib strings whole
    pub whole_map : (key : List ℕ) → contents whole key ≡ map key
    pub first : items ≡ take capacity whole
    pub items_IsTop : IsTop glib strings items
    pub fits : length items ≤ capacity

  pub prep-IsCut :
      (c : Container) (map : List ℕ → Option ℤ)
      → IsTop glib strings c.list
      → ((key : List ℕ) → contents c.list key ≡ map key)
      → IsCut map c.capacity (topn_cont_prep_capacity glib strings c).list
        × ((topn_cont_prep_capacity glib strings c).capacity ≡ c.capacity)
  unfolding topn_cont_prep_capacity
  prep-IsCut c map v m =
      let kept =
        cut-take glib strings (glib.g_slist_length c.list) c.capacity c.list v
          (omega (arith, glib.length_doc c.list)) in
      (
        record {
          whole = c.list;
          whole_IsTop = v;
          whole_map = m;
          first = kept;
          items_IsTop =
              subst (IsTop glib strings) (sym kept) (IsTop-take glib strings c.capacity c.list v);
          fits = omega (arith, ap length kept, length-take c.capacity c.list);
        },
        refl,
      )

  -- After `topn_cont_add` on a container in order, with keys apart, it holds the first `capacity`
  -- items of an ordered list with keys apart, which has the values of before, but for its key: that
  -- one's is the sum of the old one and the new one. So the container is again in order, its keys
  -- are apart and it holds `capacity` items at most; its capacity is as before.
  pub topn_cont_add_lem :
      (c : Container) (key : List ℕ) (value : ℤ)
      → IsTop glib strings c.list
      → let c' = topn_cont_add glib strings c key value in
        IsCut (upsert glib strings (lookup glib strings c.list) key value) c.capacity c'.list
        × (c'.capacity ≡ c.capacity)
  unfolding topn_cont_add
  topn_cont_add_lem c key value v =
      let (v', capacity, map) = add_item-IsTop c key value v in
      let added = topn_cont_add_item glib strings c key value in
      let (is_cut, same_capacity) =
        prep-IsCut added (upsert glib strings (contents c.list) key value) v' map in
      (
        subst
            (λ n.
              IsCut (upsert glib strings (contents c.list) key value) n
                (topn_cont_prep_capacity glib strings added).list)
            capacity is_cut,
        same_capacity ∙ capacity,
      )
