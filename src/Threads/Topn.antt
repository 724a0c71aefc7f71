-- ===== src/Threads/Topn.antt =====
-- hw10-threads/topn_container.c: a list of keys and values, the highest value first. Each operation
-- holds the container's mutex from its first access to its last, so that it is one step.
use otus_c_2025_3_kushko.Common.{
  ℕ, zero, suc, ◌+◌, Bool, not, ◌&&◌, Option, none, some, List, [], ◌∷◌, ltb, ◌==◌, if◌then◌else◌,
}
use otus_c_2025_3_kushko.Common.Int.{wrap_int, ℤ, pos, negsuc, ◌+ℤ◌, ltb_ℤ}
use otus_c_2025_3_kushko.Threads.Glib.{Glib, Strings}

pub record ListItem : Type 0 where
  pub key : List ℕ
  pub value : ℤ

pub record Container : Type 0 where
  pub list : List ListItem
  pub capacity : ℕ

abbrev pub eq_ℤ : ℤ → ℤ → Bool
eq_ℤ a b = not (ltb_ℤ a b) && not (ltb_ℤ b a)

-- The capacity is a size_t.
unfoldable pub topn_cont_init : ℕ → Container
topn_cont_init capacity = record { list = []; capacity = capacity }

-- The item of the higher value comes first.
unfoldable pub topn_value_compare : ListItem → ListItem → ℤ
topn_value_compare a b =
    if ltb_ℤ a.value b.value then pos 1 else if ltb_ℤ b.value a.value then negsuc 0 else pos 0

-- The rest of a search that has passed `item` by.
unfoldable pub then_item : ListItem → Option (List ListItem) → Option (List ListItem)
then_item item none = none
then_item item (some items) = some (item ∷ items)

module _ (glib : Glib ListItem) (strings : Strings) where
  unfoldable pub same_key : List ℕ → List ℕ → Bool
  same_key a b = eq_ℤ (strings.g_strcmp0 a b) (pos 0)

  -- The search of `topn_cont_add_item`: the list with the value of the first item of that key
  -- changed, or `none` when the loop ends without one.
  unfoldable pub bump : List ℕ → ℤ → List ListItem → Option (List ListItem)
  bump key value [] = none
  bump key value (item ∷ items) =
      let rest = bump key value items in
      if same_key item.key key
      then some (record { key = item.key; value = wrap_int (item.value +ℤ value) } ∷ items)
      else then_item item rest

  unfoldable pub topn_cont_add_item : Container → List ℕ → ℤ → Container
  topn_cont_add_item c key value = elim (bump key value c.list) [
    | none ↦ record c {
      list =
          glib.g_slist_insert_sorted c.list (record { key = key; value = value })
            topn_value_compare;
    }
    | some items ↦ record c { list = glib.g_slist_sort items topn_value_compare }
  ]

  -- The loop of `topn_cont_prep_capacity`, on fuel.
  unfoldable pub cut : ℕ → ℕ → List ListItem → List ListItem
  cut zero capacity items = items
  cut (suc fuel) capacity items = elim (glib.g_slist_nth_data items capacity) [
    | none ↦ items
    | some last ↦
        let rest = cut fuel capacity (glib.g_slist_remove items last) in
        if ltb capacity (glib.g_slist_length items) then rest else items
  ]

  -- Each round removes an item, so that the length is fuel enough.
  unfoldable pub topn_cont_prep_capacity : Container → Container
  topn_cont_prep_capacity c = record c { list = cut (glib.g_slist_length c.list) c.capacity c.list }

  unfoldable pub topn_cont_add : Container → List ℕ → ℤ → Container
  topn_cont_add c key value = topn_cont_prep_capacity (topn_cont_add_item c key value)

  -- The loop of `topn_cont_merge`.
  unfoldable pub add_items : Container → List ListItem → Container
  add_items c [] = c
  add_items c (item ∷ items) = add_items (topn_cont_add_item c item.key item.value) items

  unfoldable pub topn_cont_merge : Container → Container → Container
  topn_cont_merge dst src =
      let src_copy = glib.g_slist_copy src.list in
      let merged = add_items (record dst { capacity = dst.capacity + src.capacity }) src_copy in
      topn_cont_prep_capacity (record merged { capacity = dst.capacity })

  -- The loop of `topn_cont_print` from index `i` on: the items that it prints.
  unfoldable pub print_from : ℕ → ℕ → List ListItem → List ListItem
  print_from count i [] = []
  print_from count i (item ∷ items) =
      let rest = print_from count (i + 1) items in item ∷ (if i == count then [] else rest)

  unfoldable pub topn_cont_print : Container → ℕ → List ListItem
  topn_cont_print c count =
      let count = if ltb c.capacity count then c.capacity else count in
      let length = glib.g_slist_length c.list in
      let count = if ltb length count then length else count in print_from count 0 c.list
