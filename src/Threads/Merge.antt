-- ===== src/Threads/Merge.antt =====
-- What `topn_cont_merge` and `topn_cont_print` of hw10-threads/topn_container.c do.
use otus_c_2025_3_kushko.Common.{
  ℕ, suc, ◌+◌, ◌-◌, ◌≤◌, ◌≡◌, inl, inr, refl, ap, ◌∙◌, if◌then◌else◌, List, [], ◌∷◌, ltb, ◌==◌,
  arith, Bool-cases, Option, length, take, min, fun_ext,
}
use otus_c_2025_3_kushko.Common.Int.{ℤ}
use otus_c_2025_3_kushko.Threads.Glib.{Glib, Strings}
use otus_c_2025_3_kushko.Threads.Topn.{
  ListItem, Container, topn_cont_add_item, add_items, topn_cont_merge, print_from, topn_cont_print,
}
use otus_c_2025_3_kushko.Threads.Lookup.{lookup, upsert}
use otus_c_2025_3_kushko.Threads.Cut.{IsTop}
use otus_c_2025_3_kushko.Threads.Upsert.{IsCut, add_item-IsTop, prep-IsCut}

module _ (glib : Glib ListItem) (strings : Strings) where
  -- The map with the values of some items added, one after the other.
  abbrev pub upserts : (List ℕ → Option ℤ) → List ListItem → List ℕ → Option ℤ
  upserts map [] = map
  upserts map (item ∷ items) = upserts (upsert glib strings map item.key item.value) items

  add_items-IsTop :
      (c : Container) (items : List ListItem)
      → IsTop glib strings c.list
      → let c' = add_items glib strings c items in
        IsTop glib strings c'.list
        × ((key : List ℕ)
            → lookup glib strings c'.list key ≡ upserts (lookup glib strings c.list) items key)
  unfolding add_items
  add_items-IsTop c [] v = (v, λ key. refl)
  add_items-IsTop c (item ∷ items) v =
      let (v', capacity, map) = add_item-IsTop glib strings c item.key item.value v in
      let (v'', map') =
        add_items-IsTop (topn_cont_add_item glib strings c item.key item.value) items v' in
      (v'', λ key. map' key ∙ ap (λ m. upserts m items key) (fun_ext map))

  -- After `topn_cont_merge` into a container in order, with keys apart, it holds the first
  -- `capacity` items of an ordered list with keys apart, whose values are those of before with the
  -- values of every item of the other container added. Its capacity is as before.
  pub topn_cont_merge_lem :
      (dst src : Container)
      → IsTop glib strings dst.list
      → let c' = topn_cont_merge glib strings dst src in
        IsCut glib strings (upserts (lookup glib strings dst.list) src.list) dst.capacity c'.list
        × (c'.capacity ≡ dst.capacity)
  unfolding topn_cont_merge
  topn_cont_merge_lem dst src v =
      let items = glib.g_slist_copy src.list in
      let roomy : Container = record dst { capacity = dst.capacity + src.capacity } in
      let merged = add_items glib strings roomy items in
      let (v', map) = add_items-IsTop roomy items v in
      prep-IsCut glib strings (record merged { capacity = dst.capacity })
        (upserts (lookup glib strings dst.list) src.list) v'
        (λ key.
          map key
          ∙ ap (λ xs. upserts (lookup glib strings dst.list) xs key) (glib.copy_doc src.list))

  print_from-take :
      (count i : ℕ) (items : List ListItem)
      → i ≤ count
      → print_from glib strings count i items ≡ take (suc (count - i)) items
  unfolding print_from
  print_from-take count i [] h = refl
  print_from-take count i (item ∷ items) h = elim (Bool-cases (i == count)) [
    | inl last ↦ let e : count - i ≡ 0 = ground arith in rw (last, e) refl
    | inr more ↦
        let e : count - i ≡ suc (count - (i + 1)) = ground arith in
        rw (more, e) (ap (λ xs. item ∷ xs) (print_from-take count (i + 1) items (ground arith)))
  ]

  -- `topn_cont_print` prints the first items of the list: one more than the number asked for, or
  -- than the capacity or the length when that is less, as far as the list goes.
  pub topn_cont_print_lem :
      (c : Container) (count : ℕ)
      → topn_cont_print glib strings c count
        ≡ take (suc (min count (min c.capacity (length c.list)))) c.list
  unfolding topn_cont_print
  topn_cont_print_lem c count =
      let size = glib.length_doc c.list in
      let capped = if ltb c.capacity count then c.capacity else count in
      let shown = if ltb (length c.list) capped then length c.list else capped in
      let e : shown - 0 ≡ min count (min c.capacity (length c.list)) = ground arith in
      rw size (print_from-take shown 0 c.list (omega arith) ∙ ap (λ n. take (suc n) c.list) e)
