-- ===== src/Threads/Selftest.antt =====
-- `topn_test` of hw10-threads/topn_container.c: what its asserts test, block by block. The memory
-- test, of random keys, is left out.
use otus_c_2025_3_kushko.Common.{ℕ, Bool, true, false, ◌&&◌, List, [], ◌∷◌, ◌==◌}
use otus_c_2025_3_kushko.Common.Int.{ℤ, pos}
use otus_c_2025_3_kushko.Common.Text.{codes}
use otus_c_2025_3_kushko.Threads.Glib.{Glib, Strings}
use otus_c_2025_3_kushko.Threads.Topn.{
  ListItem, Container, topn_cont_init, topn_cont_add, topn_cont_merge, eq_ℤ,
}

module _ (glib : Glib ListItem) (strings : Strings) where
  -- Calls of `topn_cont_add`, in order.
  unfoldable pub add_all : Container → List (List ℕ × ℤ) → Container
  add_all cont [] = cont
  add_all cont ((key, value) ∷ items) = add_all (topn_cont_add glib strings cont key value) items

  abbrev assert_keys : List ListItem → List (List ℕ) → Bool
  assert_keys items [] = true
  assert_keys [] (key ∷ keys) = false
  assert_keys (item ∷ items) (key ∷ keys) =
      eq_ℤ (strings.g_strcmp0 item.key key) (pos 0) && assert_keys items keys

  -- The asserts on the length of a list and on its first keys.
  abbrev asserts : Container → ℕ → List (List ℕ) → Bool
  asserts cont size keys = glib.g_slist_length cont.list == size && assert_keys cont.list keys

  abbrev latest_first : List (List ℕ)
  latest_first = codes "n5" ∷ codes "n4" ∷ codes "n3" ∷ codes "n2" ∷ codes "n1" ∷ []

  unfoldable pub sorting_test : Bool
  sorting_test =
      asserts
        (add_all (topn_cont_init 5) (
          (codes "n0", pos 1)
          ∷ (codes "n1", pos 2)
          ∷ (codes "n2", pos 3)
          ∷ (codes "n3", pos 4)
          ∷ (codes "n4", pos 5)
          ∷ (codes "n5", pos 6)
          ∷ []))
        5 latest_first

  unfoldable pub equal_values_test : Bool
  equal_values_test =
      asserts
        (add_all (topn_cont_init 5) (
          (codes "n0", pos 1)
          ∷ (codes "n1", pos 1)
          ∷ (codes "n2", pos 1)
          ∷ (codes "n3", pos 6)
          ∷ (codes "n4", pos 6)
          ∷ (codes "n5", pos 6)
          ∷ []))
        5 latest_first

  unfoldable pub merge_test : Bool
  merge_test =
      asserts
        (topn_cont_merge glib strings
          (add_all (topn_cont_init 3)
            ((codes "n0", pos 2) ∷ (codes "n1", pos 3) ∷ (codes "n2", pos 4) ∷ []))
          (add_all (topn_cont_init 4) (
            (codes "n0", pos 4)
            ∷ (codes "n1", pos 3)
            ∷ (codes "n2", pos 2)
            ∷ (codes "n3", pos 7)
            ∷ [])))
        3 (codes "n3" ∷ codes "n0" ∷ codes "n1" ∷ [])
