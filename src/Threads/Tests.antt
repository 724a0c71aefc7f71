-- ===== src/Threads/Tests.antt =====
-- Runs of hw10-threads, with the list functions of Lists.
use otus_c_2025_3_kushko.Common.{
  map, ℕ, ◌≡◌, refl, List, [], ◌∷◌, Option, some, take, min, length, arith,
}
use otus_c_2025_3_kushko.Common.Int.{ℤ, pos, ◌+ℤ◌}
use otus_c_2025_3_kushko.Threads.Glib.{count}
use otus_c_2025_3_kushko.Threads.Lists.{
  lists, strings, remove, insert_sorted, sort, compare_strings,
}
use otus_c_2025_3_kushko.Threads.Topn.{
  ListItem, Container, topn_cont_add_item, topn_cont_add, topn_cont_merge, topn_value_compare,
  same_key, bump, cut, topn_cont_prep_capacity, add_items, then_item,
}
use otus_c_2025_3_kushko.Common.Int.{wrap_int}
use otus_c_2025_3_kushko.Threads.Order.{same_key-eq}
use otus_c_2025_3_kushko.Threads.Lookup.{lookup, upsert}
use otus_c_2025_3_kushko.Threads.Cut.{IsTop}
use otus_c_2025_3_kushko.Threads.Upsert.{IsCut, topn_cont_add_lem}
use otus_c_2025_3_kushko.Threads.Files.{shared, share_files, join, share_files_lem}
use otus_c_2025_3_kushko.Threads.Merge.{upserts, topn_cont_merge_lem}
use otus_c_2025_3_kushko.Common.{none, if◌then◌else◌, ◌==◌}
use otus_c_2025_3_kushko.Threads.Parser.{Stats, Ovector, request_path}
use otus_c_2025_3_kushko.Common.{map}
use otus_c_2025_3_kushko.Threads.GetStat.{Op, System, apply, file_stats, get_stat}
use otus_c_2025_3_kushko.Threads.Program.{Directories, shares}
use otus_c_2025_3_kushko.Threads.Selftest.{add_all, sorting_test, equal_values_test, merge_test}
use otus_c_2025_3_kushko.Threads.Topn.{topn_cont_init}
use otus_c_2025_3_kushko.Common.Text.{codes}
use otus_c_2025_3_kushko.Common.{true}
use otus_c_2025_3_kushko.Common.{◌++◌, Bool}

abbrev item : ℕ → ℤ → ListItem
item k v = record { key = k ∷ []; value = v }

-- The containers of the merge test in topn_container.c.
abbrev dst : Container
dst = record { list = item 2 (pos 4) ∷ item 1 (pos 3) ∷ item 0 (pos 2) ∷ []; capacity = 3 }

abbrev src : Container
src = record {
  list = item 3 (pos 7) ∷ item 0 (pos 4) ∷ item 1 (pos 3) ∷ item 2 (pos 2) ∷ [];
  capacity = 4;
}

merge-example :
    (topn_cont_merge lists strings dst src).list
    ≡ item 3 (pos 7) ∷ item 0 (pos 6) ∷ item 1 (pos 6) ∷ []
unfolding topn_cont_merge add_items topn_cont_add_item bump same_key topn_cont_prep_capacity cut
    topn_value_compare remove insert_sorted sort compare_strings wrap_int then_item ◌+ℤ◌
merge-example = refl

sorting_test-holds : sorting_test lists strings ≡ true
unfolding sorting_test add_all topn_cont_init topn_cont_add topn_cont_add_item bump same_key
    topn_cont_prep_capacity cut topn_value_compare remove insert_sorted sort compare_strings
    wrap_int then_item ◌+ℤ◌
sorting_test-holds = refl

-- An item goes before those of the same value.
equal_values_test-holds : equal_values_test lists strings ≡ true
unfolding equal_values_test add_all topn_cont_init topn_cont_add topn_cont_add_item bump same_key
    topn_cont_prep_capacity cut topn_value_compare remove insert_sorted sort compare_strings
    wrap_int then_item ◌+ℤ◌
equal_values_test-holds = refl

merge_test-holds : merge_test lists strings ≡ true
unfolding merge_test add_all topn_cont_init topn_cont_add topn_cont_merge add_items
    topn_cont_add_item bump same_key topn_cont_prep_capacity cut topn_value_compare remove
    insert_sorted sort compare_strings wrap_int then_item ◌+ℤ◌
merge_test-holds = refl

dst-IsTop : IsTop lists strings dst.list
dst-IsTop = record {
  ordered = unfold topn_value_compare in omega arith;
  apart = λ key.
      unfold count in
      ground (
        arith,
        same_key-eq lists strings (0 ∷ []) key,
        same_key-eq lists strings (1 ∷ []) key,
        same_key-eq lists strings (2 ∷ []) key,
      );
}

topn_cont_add_lem_example :
    let c' = topn_cont_add lists strings dst (1 ∷ []) (pos 5) in
    IsCut lists strings
      (upsert lists strings (lookup lists strings dst.list) (1 ∷ []) (pos 5))
      3
      c'.list
    × (c'.capacity ≡ 3)
topn_cont_add_lem_example = topn_cont_add_lem lists strings dst (1 ∷ []) (pos 5) dst-IsTop

topn_cont_merge_lem_example :
    let c' = topn_cont_merge lists strings dst src in
    IsCut lists strings (upserts lists strings (lookup lists strings dst.list) src.list) 3 c'.list
    × (c'.capacity ≡ 3)
topn_cont_merge_lem_example = topn_cont_merge_lem lists strings dst src dst-IsTop

share_files_lem_example :
    (shares : List (List (Option ListItem))) × (share_files lists src.list 3 ≡ shared shares)
    × (length shares ≡ min 3 4)
    × (join shares ≡ map some src.list)
share_files_lem_example = share_files_lem lists src.list 3 (omega arith) (omega arith)

-- The fields of a line "GET /a HTTP/1 12 r", as the pattern gives them.
abbrev fields : List ℕ → Option Ovector
fields logline = some (λ field.
    if field == 4
    then some (0, 13)
    else if field == 6
    then some (14, 16)
    else if field == 7
    then some (17, 18)
    else none)

abbrev log_line : List ℕ
log_line =
    b'G' ∷ b'E' ∷ b'T' ∷ 32 ∷ b'/' ∷ b'a' ∷ 32 ∷ b'H' ∷ b'T' ∷ b'T' ∷ b'P' ∷ b'/' ∷ b'1' ∷ 32 ∷ b'1'
    ∷ b'2' ∷ 32 ∷ b'r' ∷ []

abbrev empty_stats : Stats
empty_stats = record {
  url_to_sz = record { list = []; capacity = 1000 };
  ref_to_ct = record { list = []; capacity = 1000 };
  total = 0;
}

path_test : request_path (take 13 log_line) ≡ some (b'/' ∷ b'a' ∷ [])
unfolding request_path
path_test = refl

-- One file of two lines, read by one thread.
abbrev log_files : ListItem → Option (List (List ℕ))
log_files path = some (log_line ∷ log_line ∷ [])

abbrev one_list : List (List (Option ListItem))
one_list = (some (item 0 (pos 0)) ∷ []) ∷ []

apply_all : List Op → Stats → Stats
apply_all [] s = s
apply_all (op ∷ ops) s = apply_all ops (apply lists strings fields op s)

abbrev thread_ops : List Op
thread_ops = get_stat lists strings fields log_files (some (item 0 (pos 0)) ∷ [])

abbrev thread_end : System lists strings fields
thread_end = record { threads = [] ∷ []; shared = apply_all thread_ops file_stats }

-- A directory with a name of one letter, which matches, and a longer one.
abbrev log_directories : Directories ListItem
log_directories = record {
  g_pattern_spec_new = λ pattern. some (λ name. length name == 1);
  g_dir_open = λ directory. some ((0 ∷ []) ∷ (7 ∷ 8 ∷ []) ∷ []);
  g_build_filename = λ directory name. record { key = name; value = pos 0 };
  g_slist_append = λ files file. files ++ file ∷ [];
  append_doc = λ files file. refl;
}

abbrev arguments : List (List ℕ)
arguments = codes "1" ∷ codes "/logs" ∷ []

abbrev one_letter : List ℕ → Bool
one_letter name = length name == 1
