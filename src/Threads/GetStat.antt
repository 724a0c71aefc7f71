-- ===== src/Threads/GetStat.antt =====
-- The threads of hw10-threads/main.c: get_stat as the steps that it makes on what the threads share.
use otus_c_2025_3_kushko.Common.{ℕ, List, [], ◌∷◌, ◌++◌, Option, none, some}
use otus_c_2025_3_kushko.Threads.Glib.{Glib, Strings}
use otus_c_2025_3_kushko.Threads.Topn.{ListItem, Container, topn_cont_init, topn_cont_merge}
use otus_c_2025_3_kushko.Threads.Parser.{Stats, Ovector, ts_add, parse_combined_logline}

-- A step on the shared statistics, under a mutex: a size is added to the total, or a file's container
-- is merged into the shared one.
pub data Op : Type 0 where
  add_size : ℕ → Op
  merge_urls : Container → Op
  merge_refs : Container → Op

-- The containers of a file, TOP * 100 items each.
unfoldable pub file_stats : Stats
unfolding topn_cont_init
file_stats = record { url_to_sz = topn_cont_init 1000; ref_to_ct = topn_cont_init 1000; total = 0 }

module _ (glib : Glib ListItem) (strings : Strings) (pcre_exec : List ℕ → Option Ovector) where
  unfoldable pub apply : Op → Stats → Stats
  apply (add_size size) s = ts_add s size
  apply (merge_urls c) s = record s { url_to_sz = topn_cont_merge glib strings s.url_to_sz c }
  apply (merge_refs c) s = record s { ref_to_ct = topn_cont_merge glib strings s.ref_to_ct c }

  -- A line of a file, with the containers of the file so far: what `ts_add` adds to the total for it,
  -- seen on a total of 0, and the containers then.
  abbrev pub parse_line : Stats → List ℕ → Stats
  parse_line local line =
      parse_combined_logline glib strings pcre_exec (record local { total = 0 }) line

  -- The steps for a file that is opened, with its lines: the total is added to line by line, and then
  -- the file's containers are merged.
  unfoldable pub lines_ops : Stats → List (List ℕ) → List Op
  lines_ops local [] = merge_urls local.url_to_sz ∷ merge_refs local.ref_to_ct ∷ []
  lines_ops local (line ∷ lines) =
      let local' = parse_line local line in add_size local'.total ∷ lines_ops local' lines

  -- A path that is null or does not open makes no step. `open_file` gives the lines of a file.
  module _ {File : Type 0} (open_file : File → Option (List (List ℕ))) where
    abbrev pub lines_of : Option File → Option (List (List ℕ))
    lines_of none = none
    lines_of (some path) = open_file path

    abbrev pub file_ops : Option (List (List ℕ)) → List Op
    file_ops none = []
    file_ops (some lines) = lines_ops file_stats lines

    -- The steps of a thread, over the list of its files.
    unfoldable pub get_stat : List (Option File) → List Op
    get_stat [] = []
    get_stat (path ∷ paths) = file_ops (lines_of path) ++ get_stat paths

  -- The threads with the steps that each has left, and what they share.
  pub record System : Type 0 where
    pub threads : List (List Op)
    pub shared : Stats

  -- One step of any thread.
  pub data Step : System → System → Type 0 where
    step :
        (front back : List (List Op)) (op : Op) (ops : List Op) (s : Stats)
        → Step
            (record { threads = front ++ (op ∷ ops) ∷ back; shared = s })
            (record { threads = front ++ ops ∷ back; shared = apply op s })

  pub data Reach (s : System) : System → Type 0 where
    here : Reach s s
    next : {t u : System} → Reach s t → Step t u → Reach s u
