-- ===== src/Threads/Program.antt =====
-- hw10-threads/file_list.c and the whole of `main` of hw10-threads/main.c, from the arguments to what
-- is printed. A path is of any type, as GLib's functions make it.
use otus_c_2025_3_kushko.Common.{
  ℕ, ◌≡◌, Bool, List, [], ◌∷◌, ◌++◌, Option, none, some, length, get_or, ltb, if◌then◌else◌,
}
use otus_c_2025_3_kushko.Common.Decimal.{atoi}
use otus_c_2025_3_kushko.Common.Text.{codes}
use otus_c_2025_3_kushko.Threads.Glib.{Glib, Strings}
use otus_c_2025_3_kushko.Threads.Topn.{ListItem, topn_cont_print}
use otus_c_2025_3_kushko.Threads.Parser.{Stats, to_size}
use otus_c_2025_3_kushko.Threads.Files.{Shares, share_files}

-- The functions of GLib for directories: a pattern as its test of a name, the names of a directory
-- in the order in which they are read, a path from a directory and a name, and the end of a list.
pub record Directories (File : Type 0) : Type 0 where
  pub g_pattern_spec_new : List ℕ → Option (List ℕ → Bool)
  pub g_dir_open : List ℕ → Option (List (List ℕ))
  pub g_build_filename : List ℕ → List ℕ → File
  pub g_slist_append : List File → File → List File
  pub append_doc :
      (files : List File) (file : File) → g_slist_append files file ≡ files ++ file ∷ []

-- What `main` prints: the items of the two containers, and the total.
pub record Report : Type 0 where
  pub urls : List ListItem
  pub referers : List ListItem
  pub total : ℕ

-- TOP
abbrev pub top : ℕ
top = 10

-- The path of the logs, with the arguments after the program's name; `none` when `strcpy` writes
-- beyond the 256 bytes for it.
unfoldable pub log_path : List (List ℕ) → Option (List ℕ)
log_path args =
    let path = get_or args 1 (codes "/home/user/Temp/logs/") in
    if ltb (length path) 256 then some path else none

-- The number of threads that is asked for.
abbrev pub asked_threads : List (List ℕ) → ℕ
asked_threads [] = 7
asked_threads (arg ∷ args) = to_size (atoi arg)

module _ {File : Type 0} (dirs : Directories File) where
  -- The loop over the names of a directory.
  unfoldable pub add_names : (List ℕ → Bool) → List ℕ → List (List ℕ) → List File → List File
  add_names matches directory [] file_list = file_list
  add_names matches directory (filename ∷ names) file_list = add_names matches directory names (
      if matches filename
      then dirs.g_slist_append file_list (dirs.g_build_filename directory filename)
      else file_list)

  abbrev pub file_list_of : List ℕ → Option (List ℕ → Bool) → Option (List (List ℕ)) → List File
  file_list_of directory none names = []
  file_list_of directory (some matches) none = []
  file_list_of directory (some matches) (some names) = add_names matches directory names []

  unfoldable pub get_file_list_by_mask : List ℕ → List ℕ → List File
  get_file_list_by_mask directory pattern =
      file_list_of directory (dirs.g_pattern_spec_new pattern) (dirs.g_dir_open directory)

  -- `main` up to the start of the threads, with the path of the logs.
  abbrev pub shares_in : Glib File → ℕ → Option (List ℕ) → Option (Shares File)
  shares_in glib asked none = none
  shares_in glib asked (some directory) =
      some (share_files glib (get_file_list_by_mask directory (codes "*.log.*")) asked)

  unfoldable pub shares : Glib File → List (List ℕ) → Option (Shares File)
  shares glib args = shares_in glib (asked_threads args) (log_path args)

  -- The paths of the names that match.
  abbrev pub matching : (List ℕ → Bool) → List ℕ → List (List ℕ) → List File
  matching matches directory [] = []
  matching matches directory (filename ∷ names) =
      let rest = matching matches directory names in
      if matches filename then dirs.g_build_filename directory filename ∷ rest else rest

-- What is printed at the end of the threads.
unfoldable pub report : Glib ListItem → Strings → Stats → Report
report glib strings s = record {
  urls = topn_cont_print glib strings s.url_to_sz top;
  referers = topn_cont_print glib strings s.ref_to_ct top;
  total = s.total;
}
