-- ===== src/Threads/Total.antt =====
-- The whole of hw10-threads/main.c: the files shared among the threads, and the total at their end.
use otus_c_2025_3_kushko.Common.{
  ℕ, ◌+◌, ◌%◌, ◌^◌, ◌<◌, ◌≡◌, refl, ap, sym, ◌∙◌, List, [], ◌∷◌, ◌++◌, Option, none, some, map,
  length, arith,
}
use otus_c_2025_3_kushko.Threads.Glib.{Glib, Strings, count}
use otus_c_2025_3_kushko.Threads.Topn.{ListItem, topn_cont_init}
use otus_c_2025_3_kushko.Threads.Parser.{Stats, Ovector}
use otus_c_2025_3_kushko.Threads.Lines.{IsStats, line-IsStats, size_of_lines}
use otus_c_2025_3_kushko.Threads.Files.{shared, share_files, share_files_lem, join}
use otus_c_2025_3_kushko.Threads.GetStat.{
  file_stats, parse_line, lines_ops, file_ops, lines_of, get_stat, System, Reach,
}
use otus_c_2025_3_kushko.Threads.Interleave.{
  sizes, sizes-append, all_sizes, no_sizes, steps_left, Reach-Keeps,
}

module _ (glib : Glib ListItem) (strings : Strings) (pcre_exec : List ℕ → Option Ovector) where
  file_stats-IsStats : IsStats glib strings pcre_exec file_stats
  unfolding file_stats topn_cont_init
  file_stats-IsStats = record {
    urls = record { ordered = tt; apart = λ key. unfold count in omega arith };
    urls_fit = omega arith;
    refs = record { ordered = tt; apart = λ key. unfold count in omega arith };
    refs_fit = omega arith;
  }

  file_stats-zero : file_stats.total ≡ 0
  unfolding file_stats
  file_stats-zero = refl

  sizes-lines_ops :
      (local : Stats) (lines : List (List ℕ))
      → IsStats glib strings pcre_exec local
      → sizes (lines_ops glib strings pcre_exec local lines) % 2 ^ 64
        ≡ size_of_lines glib strings pcre_exec lines % 2 ^ 64
  unfolding lines_ops
  sizes-lines_ops local [] v = refl
  sizes-lines_ops local (line ∷ lines) v =
      let (w, size) =
        line-IsStats glib strings pcre_exec (record local { total = 0 }) line
          (record { urls = v.urls; urls_fit = v.urls_fit; refs = v.refs; refs_fit = v.refs_fit }) in
      let local' = parse_line glib strings pcre_exec local line in
      omega (arith, size, sizes-lines_ops local' lines w)

  module _ {File : Type 0} (open_file : File → Option (List (List ℕ)))
      (paths_glib : Glib File) where
    -- The sizes of the lines of a file, and of some files.
    abbrev pub size_of_file : Option (List (List ℕ)) → ℕ
    size_of_file none = 0
    size_of_file (some lines) = size_of_lines glib strings pcre_exec lines

    abbrev pub total_size : List (Option File) → ℕ
    total_size [] = 0
    total_size (path ∷ paths) =
        size_of_file (lines_of glib strings pcre_exec open_file path) + total_size paths

    -- The threads before their first step, each with the list of its files.
    abbrev pub start : List (List (Option File)) → System glib strings pcre_exec
    start lists = record {
      threads = map (get_stat glib strings pcre_exec open_file) lists;
      shared = file_stats;
    }

    sizes-file_ops :
        (found : Option (List (List ℕ)))
        → sizes (file_ops glib strings pcre_exec open_file found) % 2 ^ 64
          ≡ size_of_file found % 2 ^ 64
    sizes-file_ops none = refl
    sizes-file_ops (some lines) = sizes-lines_ops file_stats lines file_stats-IsStats

    sizes-get_stat :
        (paths : List (Option File))
        → sizes (get_stat glib strings pcre_exec open_file paths) % 2 ^ 64
          ≡ total_size paths % 2 ^ 64
    unfolding get_stat
    sizes-get_stat [] = refl
    sizes-get_stat (path ∷ paths) =
        let found = lines_of glib strings pcre_exec open_file path in
        omega (
          arith,
          sizes-append (file_ops glib strings pcre_exec open_file found)
              (get_stat glib strings pcre_exec open_file paths),
          sizes-file_ops found,
          sizes-get_stat paths,
        )

    total_size-append :
        (xs ys : List (Option File)) → total_size (xs ++ ys) ≡ total_size xs + total_size ys
    total_size-append [] ys = omega arith
    total_size-append (x ∷ xs) ys = omega (arith, total_size-append xs ys)

    all_sizes-start :
        (lists : List (List (Option File)))
        → all_sizes (start lists).threads % 2 ^ 64 ≡ total_size (join lists) % 2 ^ 64
    all_sizes-start [] = refl
    all_sizes-start (paths ∷ lists) =
        omega
          (arith, all_sizes-start lists, sizes-get_stat paths, total_size-append paths (join lists))

    shared_injective : (xs ys : List (List (Option File))) → shared xs ≡ shared ys → xs ≡ ys
    shared_injective xs ys h = cc

    -- Whatever number of threads is asked for, and in whatever order they make their steps, at their
    -- end the total is the sum, in 64 bits, of the sizes of all lines of all files that open, each
    -- file counted once, and both containers are in order, with keys apart and within their
    -- capacities.
    pub total_lem :
        (files : List File) (asked : ℕ) (lists : List (List (Option File)))
        (u : System glib strings pcre_exec)
        → 0 < length files
        → 0 < asked
        → share_files paths_glib files asked ≡ shared lists
        → Reach glib strings pcre_exec (start lists) u
        → steps_left u.threads ≡ 0
        → (u.shared.total % 2 ^ 64 ≡ total_size (map some files) % 2 ^ 64)
          × IsStats glib strings pcre_exec u.shared
    total_lem files asked lists u some_file some_thread shares r done =
        let (lists', shares', size, all_files) =
          share_files_lem paths_glib files asked some_file some_thread in
        let same = shared_injective lists lists' (sym shares ∙ shares') in
        let k = Reach-Keeps glib strings pcre_exec file_stats-IsStats r in
        (
          omega (
            arith,
            k.total,
            no_sizes u.threads done,
            all_sizes-start lists,
            ap (λ (xs : List (List (Option File))). total_size (join xs)) same,
            ap total_size all_files,
            file_stats-zero,
          ),
          k.stats,
        )
