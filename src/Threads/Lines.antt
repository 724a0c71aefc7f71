-- ===== src/Threads/Lines.antt =====
-- What the lines of a log make of the statistics of hw10-threads.
use otus_c_2025_3_kushko.Common.{
  ℕ, ◌+◌, ◌%◌, ◌^◌, ◌≤◌, ◌≡◌, refl, List, [], ◌∷◌, Option, none, some, length, arith,
}
use otus_c_2025_3_kushko.Common.Int.{ℤ, pos}
use otus_c_2025_3_kushko.Common.Decimal.{atoi}
use otus_c_2025_3_kushko.Threads.Glib.{Glib, Strings}
use otus_c_2025_3_kushko.Threads.Topn.{ListItem, Container, topn_cont_add}
use otus_c_2025_3_kushko.Threads.Cut.{IsTop}
use otus_c_2025_3_kushko.Threads.Upsert.{topn_cont_add_lem}
use otus_c_2025_3_kushko.Threads.Parser.{
  Stats, Ovector, to_size, ts_add, alloc_value_from_pcre, url_of, add_url, add_request, add_referer,
  add_match, parse_combined_logline,
}

module _ (glib : Glib ListItem) (strings : Strings) (pcre_exec : List ℕ → Option Ovector) where
  -- Both containers are in order, with keys apart, and within their capacities.
  pub record IsStats (s : Stats) : Type 0 where
    pub urls : IsTop glib strings s.url_to_sz.list
    pub urls_fit : length s.url_to_sz.list ≤ s.url_to_sz.capacity
    pub refs : IsTop glib strings s.ref_to_ct.list
    pub refs_fit : length s.ref_to_ct.list ≤ s.ref_to_ct.capacity

  add_IsTop :
      (c : Container) (key : List ℕ) (value : ℤ)
      → IsTop glib strings c.list
      → let c' = topn_cont_add glib strings c key value in
        IsTop glib strings c'.list × (length c'.list ≤ c'.capacity)
  add_IsTop c key value v =
      let (is_cut, same) = topn_cont_add_lem glib strings c key value v in
      (is_cut.items_IsTop, omega (arith, is_cut.fits, same))

  -- The size that a line adds to the total.
  abbrev pub size_of_fields : Option (List ℕ) → Option (List ℕ) → ℕ
  size_of_fields none size = 0
  size_of_fields (some request) none = 0
  size_of_fields (some request) (some size) = to_size (atoi size)

  abbrev pub size_of_match : List ℕ → Option Ovector → ℕ
  size_of_match logline none = 0
  size_of_match logline (some ovector) =
      size_of_fields (alloc_value_from_pcre logline ovector 4)
        (alloc_value_from_pcre logline ovector 6)

  abbrev pub size_of_line : List ℕ → ℕ
  size_of_line logline = size_of_match logline (pcre_exec logline)

  abbrev pub size_of_lines : List (List ℕ) → ℕ
  size_of_lines [] = 0
  size_of_lines (logline ∷ lines) = size_of_line logline + size_of_lines lines

  add_url-IsStats :
      (s : Stats) (url : Option (List ℕ)) (size : ℤ)
      → IsStats s
      → IsStats (add_url glib strings pcre_exec s url size)
        × ((add_url glib strings pcre_exec s url size).total ≡ s.total)
  add_url-IsStats s none size v = (v, refl)
  add_url-IsStats s (some url) size v =
      let (top, fit) = add_IsTop s.url_to_sz url size v.urls in
      (record { urls = top; urls_fit = fit; refs = v.refs; refs_fit = v.refs_fit }, refl)

  add_request-IsStats :
      (s : Stats) (request size : Option (List ℕ))
      → IsStats s
      → IsStats (add_request glib strings pcre_exec s request size)
        × ((add_request glib strings pcre_exec s request size).total % 2 ^ 64
            ≡ (s.total + size_of_fields request size) % 2 ^ 64)
  unfolding add_request ts_add
  add_request-IsStats s none size v = (v, omega arith)
  add_request-IsStats s (some request) none v = (v, omega arith)
  add_request-IsStats s (some request) (some size) v =
      let (w, same) = add_url-IsStats s (url_of request) (atoi size) v in
      (
        record { urls = w.urls; urls_fit = w.urls_fit; refs = w.refs; refs_fit = w.refs_fit },
        omega (arith, same),
      )

  add_referer-IsStats :
      (s : Stats) (referer : Option (List ℕ))
      → IsStats s
      → IsStats (add_referer glib strings pcre_exec s referer)
        × ((add_referer glib strings pcre_exec s referer).total ≡ s.total)
  unfolding add_referer
  add_referer-IsStats s none v = (v, refl)
  add_referer-IsStats s (some referer) v =
      let (top, fit) = add_IsTop s.ref_to_ct referer (pos 1) v.refs in
      (record { urls = v.urls; urls_fit = v.urls_fit; refs = top; refs_fit = fit }, refl)

  match-IsStats :
      (s : Stats) (logline : List ℕ) (found : Option Ovector)
      → IsStats s
      → IsStats (add_match glib strings pcre_exec s logline found)
        × ((add_match glib strings pcre_exec s logline found).total % 2 ^ 64
            ≡ (s.total + size_of_match logline found) % 2 ^ 64)
  unfolding add_match
  match-IsStats s logline none v = (v, omega arith)
  match-IsStats s logline (some ovector) v =
      let request = alloc_value_from_pcre logline ovector 4 in
      let size = alloc_value_from_pcre logline ovector 6 in
      let (w, total) = add_request-IsStats s request size v in
      let (w', same) =
        add_referer-IsStats (add_request glib strings pcre_exec s request size)
          (alloc_value_from_pcre logline ovector 7) w in
      (w', omega (arith, total, same))

  pub line-IsStats :
      (s : Stats) (logline : List ℕ)
      → IsStats s
      → IsStats (parse_combined_logline glib strings pcre_exec s logline)
        × ((parse_combined_logline glib strings pcre_exec s logline).total % 2 ^ 64
            ≡ (s.total + size_of_line logline) % 2 ^ 64)
  unfolding parse_combined_logline
  line-IsStats s logline v = match-IsStats s logline (pcre_exec logline) v
