-- ===== src/Threads/Parser.antt =====
-- hw10-threads/stat_parser.c: what one line of a log adds to the statistics.
use otus_c_2025_3_kushko.Common.{
  ℕ, zero, suc, ◌+◌, ◌-◌, ◌%◌, ◌^◌, List, [], ◌∷◌, Option, none, some, take, drop, if◌then◌else◌,
}
use otus_c_2025_3_kushko.Common.Int.{ℤ, pos, negsuc}
use otus_c_2025_3_kushko.Common.Decimal.{atoi, is_space}
use otus_c_2025_3_kushko.Common.Text.{codes, strstr}
use otus_c_2025_3_kushko.Threads.Glib.{Glib, Strings}
use otus_c_2025_3_kushko.Threads.Topn.{ListItem, Container, topn_cont_add}

-- The two containers that lines are added to, and the total.
pub record Stats : Type 0 where
  pub url_to_sz : Container
  pub ref_to_ct : Container
  pub total : ℕ

-- An int as a size_t.
unfoldable pub to_size : ℤ → ℕ
to_size (pos n) = n
to_size (negsuc n) = 2 ^ 64 - 1 - n

unfoldable pub ts_add : Stats → ℕ → Stats
ts_add s size = record s { total = (s.total + size) % 2 ^ 64 }

-- The offsets of a field's match, by the field's number.
abbrev pub Ovector : Type 0
Ovector = ℕ → Option (ℕ × ℕ)

-- The value of a field, or null where the pattern has no such field.
unfoldable pub alloc_value_from_pcre : List ℕ → Ovector → ℕ → Option (List ℕ)
alloc_value_from_pcre logline ovector field = elim (ovector field) [
  | none ↦ none
  | some (from, to) ↦ some (take (to - from) (drop from logline))
]

abbrev skip_space : List ℕ → List ℕ
skip_space [] = []
skip_space (c ∷ cs) = if is_space c then skip_space cs else c ∷ cs

-- The characters up to white space, `n` at most, and what is left.
abbrev word : ℕ → List ℕ → List ℕ × List ℕ
word zero cs = ([], cs)
word (suc n) [] = ([], [])
word (suc n) (c ∷ cs) =
    let (w, rest) = word n cs in if is_space c then ([], c ∷ cs) else (c ∷ w, rest)

-- The conversion `%ns` of `sscanf`.
abbrev scan_word : ℕ → List ℕ → Option (List ℕ × List ℕ)
scan_word n cs =
    let (w, rest) = word n (skip_space cs) in elim w [ [] ↦ none | c ∷ w' ↦ some (c ∷ w', rest) ]

infixl 40 ◌>>=◌
unfoldable ◌>>=◌ : {A B : Type 0} → Option A → (A → Option B) → Option B
none >>= f = none
some a >>= f = f a

-- The path that `sscanf` reads with "%15s %255s %15s", when it reads all three.
unfoldable pub request_path : List ℕ → Option (List ℕ)
unfolding ◌>>=◌
request_path request = do
  (method, after_method) ← scan_word 15 request
  (path, after_path) ← scan_word 255 after_method
  (protocol, rest) ← scan_word 15 after_path
  some path

-- The address of a request: "HTTP/" tells whether it is more than an address.
unfoldable pub url_of : List ℕ → Option (List ℕ)
url_of request = if strstr request (codes "HTTP/") then request_path request else some request

-- What `parse_combined_logline` meets: `pcre_exec` gives the offsets when the line matches.
module _ (glib : Glib ListItem) (strings : Strings) (pcre_exec : List ℕ → Option Ovector) where
  abbrev pub add_url : Stats → Option (List ℕ) → ℤ → Stats
  add_url s none size = s
  add_url s (some url) size = record s {
    url_to_sz = topn_cont_add glib strings s.url_to_sz url size;
  }

  -- The part with the request (field 4) and the size (field 6).
  unfoldable pub add_request : Stats → Option (List ℕ) → Option (List ℕ) → Stats
  add_request s none size = s
  add_request s (some request) none = s
  add_request s (some request) (some size) =
      ts_add (add_url s (url_of request) (atoi size)) (to_size (atoi size))

  -- The part with the referer (field 7).
  unfoldable pub add_referer : Stats → Option (List ℕ) → Stats
  add_referer s none = s
  add_referer s (some referer) = record s {
    ref_to_ct = topn_cont_add glib strings s.ref_to_ct referer (pos 1);
  }

  -- What follows `pcre_exec`.
  unfoldable pub add_match : Stats → List ℕ → Option Ovector → Stats
  add_match s logline none = s
  add_match s logline (some ovector) =
      add_referer
        (add_request s (alloc_value_from_pcre logline ovector 4)
          (alloc_value_from_pcre logline ovector 6))
        (alloc_value_from_pcre logline ovector 7)

  unfoldable pub parse_combined_logline : Stats → List ℕ → Stats
  parse_combined_logline s logline = add_match s logline (pcre_exec logline)

  -- The lines of a file, as `get_stat` reads them in order.
  unfoldable pub parse_lines : Stats → List (List ℕ) → Stats
  parse_lines s [] = s
  parse_lines s (logline ∷ lines) = parse_lines (parse_combined_logline s logline) lines
