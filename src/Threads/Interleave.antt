-- ===== src/Threads/Interleave.antt =====
-- What the threads of hw10-threads/main.c come to, in whatever order their steps are made.
use otus_c_2025_3_kushko.Common.{
  ℕ, ◌+◌, ◌%◌, ◌^◌, ◌≤◌, ◌≡◌, refl, ◌∙◌, List, [], ◌∷◌, ◌++◌, Option, length, arith,
}
use otus_c_2025_3_kushko.Threads.Glib.{Glib, Strings}
use otus_c_2025_3_kushko.Threads.Topn.{ListItem, Container, topn_cont_merge}
use otus_c_2025_3_kushko.Threads.Parser.{Stats, Ovector, ts_add}
use otus_c_2025_3_kushko.Threads.Lines.{IsStats}
use otus_c_2025_3_kushko.Threads.Merge.{topn_cont_merge_lem}
use otus_c_2025_3_kushko.Threads.Cut.{IsTop}
use otus_c_2025_3_kushko.Threads.GetStat.{
  Op, add_size, merge_urls, merge_refs, apply, System, Step, step, Reach, here, next,
}

-- What steps add to the total.
abbrev pub size_of : Op → ℕ
size_of (add_size n) = n
size_of (merge_urls c) = 0
size_of (merge_refs c) = 0

abbrev pub sizes : List Op → ℕ
sizes [] = 0
sizes (op ∷ ops) = size_of op + sizes ops

abbrev pub all_sizes : List (List Op) → ℕ
all_sizes [] = 0
all_sizes (ops ∷ threads) = sizes ops + all_sizes threads

pub sizes-append : (xs ys : List Op) → sizes (xs ++ ys) ≡ sizes xs + sizes ys
sizes-append [] ys = omega arith
sizes-append (x ∷ xs) ys = omega (arith, sizes-append xs ys)

all_sizes-append : (xs ys : List (List Op)) → all_sizes (xs ++ ys) ≡ all_sizes xs + all_sizes ys
all_sizes-append [] ys = omega arith
all_sizes-append (x ∷ xs) ys = omega (arith, all_sizes-append xs ys)

-- The number of steps left.
abbrev pub steps_left : List (List Op) → ℕ
steps_left [] = 0
steps_left (ops ∷ threads) = length ops + steps_left threads

pub no_sizes : (threads : List (List Op)) → steps_left threads ≡ 0 → all_sizes threads ≡ 0
no_sizes [] h = refl
no_sizes ([] ∷ threads) h = omega (arith, no_sizes threads (omega arith))
no_sizes ((op ∷ ops) ∷ threads) h = absurd (omega arith)

module _ (glib : Glib ListItem) (strings : Strings) (pcre_exec : List ℕ → Option Ovector) where
  merge_IsTop :
      (dst src : Container)
      → IsTop glib strings dst.list
      → let c = topn_cont_merge glib strings dst src in
        IsTop glib strings c.list × (length c.list ≤ c.capacity)
  merge_IsTop dst src v =
      let (is_cut, same) = topn_cont_merge_lem glib strings dst src v in
      (is_cut.items_IsTop, omega (arith, is_cut.fits, same))

  apply-IsStats :
      (op : Op) (s : Stats)
      → IsStats glib strings pcre_exec s
      → IsStats glib strings pcre_exec (apply glib strings pcre_exec op s)
        × ((apply glib strings pcre_exec op s).total % 2 ^ 64 ≡ (s.total + size_of op) % 2 ^ 64)
  unfolding apply ts_add
  apply-IsStats (add_size n) s v = (
    record { urls = v.urls; urls_fit = v.urls_fit; refs = v.refs; refs_fit = v.refs_fit },
    omega arith,
  )
  apply-IsStats (merge_urls c) s v =
      let (top, fit) = merge_IsTop s.url_to_sz c v.urls in
      (record { urls = top; urls_fit = fit; refs = v.refs; refs_fit = v.refs_fit }, omega arith)
  apply-IsStats (merge_refs c) s v =
      let (top, fit) = merge_IsTop s.ref_to_ct c v.refs in
      (record { urls = v.urls; urls_fit = v.urls_fit; refs = top; refs_fit = fit }, omega arith)

  -- What every step keeps: the containers are in order and within their capacities, and the total
  -- with what is left to add is the same in 64 bits.
  pub record Keeps (t u : System glib strings pcre_exec) : Type 0 where
    pub stats : IsStats glib strings pcre_exec u.shared
    pub total :
        (u.shared.total + all_sizes u.threads) % 2 ^ 64
        ≡ (t.shared.total + all_sizes t.threads) % 2 ^ 64

  Step-Keeps :
      {t u : System glib strings pcre_exec}
      → Step glib strings pcre_exec t u
      → IsStats glib strings pcre_exec t.shared
      → Keeps t u
  Step-Keeps (step front back op ops s) v =
      let (w, total) = apply-IsStats op s v in
      record {
        stats = w;
        total = omega (
          arith,
          total,
          all_sizes-append front ((op ∷ ops) ∷ back),
          all_sizes-append front (ops ∷ back),
        );
      }

  pub Reach-Keeps :
      {t u : System glib strings pcre_exec}
      → IsStats glib strings pcre_exec t.shared
      → Reach glib strings pcre_exec t u
      → Keeps t u
  Reach-Keeps v here = record { stats = v; total = refl }
  Reach-Keeps v (next r st) =
      let k = Reach-Keeps v r in
      let l = Step-Keeps st k.stats in record { stats = l.stats; total = l.total ∙ k.total }
