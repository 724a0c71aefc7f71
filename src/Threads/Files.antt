-- ===== src/Threads/Files.antt =====
-- How `main` of hw10-threads/main.c shares the log files among its threads.
use native.Mathlib.Nat.{mul-le-mul_right, mul-div-le}
use otus_c_2025_3_kushko.Common.{
  ℕ, zero, suc, ◌+◌, ◌-◌, ◌*◌, ◌/◌, ◌≤◌, ◌<◌, ◌≡◌, inl, inr, refl, ap, ap₂, sym, ◌∙◌, true, false,
  ◌&&◌, if◌then◌else◌, List, [], ◌∷◌, ◌++◌, append-nil, append_assoc, ltb, ◌==◌, arith, Bool-cases,
  Option, some, length, map, min, get_elem?,
}
use otus_c_2025_3_kushko.Threads.Glib.{Glib}

-- What becomes of the files: the lists of the threads, an exit since there are none, or a division
-- by zero.
pub data Shares (A : Type 0) : Type 0 where
  exit_failure : Shares A
  division_by_zero : Shares A
  shared : List (List (Option A)) → Shares A

module _ {A : Type 0} (glib : Glib A) where
  -- A loop over `j` from `j` on, with `n` rounds, which appends the file at each index.
  unfoldable pub append_from : List A → ℕ → ℕ → List (Option A) → List (Option A)
  append_from files j zero out = out
  append_from files j (suc n) out =
      append_from files (j + 1) n (glib.g_slist_append out (glib.g_slist_nth_data files j))

  -- The list of thread `i`.
  unfoldable pub thread_files : List A → ℕ → ℕ → ℕ → List (Option A)
  thread_files files thread_count per i =
      let count = glib.g_slist_length files in
      let own = append_from files (i * per) per [] in
      if ltb (per * thread_count) count && i == thread_count - 1
      then append_from files (per * thread_count) (count - per * thread_count) own
      else own

  -- The loop over `i`, with `n` rounds.
  unfoldable pub threads_from : List A → ℕ → ℕ → ℕ → ℕ → List (List (Option A))
  threads_from files thread_count per i zero = []
  threads_from files thread_count per i (suc n) =
      thread_files files thread_count per i ∷ threads_from files thread_count per (i + 1) n

  -- The argument is the number of threads that the command line asks for.
  unfoldable pub share_files : List A → ℕ → Shares A
  share_files [] asked = exit_failure
  share_files (file ∷ files) asked =
      let count = glib.g_slist_length (file ∷ files) in
      let thread_count = if ltb count asked then count else asked in
      if thread_count == 0
      then division_by_zero
      else shared (threads_from (file ∷ files) thread_count (count / thread_count) 0 thread_count)

-- The lists of the threads, one after the other.
abbrev pub join : {A : Type 0} → List (List A) → List A
join [] = []
join (xs ∷ xss) = xs ++ join xss

module _ {A : Type 0} where
  -- `n` files from index `j` on.
  part : List A → ℕ → ℕ → List (Option A)
  part files j zero = []
  part files j (suc n) = get_elem? files j ∷ part files (j + 1) n

  part-append :
      (files : List A) (j n m : ℕ) → part files j (n + m) ≡ part files j n ++ part files (j + n) m
  unfolding part
  part-append files j zero m =
      ap₂ (part files) {x = j} {y = j + 0} {u = 0 + m} {v = m} (omega arith) (omega arith)
  part-append files j (suc n) m =
      ap (part files j) {x = suc n + m} {y = suc (n + m)} (omega arith)
      ∙ ap (λ xs. get_elem? files j ∷ xs)
          (part-append files (j + 1) n m
            ∙ ap (λ k. part files (j + 1) n ++ part files k m) (omega arith))

  part-join :
      (files : List A) (j n k m total : ℕ)
      → k ≡ j + n
      → total ≡ n + m
      → part files j n ++ part files k m ≡ part files j total
  part-join files j n k m total e f =
      ap (λ i. part files j n ++ part files i m) e
      ∙ sym (part-append files j n m)
      ∙ ap (part files j) (sym f)

  part-cons : (file : A) (files : List A) (j n : ℕ) → part (file ∷ files) (j + 1) n ≡ part files j n
  unfolding part
  part-cons file files j zero = refl
  part-cons file files j (suc n) =
      ap₂ (λ x xs. x ∷ xs)
        (ap (λ k. get_elem? (file ∷ files) k) {x = j + 1} {y = suc j} (omega arith))
        (part-cons file files (j + 1) n)

  part-all : (files : List A) → part files 0 (length files) ≡ map some files
  unfolding part
  part-all [] = refl
  part-all (file ∷ files) =
      ap (λ xs. some file ∷ xs) (part-cons file files 0 (length files) ∙ part-all files)

  module _ (glib : Glib A) (files : List A) where
    append_from-part :
        (j n : ℕ) (out : List (Option A)) → append_from glib files j n out ≡ out ++ part files j n
    unfolding append_from part
    append_from-part j zero out = sym (append-nil out)
    append_from-part j (suc n) out =
        append_from-part (j + 1) n (glib.g_slist_append out (glib.g_slist_nth_data files j))
        ∙ ap (λ xs. xs ++ part files (j + 1) n)
            (glib.append_doc out (glib.g_slist_nth_data files j)
              ∙ ap (λ x. out ++ x ∷ []) (glib.nth_data_doc files j))
        ∙ append_assoc out (get_elem? files j ∷ []) (part files (j + 1) n)

    module _ (per threads : ℕ) (enough : threads * per ≤ length files) where
      last_thread :
          (i : ℕ)
          → i + 1 ≡ threads
          → thread_files glib files threads per i ≡ part files (i * per) (length files - i * per)
      unfolding thread_files
      last_thread i e =
          let next : per * threads ≡ i * per + per = ground (arith, ap (λ t. per * t) (sym e)) in
          elim (Bool-cases (ltb (per * threads) (length files))) [
            | inl more ↦
                let here : i == threads - 1 ≡ true = ground arith in
                simp (glib.length_doc files, more, here)
                  (append_from-part (per * threads) (length files - per * threads)
                      (append_from glib files (i * per) per [])
                    ∙ ap (λ xs. xs ++ part files (per * threads) (length files - per * threads))
                        (append_from-part (i * per) per [])
                    ∙ part-join files (i * per) per (per * threads) (length files - per * threads)
                        (length files - i * per) next (ground arith))
            | inr even ↦
                simp (glib.length_doc files, even)
                  (append_from-part (i * per) per [] ∙ ap (part files (i * per)) (ground arith))
          ]

      other_thread :
          (i : ℕ)
          → i + 1 < threads
          → thread_files glib files threads per i ≡ part files (i * per) per
      unfolding thread_files
      other_thread i h =
          let not_last : i == threads - 1 ≡ false = ground arith in
          elim (Bool-cases (ltb (per * threads) (length files))) [
            | inl more ↦
                simp (glib.length_doc files, more, not_last) (append_from-part (i * per) per [])
            | inr even ↦ simp (glib.length_doc files, even) (append_from-part (i * per) per [])
          ]

      -- The lists of `suc n` threads from `i` on hold the files that are left.
      threads_from-part :
          (i n : ℕ)
          → i + suc n ≡ threads
          → join (threads_from glib files threads per i (suc n))
            ≡ part files (i * per) (length files - i * per)
      unfolding threads_from
      threads_from-part i zero e = append-nil _ ∙ last_thread i e
      threads_from-part i (suc n) e =
          let enough_here : (i + 1) * per ≤ length files =
            omega (arith, mul-le-mul_right {m = i + 1} {n = threads} per (omega arith)) in
          ap₂ (λ xs ys. xs ++ ys) (other_thread i (omega arith))
            (threads_from-part (i + 1) n (omega arith))
          ∙ part-join files (i * per) per ((i + 1) * per) (length files - (i + 1) * per)
              (length files - i * per) (omega arith) (omega arith)

      length-threads_from : (i n : ℕ) → length (threads_from glib files threads per i n) ≡ n
      unfolding threads_from
      length-threads_from i zero = refl
      length-threads_from i (suc n) = ap suc (length-threads_from (i + 1) n)

  -- With at least one file, and at least one thread asked for, there are as many threads as asked
  -- for, or as files when these are fewer, and their lists hold, one after the other, each of the
  -- files once and in order.
  pub share_files_lem :
      (glib : Glib A) (files : List A) (asked : ℕ)
      → 0 < length files
      → 0 < asked
      → (lists : List (List (Option A))) × (share_files glib files asked ≡ shared lists)
        × (length lists ≡ min asked (length files))
        × (join lists ≡ map some files)
  unfolding share_files
  share_files_lem glib [] asked h k = absurd (omega arith)
  share_files_lem glib (file ∷ rest) asked h k =
      let files = file ∷ rest in
      let count = length files in
      let threads = if ltb count asked then count else asked in
      let some_thread : threads == 0 ≡ false = ground arith in
      let enough = mul-div-le count threads in
      let lists = threads_from glib files threads (count / threads) 0 threads in
      let first : threads ≡ suc (threads - 1) = ground arith in
      (
        lists,
        simp (glib.length_doc files, some_thread) refl,
        length-threads_from glib files (count / threads) threads enough 0 threads ∙ ground arith,
        ap (λ n. join (threads_from glib files threads (count / threads) 0 n)) first
            ∙ threads_from-part glib files (count / threads) threads enough 0 (threads - 1)
                (omega (arith, first))
            ∙ ap₂ (part files) {x = 0 * (count / threads)} {y = 0} {v = count} (omega arith)
                (omega arith)
            ∙ part-all files,
      )
