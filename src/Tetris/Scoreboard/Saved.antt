-- ===== src/Tetris/Scoreboard/Saved.antt =====
-- What scoreboard_load of hw17-tetris/scoreboard.c makes of what scoreboard_save wrote.
use otus_c_2025_3_kushko.Common.{
  ℕ, zero, suc, ◌+◌, ◌<◌, ◌≡◌, ◌≢◌, refl, ap, ap₂, sym, ◌∙◌, subst, true, List, [], ◌∷◌, ◌++◌,
  append_assoc, All, Option, none, some, get_or, set, length, length-set, get_or-set, length-append,
  arith,
}
use otus_c_2025_3_kushko.Common.Int.{ℤ, pos, ◌-ℤ◌}
use otus_c_2025_3_kushko.Common.Decimal.{
  show_nat, show_int, atoi, atoi-show_nat_end, atoi-show_nat_line, is_digit, show_nat-IsDigits,
}
use otus_c_2025_3_kushko.Common.Text.{c_string-text, strtok-token, strtok-last, strtok-skip}
use otus_c_2025_3_kushko.Tetris.Scoreboard.{Table}
use otus_c_2025_3_kushko.Tetris.Scoreboard.Insert.{score_at, name_at}
use otus_c_2025_3_kushko.Tetris.Scoreboard.File.{
  save_line, save_lines, scoreboard_save, getline, tokens, put_entry, load_line, load_lines,
  scoreboard_load,
}

-- A character of a name: none of zero, tab and the end of a line.
abbrev pub IsPlain : ℕ → Type 0
IsPlain c = (c ≢ 0) × (c ≢ 9) × (c ≢ 10)

-- A table whose entries can be saved: ten names that are not empty, of plain characters, and ten
-- scores that are not negative.
pub record IsSavable (t : Table) : Type 0 where
  pub ten_names : length t.names ≡ 10
  pub ten_scores : length t.scores ≡ 10
  pub named :
      (i : ℕ)
      → i < 10
      → (name : List ℕ) × (name_at t i ≡ some name) × All IsPlain name × (0 < length name)
  pub scored : (i : ℕ) → i < 10 → (score : ℕ) × (score_at t i ≡ pos score)

All-digits :
    (P : ℕ → Type 0) (text : List ℕ)
    → ((c : ℕ) → is_digit c ≡ true → P c)
    → All (λ c. is_digit c ≡ true) text
    → All P text
All-digits P [] f h = tt
All-digits P (c ∷ cs) f h = (f c h.0, All-digits P cs f h.1)

All-append : (P : ℕ → Type 0) (xs ys : List ℕ) → All P xs → All P ys → All P (xs ++ ys)
All-append P [] ys h k = k
All-append P (x ∷ xs) ys h k = (h.0, All-append P xs ys h.1 k)

All-map : (P Q : ℕ → Type 0) (xs : List ℕ) → ((c : ℕ) → P c → Q c) → All P xs → All Q xs
All-map P Q [] f h = tt
All-map P Q (x ∷ xs) f h = (f x h.0, All-map P Q xs f h.1)

-- The text of one line, from its place, name and score.
line_text : ℕ → List ℕ → ℕ → List ℕ
line_text place name score = show_nat place ++ 9 ∷ 9 ∷ (name ++ 9 ∷ 9 ∷ (show_nat score ++ 10 ∷ []))

digit-IsPlain : (c : ℕ) → is_digit c ≡ true → IsPlain c
digit-IsPlain c h = ground arith

show_nat-IsPlain : (n : ℕ) → All IsPlain (show_nat n)
show_nat-IsPlain n = All-digits IsPlain (show_nat n) digit-IsPlain (show_nat-IsDigits n).digits

getline-line :
    (cs rest : List ℕ)
    → All (λ c. c ≢ 10) cs
    → getline (cs ++ 10 ∷ rest) ≡ some (cs ++ 10 ∷ [], rest)
unfolding getline
getline-line [] rest h = ground arith
getline-line (c ∷ cs) rest h = ground (arith, getline-line cs rest h.1, h.0)

module _ (place : ℕ) (name : List ℕ) (score : ℕ) (plain : All IsPlain name)
    (some_char : 0 < length name) where
  score_end : List ℕ
  score_end = show_nat score ++ 10 ∷ []

  score_end-no_tab : All (λ c. c ≢ 9) score_end
  unfolding score_end
  score_end-no_tab =
      All-append (λ c. c ≢ 9) (show_nat score) (10 ∷ [])
        (All-map IsPlain (λ c. c ≢ 9) (show_nat score) (λ c h. h.1) (show_nat-IsPlain score))
        (omega arith)

  score_end-IsText : (0 < length score_end) × All (λ c. c ≢ 0) score_end
  unfolding score_end
  score_end-IsText = (
    omega (arith, length-append (show_nat score) (10 ∷ [])),
    All-append (λ c. c ≢ 0) (show_nat score) (10 ∷ [])
        (All-map IsPlain (λ c. c ≢ 0) (show_nat score) (λ c h. h.0) (show_nat-IsPlain score))
        (omega arith),
  )

  line_text-no_zero : All (λ c. c ≢ 0) (line_text place name score)
  unfolding line_text score_end
  line_text-no_zero =
      let not_zero =
        λ (cs : List ℕ) (h : All IsPlain cs). All-map IsPlain (λ c. c ≢ 0) cs (λ c k. k.0) h in
      let tail =
        All-append (λ c. c ≢ 0) name (9 ∷ 9 ∷ score_end) (not_zero name plain)
          (omega arith, (omega arith, score_end-IsText.1)) in
      All-append (λ c. c ≢ 0) (show_nat place) (9 ∷ 9 ∷ (name ++ 9 ∷ 9 ∷ score_end))
        (not_zero (show_nat place) (show_nat-IsPlain place)) (omega arith, (omega arith, tail))

  line_text-tokens :
      tokens (line_text place name score) ≡ (some (show_nat place), some name, some score_end)
  unfolding tokens line_text score_end
  line_text-tokens =
      let no_tab =
        λ (cs : List ℕ) (h : All IsPlain cs). All-map IsPlain (λ c. c ≢ 9) cs (λ c k. k.1) h in
      let after_name = 9 ∷ score_end in
      let after_place = 9 ∷ (name ++ 9 ∷ after_name) in
      let whole = c_string-text (line_text place name score) line_text-no_zero in
      let first =
        strtok-token 9 (show_nat place) after_place
          (no_tab (show_nat place) (show_nat-IsPlain place)) (show_nat-IsDigits place).some_digit in
      let second =
        strtok-skip 9 (name ++ 9 ∷ after_name)
        ∙ strtok-token 9 name after_name (no_tab name plain) some_char in
      let third =
        strtok-skip 9 score_end ∙ strtok-last 9 score_end score_end-no_tab score_end-IsText.0 in
      ground (arith, whole, first, second, third)

  line_text-getline :
      (rest : List ℕ)
      → getline (line_text place name score ++ rest) ≡ some (line_text place name score, rest)
  unfolding line_text
  line_text-getline rest =
      let not_end =
        λ (cs : List ℕ) (h : All IsPlain cs). All-map IsPlain (λ c. c ≢ 10) cs (λ c k. k.2) h in
      let body = show_nat place ++ 9 ∷ 9 ∷ (name ++ 9 ∷ 9 ∷ show_nat score) in
      let ended : line_text place name score ≡ body ++ 10 ∷ [] = sym (
        append_assoc (show_nat place) (9 ∷ 9 ∷ (name ++ 9 ∷ 9 ∷ show_nat score)) (10 ∷ [])
        ∙ ap (λ cs. show_nat place ++ 9 ∷ 9 ∷ cs)
            (append_assoc name (9 ∷ 9 ∷ show_nat score) (10 ∷ []))) in
      let inner =
        All-append (λ c. c ≢ 10) name (9 ∷ 9 ∷ show_nat score) (not_end name plain)
          (omega arith, (omega arith, not_end (show_nat score) (show_nat-IsPlain score))) in
      let one_line =
        All-append (λ c. c ≢ 10) (show_nat place) (9 ∷ 9 ∷ (name ++ 9 ∷ 9 ∷ show_nat score))
          (not_end (show_nat place) (show_nat-IsPlain place)) (omega arith, (omega arith, inner)) in
      ap (λ cs. getline (cs ++ rest)) ended
      ∙ ap getline (append_assoc body (10 ∷ []) rest)
      ∙ getline-line body rest one_line
      ∙ ap (λ cs. some (cs, rest)) (sym ended)

  place_number : (i : ℕ) → place ≡ i + 1 → atoi (show_nat place) -ℤ pos 1 ≡ pos i
  unfolding ◌-ℤ◌
  place_number i e = ap (λ z. z -ℤ pos 1) (atoi-show_nat_end place) ∙ ground arith

  -- The round of `scoreboard_load` for a line.
  load_line-text :
      (t : Table) (i : ℕ)
      → place ≡ i + 1
      → i < 10
      → load_line t (line_text place name score)
        ≡ some (record { names = set t.names i (some name); scores = set t.scores i (pos score) })
  unfolding load_line put_entry score_end
  load_line-text t i e h =
      ground (arith, line_text-tokens, place_number i e, atoi-show_nat_line score)

load_lines-step :
    (n : ℕ) (file line rest : List ℕ) (t t' : Table)
    → getline file ≡ some (line, rest)
    → load_line t line ≡ some t'
    → load_lines (suc n) file t ≡ load_lines n rest t'
unfolding load_lines
load_lines-step n file line rest t t' g l = ground (arith, g, l)

-- A table whose first `i` entries are those of `t`.
record IsLoaded (t : Table) (i : ℕ) (t' : Table) : Type 0 where
  ten_names : length t'.names ≡ 10
  ten_scores : length t'.scores ≡ 10
  names : (j : ℕ) → j < i → name_at t' j ≡ name_at t j
  scores : (j : ℕ) → j < i → score_at t' j ≡ score_at t j

list_ext :
    {A : Type 0} (d : A) (xs ys : List A)
    → length xs ≡ length ys
    → ((j : ℕ) → j < length xs → get_or xs j d ≡ get_or ys j d)
    → xs ≡ ys
list_ext d [] [] e h = refl
list_ext d [] (y ∷ ys) e h = absurd (omega arith)
list_ext d (x ∷ xs) [] e h = absurd (omega arith)
list_ext d (x ∷ xs) (y ∷ ys) e h =
    ap₂ (λ z zs. z ∷ zs) (h 0 (omega arith))
      (list_ext d xs ys (omega arith) (λ j k. h (suc j) (omega arith)))

module _ (t : Table) (v : IsSavable t) where
  all_loaded : (t' : Table) → IsLoaded t 10 t' → t' ≡ t
  all_loaded t' l =
      ap₂
        (λ (names : List (Option (List ℕ))) (scores : List ℤ). record {
          names = names;
          scores = scores;
        })
        (list_ext none t'.names t.names (l.ten_names ∙ sym v.ten_names)
          (λ j h. l.names j (omega (arith, l.ten_names))))
        (list_ext (pos 0) t'.scores t.scores (l.ten_scores ∙ sym v.ten_scores)
          (λ j h. l.scores j (omega (arith, l.ten_scores))))

  put-IsLoaded :
      (i : ℕ) (t' : Table) (name : List ℕ) (score : ℕ)
      → i < 10
      → name_at t i ≡ some name
      → score_at t i ≡ pos score
      → IsLoaded t i t'
      → IsLoaded t
          (i + 1)
          (record { names = set t'.names i (some name); scores = set t'.scores i (pos score) })
  put-IsLoaded i t' name score h named scored l = record {
    ten_names = length-set t'.names i (some name) ∙ l.ten_names;
    ten_scores = length-set t'.scores i (pos score) ∙ l.ten_scores;
    names = λ j k.
        ground (arith, get_or-set t'.names i j (some name) none, l.ten_names, l.names j, named);
    scores = λ j k.
        ground
          (arith, get_or-set t'.scores i j (pos score) (pos 0), l.ten_scores, l.scores j, scored);
  }

  save_line-text :
      (i : ℕ) (name : List ℕ) (score : ℕ)
      → name_at t i ≡ some name
      → score_at t i ≡ pos score
      → save_line t i ≡ line_text (i + 1) name score
  unfolding save_line line_text show_int
  save_line-text i name score named scored = simp (named, scored) refl

  load_lines-save :
      (i n : ℕ) (t' : Table)
      → i + n ≡ 10
      → IsLoaded t i t'
      → load_lines n (save_lines t i n) t' ≡ some t
  unfolding load_lines save_lines
  load_lines-save i zero t' e l =
      ap some (all_loaded t' (subst (λ k. IsLoaded t k t') (omega arith) l))
  load_lines-save i (suc n) t' e l =
      let (name, named, plain, some_char) = v.named i (omega arith) in
      let (score, scored) = v.scored i (omega arith) in
      let line = line_text (i + 1) name score in
      let rest = save_lines t (i + 1) n in
      let next : Table = record {
        names = set t'.names i (some name);
        scores = set t'.scores i (pos score);
      } in
      ap (λ cs. load_lines (suc n) (cs ++ rest) t') (save_line-text i name score named scored)
      ∙ load_lines-step n (line ++ rest) line rest t' next
          (line_text-getline (i + 1) name score plain some_char rest)
          (load_line-text (i + 1) name score plain some_char t' i refl (omega arith))
      ∙ load_lines-save (i + 1) n next (omega arith)
          (put-IsLoaded i t' name score (omega arith) named scored l)

-- A table that can be saved is read back from its file, whatever ten entries stood in the arrays
-- before: scoreboard_load reads what scoreboard_save wrote.
pub scoreboard_load-scoreboard_save :
    (t t' : Table)
    → IsSavable t
    → length t'.names ≡ 10
    → length t'.scores ≡ 10
    → scoreboard_load (some (scoreboard_save t)) t' ≡ some t
unfolding scoreboard_load scoreboard_save
scoreboard_load-scoreboard_save t t' v names scores = load_lines-save t v 0 10 t' refl (record {
  ten_names = names;
  ten_scores = scores;
  names = λ j h. absurd (omega arith);
  scores = λ j h. absurd (omega arith);
})
