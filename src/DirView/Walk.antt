-- ===== src/DirView/Walk.antt =====
-- What the rows of the tree view of hw06-gtk/main.c say of the directories.
use otus_c_2025_3_kushko.Common.{
  ℕ, zero, suc, ◌+◌, ◌≤◌, ◌<◌, max, ◌≡◌, refl, sym, ap, ◌∙◌, Bool, true, false, ◌&&◌, ◌||◌, inl,
  inr, Bool-cases, List, [], ◌∷◌, ◌++◌, append-nil, append_assoc, Option, none, some, length,
  length-append, get_or, ltb, if◌then◌else◌, arith,
}
use otus_c_2025_3_kushko.DirView.{
  directory, Dirent, Row, is_directory, is_regular, is_dots, nested_dir_path, add_entry,
  add_entries, fill_file_list_into_tree_view, create_dir_content_view,
}

-- A directory with all below it, entry by entry: one that is no directory to go into, a directory
-- that opens, with its content, or one that does not open.
pub data Content : Type 0 where
  end : Content
  file : Dirent → Content → Content
  opened : List ℕ → Content → Content → Content
  closed : List ℕ → Content → Content

abbrev folder : List ℕ → Dirent
folder name = record { d_name = name; d_type = directory }

abbrev pub entries : Content → List Dirent
entries end = []
entries (file de rest) = de ∷ entries rest
entries (opened name below rest) = folder name ∷ entries rest
entries (closed name rest) = folder name ∷ entries rest

-- A regular file or a directory, with a name of three characters at least.
abbrev pub shown : Dirent → Bool
shown de = (is_directory de.d_type || is_regular de.d_type) && ltb 2 (length de.d_name)

-- The path of what a directory holds.
abbrev pub child : List ℕ → List ℕ → List ℕ
child path name = path ++ b'/' ∷ name

-- The directories below `path` are as the content says.
abbrev pub Holds : (List ℕ → Option (List Dirent)) → List ℕ → Content → Type 0
Holds opendir path end = Unit {0}
Holds opendir path (file de rest) =
    ((shown de && is_directory de.d_type) ≡ false) × Holds opendir path rest
Holds opendir path (opened name below rest) =
    (2 < length name)
    × (opendir (child path name) ≡ some (entries below))
    × Holds opendir (child path name) below
    × Holds opendir path rest
Holds opendir path (closed name rest) =
    (2 < length name) × (opendir (child path name) ≡ none) × Holds opendir path rest

-- The paths of the files that are shown, each directory before what is in it.
abbrev pub paths : List ℕ → Content → List (List ℕ)
paths path end = []
paths path (file de rest) =
    if shown de then child path de.d_name ∷ paths path rest else paths path rest
paths path (opened name below rest) =
    child path name ∷ paths (child path name) below ++ paths path rest
paths path (closed name rest) = child path name ∷ paths path rest

-- How deep the directories are nested.
abbrev pub depth : Content → ℕ
depth end = 0
depth (file de rest) = depth rest
depth (opened name below rest) = max (suc (depth below)) (depth rest)
depth (closed name rest) = max 1 (depth rest)

-- The path that a row's parent stands for, when those of the earlier rows are known.
abbrev pub parent_path : List ℕ → List (List ℕ) → Option ℕ → List ℕ
parent_path root known none = root
parent_path root known (some i) = get_or known i []

-- The paths of rows, read from their texts and their parents.
abbrev pub row_paths : List ℕ → List (List ℕ) → List Row → List (List ℕ)
row_paths root known [] = known
row_paths root known (row ∷ rows) =
    row_paths root (known ++ child (parent_path root known row.parent) row.text ∷ []) rows

row_paths-append :
    (root : List ℕ) (known : List (List ℕ)) (rows : List Row) (row : Row)
    → row_paths root known (rows ++ row ∷ [])
      ≡ row_paths root known rows
        ++ child (parent_path root (row_paths root known rows) row.parent) row.text ∷ []
row_paths-append root known [] row = refl
row_paths-append root known (r ∷ rows) row =
    row_paths-append root (known ++ child (parent_path root known r.parent) r.text ∷ []) rows row

length-row_paths :
    (root : List ℕ) (known : List (List ℕ)) (rows : List Row)
    → length (row_paths root known rows) ≡ length known + length rows
length-row_paths root known [] = omega arith
length-row_paths root known (r ∷ rows) =
    let path = child (parent_path root known r.parent) r.text in
    omega (arith, length-row_paths root (known ++ path ∷ []) rows, length-append known (path ∷ []))

get_or-append_at {ℓ} :
    {A : Type ℓ} (xs ys : List A) (x d : A) → get_or (xs ++ x ∷ ys) (length xs) d ≡ x
get_or-append_at [] ys x d = refl
get_or-append_at (y ∷ xs) ys x d = get_or-append_at xs ys x d

get_or-append_lt {ℓ} :
    {A : Type ℓ} (xs ys : List A) (i : ℕ) (d : A)
    → i < length xs
    → get_or (xs ++ ys) i d ≡ get_or xs i d
get_or-append_lt [] ys i d h = absurd (omega arith)
get_or-append_lt (x ∷ xs) ys zero d h = refl
get_or-append_lt (x ∷ xs) ys (suc i) d h = get_or-append_lt xs ys i d (omega arith)

-- A row that is known, or none.
abbrev IsKnown : Option ℕ → List (List ℕ) → Type 0
IsKnown none known = Unit {0}
IsKnown (some i) known = i < length known

parent_path-append :
    (root : List ℕ) (known more : List (List ℕ)) (parent : Option ℕ)
    → IsKnown parent known
    → (parent_path root (known ++ more) parent ≡ parent_path root known parent)
      × IsKnown parent (known ++ more)
parent_path-append root known more none h = (refl, tt)
parent_path-append root known more (some i) h =
    (get_or-append_lt known more i [] h, omega (arith, length-append known more))

-- The outcome of a part of the walk: the rows' paths have grown by `added`.
record IsAdded (root : List ℕ) (store : List Row) (added : List (List ℕ))
    (result : Option (List Row)) : Type 0 where
  after : List Row
  ends : result ≡ some after
  grown : row_paths root [] after ≡ row_paths root [] store ++ added

shown-dots : (name : List ℕ) → 2 < length name → is_dots name ≡ false
shown-dots [] h = absurd (omega arith)
shown-dots (a ∷ []) h = absurd (omega arith)
shown-dots (a ∷ b ∷ []) h = absurd (omega arith)
shown-dots (a ∷ b ∷ c ∷ cs) h = ground arith

abbrev row_of : Option ℕ → List ℕ → Row
row_of parent name = record { parent = parent; text = name }

add_entry-hidden :
    (nested : List ℕ → Option ℕ → List Row → Option (List Row)) (path : List ℕ) (parent : Option ℕ)
    (de : Dirent) (store : List Row)
    → shown de ≡ false
    → add_entry nested path parent de store ≡ some store
unfolding add_entry
add_entry-hidden nested path parent de store h = ground arith

add_entry-file :
    (nested : List ℕ → Option ℕ → List Row → Option (List Row)) (path : List ℕ) (parent : Option ℕ)
    (de : Dirent) (store : List Row)
    → shown de ≡ true
    → is_directory de.d_type ≡ false
    → add_entry nested path parent de store ≡ some (store ++ row_of parent de.d_name ∷ [])
unfolding add_entry
add_entry-file nested path parent de store h k =
    let long : 2 < length de.d_name = ground arith in rw (shown-dots de.d_name long) (ground arith)

add_entry-directory :
    (nested : List ℕ → Option ℕ → List Row → Option (List Row)) (path : List ℕ) (parent : Option ℕ)
    (name : List ℕ) (store : List Row)
    → 2 < length name
    → add_entry nested path parent (folder name) store
      ≡ nested (nested_dir_path path name) (some (length store)) (store ++ row_of parent name ∷ [])
unfolding add_entry
add_entry-directory nested path parent name store long = rw (shown-dots name long) (ground arith)

-- The row `parent` is there and stands for `path`.
record IsPlace (root : List ℕ) (store : List Row) (path : List ℕ) (parent : Option ℕ) : Type 0 where
  stands : parent_path root (row_paths root [] store) parent ≡ path
  known : IsKnown parent (row_paths root [] store)

IsPlace-grown :
    (root path : List ℕ) (parent : Option ℕ) (store store' : List Row) (more : List (List ℕ))
    → IsPlace root store path parent
    → row_paths root [] store' ≡ row_paths root [] store ++ more
    → IsPlace root store' path parent
IsPlace-grown root path parent store store' more v e =
    let (same, known) = parent_path-append root (row_paths root [] store) more parent v.known in
    record { stands = rw e (same ∙ v.stands); known = rw e known }

row_added :
    (root path : List ℕ) (parent : Option ℕ) (store : List Row) (name : List ℕ)
    → IsPlace root store path parent
    → row_paths root [] (store ++ row_of parent name ∷ [])
      ≡ row_paths root [] store ++ nested_dir_path path name ∷ []
row_added root path parent store name v =
    row_paths-append root [] store (row_of parent name)
    ∙ ap (λ p. row_paths root [] store ++ nested_dir_path p name ∷ []) v.stands

IsPlace-below :
    (root path : List ℕ) (parent : Option ℕ) (store : List Row) (name : List ℕ)
    → IsPlace root store path parent
    → IsPlace root
        (store ++ row_of parent name ∷ [])
        (nested_dir_path path name)
        (some (length store))
IsPlace-below root path parent store name v =
    let known = row_paths root [] store in
    let size : length known ≡ length store = omega (arith, length-row_paths root [] store) in
    let e = row_added root path parent store name v in
    let here = nested_dir_path path name in
    record {
      stands = rw (e, sym size) (get_or-append_at known [] here []);
      known = rw e (omega (arith, length-append known (here ∷ []), size));
    }

IsAdded-cons :
    (root path : List ℕ) (parent : Option ℕ) (de : Dirent) (des : List Dirent) (store : List Row)
    (added more : List (List ℕ)) (nested : List ℕ → Option ℕ → List Row → Option (List Row))
    (first : IsAdded root store added (add_entry nested path parent de store))
    → IsAdded root first.after more (add_entries nested path parent des first.after)
    → IsAdded root store (added ++ more) (add_entries nested path parent (de ∷ des) store)
unfolding add_entries
IsAdded-cons root path parent de des store added more nested first later = record {
  after = later.after;
  ends = rw (first.ends, add_entries) later.ends;
  grown =
      later.grown
      ∙ ap (λ xs. xs ++ more) first.grown
      ∙ append_assoc (row_paths root [] store) added more;
}

module _ (opendir : List ℕ → Option (List Dirent)) (root : List ℕ) where
  fill-add_entries :
      (fuel : ℕ) (path : List ℕ) (parent : Option ℕ) (des : List Dirent) (store : List Row)
      → opendir path ≡ some des
      → fill_file_list_into_tree_view opendir (suc fuel) path parent store
        ≡ add_entries (fill_file_list_into_tree_view opendir fuel) path parent des store
  unfolding fill_file_list_into_tree_view
  fill-add_entries fuel path parent des store h = rw (h, fill_file_list_into_tree_view) refl

  fill-none :
      (fuel : ℕ) (path : List ℕ) (parent : Option ℕ) (store : List Row)
      → opendir path ≡ none
      → fill_file_list_into_tree_view opendir (suc fuel) path parent store ≡ some store
  unfolding fill_file_list_into_tree_view
  fill-none fuel path parent store h = rw (h, fill_file_list_into_tree_view) refl

  IsAdded-then :
      (fuel : ℕ) (path : List ℕ) (parent : Option ℕ) (de : Dirent) (des : List Dirent)
      (store : List Row) (added more : List (List ℕ))
      → IsPlace root store path parent
      → IsAdded root store added
          (add_entry (fill_file_list_into_tree_view opendir fuel) path parent de store)
      → ((s : List Row)
          → IsPlace root s path parent
          → IsAdded root s more
              (add_entries (fill_file_list_into_tree_view opendir fuel) path parent des s))
      → IsAdded root store
          (added ++ more)
          (add_entries (fill_file_list_into_tree_view opendir fuel) path parent (de ∷ des) store)
  IsAdded-then fuel path parent de des store added more v first rest =
      IsAdded-cons root path parent de des store added more
        (fill_file_list_into_tree_view opendir fuel) first
        (rest first.after (IsPlace-grown root path parent store first.after added v first.grown))

  IsAdded-row :
      (path : List ℕ) (parent : Option ℕ) (name : List ℕ) (store : List Row)
      (result : Option (List Row))
      → IsPlace root store path parent
      → result ≡ some (store ++ row_of parent name ∷ [])
      → IsAdded root store (nested_dir_path path name ∷ []) result
  IsAdded-row path parent name store result v e = record {
    after = store ++ row_of parent name ∷ [];
    ends = e;
    grown = row_added root path parent store name v;
  }

  IsAdded-nothing :
      (store : List Row) (result : Option (List Row))
      → result ≡ some store
      → IsAdded root store [] result
  IsAdded-nothing store result e = record {
    after = store;
    ends = e;
    grown = sym (append-nil (row_paths root [] store));
  }

  IsAdded-below :
      (path : List ℕ) (parent : Option ℕ) (name : List ℕ) (store : List Row) (below : List (List ℕ))
      (result result' : Option (List Row))
      → IsPlace root store path parent
      → result ≡ result'
      → IsAdded root (store ++ row_of parent name ∷ []) below result'
      → IsAdded root store (nested_dir_path path name ∷ below) result
  IsAdded-below path parent name store below result result' v e added = record {
    after = added.after;
    ends = e ∙ added.ends;
    grown =
        added.grown
        ∙ ap (λ xs. xs ++ below) (row_added root path parent store name v)
        ∙ append_assoc (row_paths root [] store) (nested_dir_path path name ∷ []) below;
  }

  add_entries-IsAdded :
      (t : Content) (fuel : ℕ) (path : List ℕ) (parent : Option ℕ) (store : List Row)
      → Holds opendir path t
      → depth t ≤ fuel
      → IsPlace root store path parent
      → IsAdded root store
          (paths path t)
          (add_entries (fill_file_list_into_tree_view opendir fuel) path parent (entries t) store)
  unfolding add_entries
  add_entries-IsAdded end fuel path parent store h d v = IsAdded-nothing store (some store) refl
  add_entries-IsAdded (file de rest) fuel path parent store h d v =
      let nested = fill_file_list_into_tree_view opendir fuel in
      let result = add_entry nested path parent de store in
      let later = λ (s : List Row) (w : IsPlace root s path parent).
        add_entries-IsAdded rest fuel path parent s h.1 d w in
      elim (Bool-cases (shown de)) [
        | inl seen ↦ rw seen (
            IsAdded-then fuel path parent de (entries rest) store
              (nested_dir_path path de.d_name ∷ []) (paths path rest) v
              (IsAdded-row path parent de.d_name store result v
                (add_entry-file nested path parent de store seen (ground (arith, h.0))))
              later)
        | inr hidden ↦ rw hidden (
            IsAdded-then fuel path parent de (entries rest) store [] (paths path rest) v
              (IsAdded-nothing store result (add_entry-hidden nested path parent de store hidden))
              later)
      ]
  add_entries-IsAdded (opened name below rest) zero path parent store h d v = absurd (omega arith)
  add_entries-IsAdded (opened name below rest) (suc fuel) path parent store h d v =
      let nested = fill_file_list_into_tree_view opendir (suc fuel) in
      let here = nested_dir_path path name in
      let row = store ++ row_of parent name ∷ [] in
      let des = entries below in
      let (long, opens, inside, after) = h in
      IsAdded-then (suc fuel) path parent (folder name) (entries rest) store
        (here ∷ paths here below) (paths path rest) v
        (IsAdded-below path parent name store (paths here below)
          (add_entry nested path parent (folder name) store)
          (add_entries (fill_file_list_into_tree_view opendir fuel) here (some (length store)) des
            row)
          v
          (add_entry-directory nested path parent name store long
            ∙ fill-add_entries fuel here (some (length store)) des row opens)
          (add_entries-IsAdded below fuel here (some (length store)) row inside (omega arith)
            (IsPlace-below root path parent store name v)))
        (λ s w. add_entries-IsAdded rest (suc fuel) path parent s after (omega arith) w)
  add_entries-IsAdded (closed name rest) zero path parent store h d v = absurd (omega arith)
  add_entries-IsAdded (closed name rest) (suc fuel) path parent store h d v =
      let nested = fill_file_list_into_tree_view opendir (suc fuel) in
      let here = nested_dir_path path name in
      let row = store ++ row_of parent name ∷ [] in
      let (long, fails, after) = h in
      IsAdded-then (suc fuel) path parent (folder name) (entries rest) store (here ∷ [])
        (paths path rest) v
        (IsAdded-row path parent name store (add_entry nested path parent (folder name) store) v (
          add_entry-directory nested path parent name store long
          ∙ fill-none fuel here (some (length store)) row fails))
        (λ s w. add_entries-IsAdded rest (suc fuel) path parent s after (omega arith) w)

-- With fuel above the depth of the directories, the walk ends, and the rows that it leaves, each read
-- with the texts of its parents as a path from the directory shown, are just the regular files and
-- the directories with names of three characters or more, in the order of the directories, each
-- directory before what it holds.
pub create_dir_content_view_lem :
    (opendir : List ℕ → Option (List Dirent)) (path : List ℕ) (t : Content) (fuel : ℕ)
    → opendir path ≡ some (entries t)
    → Holds opendir path t
    → depth t < fuel
    → (rows : List Row) × (create_dir_content_view opendir fuel path ≡ some rows)
      × (row_paths path [] rows ≡ paths path t)
unfolding create_dir_content_view
create_dir_content_view_lem opendir path t zero opens h d = absurd (omega arith)
create_dir_content_view_lem opendir path t (suc fuel) opens h d =
    let added : IsAdded path [] (paths path t)
        (add_entries (fill_file_list_into_tree_view opendir fuel) path none (entries t) []) =
      add_entries-IsAdded opendir path t fuel path none [] h (omega arith)
        (record { stands = refl; known = tt }) in
    (
      added.after,
      fill-add_entries opendir path fuel path none (entries t) [] opens ∙ added.ends,
      added.grown,
    )
