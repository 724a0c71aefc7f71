-- ===== src/DirView.antt =====
-- hw06-gtk/main.c: the directory tree that is filled into a tree view. The directories are an
-- argument; the widgets are GTK's.
pub mod Walk
mod Tests
use otus_c_2025_3_kushko.Common.{
  ℕ, zero, suc, ◌+◌, Bool, true, false, ◌&&◌, ◌||◌, List, [], ◌∷◌, ◌++◌, Option, none, some, length,
  get_or, ltb, ◌==◌, if◌then◌else◌,
}
use otus_c_2025_3_kushko.Common.Text.{codes, same_text}

-- d_type: DT_DIR, DT_REG, or any other.
pub data FileType : Type 0 where
  directory regular other : FileType

-- struct dirent
pub record Dirent : Type 0 where
  pub d_name : List ℕ
  pub d_type : FileType

-- A row of the tree store: the row above it, if there is one, and its text. The store is the list of
-- its rows in the order of gtk_tree_store_append, and a row is named by its place there.
pub record Row : Type 0 where
  pub parent : Option ℕ
  pub text : List ℕ

abbrev pub is_directory : FileType → Bool
is_directory directory = true
is_directory regular = false
is_directory other = false

abbrev pub is_regular : FileType → Bool
is_regular directory = false
is_regular regular = true
is_regular other = false

abbrev pub is_dots : List ℕ → Bool
is_dots name = same_text name (codes ".") || same_text name (codes "..")

-- The condition for a row.
abbrev pub is_listed : Dirent → Bool
is_listed de = ltb 2 (length de.d_name) && (is_directory de.d_type || is_regular de.d_type)

abbrev pub nested_dir_path : List ℕ → List ℕ → List ℕ
nested_dir_path dir_path name = dir_path ++ b'/' ∷ name

-- A round of the loop; `nested` is the call for a directory.
unfoldable pub add_entry :
    (List ℕ → Option ℕ → List Row → Option (List Row))
    → List ℕ
    → Option ℕ
    → Dirent
    → List Row
    → Option (List Row)
add_entry nested dir_path parent de treestore =
    let added = treestore ++ record { parent = parent; text = de.d_name } ∷ [] in
    if is_dots de.d_name
    then some treestore
    else if is_listed de
    then (if is_directory de.d_type
        then nested (nested_dir_path dir_path de.d_name) (some (length treestore)) added
        else some added)
    else some treestore

-- The loop over the entries of a directory.
unfoldable pub add_entries :
    (List ℕ → Option ℕ → List Row → Option (List Row))
    → List ℕ
    → Option ℕ
    → List Dirent
    → List Row
    → Option (List Row)
add_entries nested dir_path parent [] treestore = some treestore
add_entries nested dir_path parent (de ∷ des) treestore =
    elim (add_entry nested dir_path parent de treestore) [
      | none ↦ none
      | some treestore' ↦ add_entries nested dir_path parent des treestore'
    ]

-- `opendir` gives the entries of a directory, if it can be opened. The fuel bounds the depth of the
-- recursion; `none` is its end.
module _ (opendir : List ℕ → Option (List Dirent)) where
  unfoldable pub fill_file_list_into_tree_view :
      ℕ → List ℕ → Option ℕ → List Row → Option (List Row)
  fill_file_list_into_tree_view zero dir_path parent treestore = none
  fill_file_list_into_tree_view (suc fuel) dir_path parent treestore = elim (opendir dir_path) [
    | none ↦ some treestore
    | some des ↦ add_entries (fill_file_list_into_tree_view fuel) dir_path parent des treestore
  ]

  -- The store of `create_dir_content_view`.
  unfoldable pub create_dir_content_view : ℕ → List ℕ → Option (List Row)
  create_dir_content_view fuel path = fill_file_list_into_tree_view fuel path none []

  -- `handle_command_line`, with the arguments after the program's name.
  unfoldable pub handle_command_line : ℕ → List (List ℕ) → Option (List Row)
  handle_command_line fuel args = create_dir_content_view fuel (get_or args 0 (codes "."))
