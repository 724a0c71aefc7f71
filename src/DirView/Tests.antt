-- ===== src/DirView/Tests.antt =====
-- A tree view of hw06-gtk/main.c on a directory of two files and a directory.
use otus_c_2025_3_kushko.Common.{
  ℕ, ◌≡◌, refl, List, [], ◌∷◌, Option, none, some, if◌then◌else◌, arith,
}
use otus_c_2025_3_kushko.Common.Text.{codes, same_text}
use otus_c_2025_3_kushko.DirView.{
  directory, regular, Dirent, Row, add_entry, add_entries, fill_file_list_into_tree_view,
  create_dir_content_view, handle_command_line,
}
use otus_c_2025_3_kushko.DirView.Walk.{
  Content, end, file, opened, closed, entries, paths, row_paths, create_dir_content_view_lem,
}

abbrev sub_content : Content
sub_content =
    file (record { d_name = codes ".."; d_type = directory })
      (file (record { d_name = codes "inner"; d_type = regular }) end)

abbrev content : Content
content =
    file (record { d_name = codes "."; d_type = directory })
      (opened (codes "sub") sub_content (
        file (record { d_name = codes "ab"; d_type = regular })
          (closed (codes "root") (file (record { d_name = codes "file"; d_type = regular }) end))))

abbrev two_directories : List ℕ → Option (List Dirent)
two_directories path =
    if same_text path (codes ".")
    then some (entries content)
    else if same_text path (codes "./sub")
    then some (entries sub_content)
    else none

abbrev rows : List Row
rows =
    record { parent = none; text = codes "sub" }
    ∷ record { parent = some 0; text = codes "inner" }
    ∷ record { parent = none; text = codes "root" }
    ∷ record { parent = none; text = codes "file" }
    ∷ []

handle_command_line-default : handle_command_line two_directories 2 [] ≡ some rows
unfolding handle_command_line create_dir_content_view fill_file_list_into_tree_view add_entries
    add_entry
handle_command_line-default = refl

create_dir_content_view_lem_example :
    (found : List Row) × (create_dir_content_view two_directories 2 (codes ".") ≡ some found)
    × (row_paths (codes ".") [] found ≡ paths (codes ".") content)
create_dir_content_view_lem_example =
    create_dir_content_view_lem two_directories (codes ".") content 2 refl
      (refl, (omega arith, refl, (refl, (refl, tt)), (refl, (omega arith, refl, (refl, tt)))))
      (omega arith)
