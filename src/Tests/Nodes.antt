-- ===== src/Tests/Nodes.antt =====
-- A node of the file system with one file.
use cranesps.Base.{string_key, ℕ, String, ◌≡◌, refl, true, false, Option, List, [], ◌∷◌}
use cranesps.FileMaster.Files.{new_file_info, has_name}
use cranesps.FileNode.Store.{
  FileNode, add_to_local_file_map, copy_buffered_file, finish_fetch, delete_local_file,
}
use cranesps.FileNode.Store.Table.{IsDistinct, local_table_exact}

abbrev node : FileNode
node = record {
  id = "a";
  infos = new_file_info "f" "m" 1 ∷ [];
  files = ("f", 1 ∷ []) ∷ [];
  outside = ("p", 2 ∷ 3 ∷ []) ∷ [];
  file_path_buf = ("g", "p") ∷ [];
  dynamic_port = 9799;
}

abbrev no_md5 : Option (List ℕ) → String
no_md5 content = "m"

local_table_exact_example :
    (IsDistinct (add_to_local_file_map no_md5 "g" node).infos
      × (has_name "g" (add_to_local_file_map no_md5 "g" node).infos ≡ true))
    × (IsDistinct (copy_buffered_file no_md5 "g" node).infos
        × (has_name "g" (copy_buffered_file no_md5 "g" node).infos ≡ true))
    × (IsDistinct (finish_fetch no_md5 "g" "q" node).infos
        × (has_name "g" (finish_fetch no_md5 "g" "q" node).infos ≡ false))
    × (IsDistinct (delete_local_file "g" node).infos
        × (has_name "g" (delete_local_file "g" node).infos ≡ false))
local_table_exact_example = local_table_exact no_md5 "g" "g" "q" node (refl, tt)
