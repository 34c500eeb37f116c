-- ===== src/FileMaster/Files.antt =====
-- The file map: which files each node has. A read through `operator[]` makes an empty list for a
-- node that is missing; no operation tells such a node from a missing one, so a read leaves the
-- map as it is here.
pub mod Laws
use cranesps.Base.{
  string_key, ℕ, suc, ◌%◌, String, Bool, true, false, not, List, [], ◌∷◌, ◌++◌, filter, any,
  if◌then◌else◌,
}
use cranesps.Base.Text.{str_eq}
use cranesps.Base.StdMap.{lookup, set, at_or}

-- `FileInfo` of utils/Types.h.
pub record FileInfo : Type 0 where
  pub name : String
  pub md5 : String
  pub size : ℕ

-- The constructor narrows the size to an `int`.
abbrev pub new_file_info : String → String → ℕ → FileInfo
new_file_info name md5 size = record { name = name; md5 = md5; size = size % 4294967296 }

abbrev pub FileMap : Type 0
FileMap = List (String × List FileInfo)

abbrev pub has_name : String → List FileInfo → Bool
has_name filename = any (λ (fi : FileInfo). str_eq fi.name filename)

unfoldable pub count_replicates : String → FileMap → ℕ
count_replicates filename [] = 0
count_replicates filename ((id, infos) ∷ rest) =
    let others = count_replicates filename rest in
    if has_name filename infos then suc others else others

unfoldable pub has_file : String → String → FileMap → Bool
has_file id filename fm = has_name filename (at_or id [] fm)

unfoldable pub update_file_map : String → List FileInfo → FileMap → FileMap
update_file_map id infos fm = set id infos fm

unfoldable pub add_to_file_map : String → FileInfo → FileMap → FileMap
add_to_file_map id fi fm =
    if has_file id fi.name fm then fm else set id (at_or id [] fm ++ fi ∷ []) fm

unfoldable pub delete_from_file_map : String → String → FileMap → FileMap
delete_from_file_map id filename fm =
    set id (filter (λ (fi : FileInfo). not (str_eq fi.name filename)) (at_or id [] fm)) fm

-- `fileMap[id].clear()`, when the node has failed.
unfoldable pub clear_files : String → FileMap → FileMap
clear_files id fm = set id [] fm
