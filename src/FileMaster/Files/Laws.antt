-- ===== src/FileMaster/Files/Laws.antt =====
-- What the operations on the file map do to the question whether a node has a file.
use cranesps.Base.{
  string_key, String, ◌≡◌, refl, not, ◌||◌, ◌&&◌, List, [], ◌∷◌, ◌++◌, arith, filter, any,
  if◌then◌else◌, length,
}
use cranesps.Base.Text.{str_eq, str_eq_iff}
use cranesps.Base.StdMap.{lookup, at_or, lookup-set}
use cranesps.Base.StdMap.Order.{IsSorted, lookup-Above}
use cranesps.FileMaster.Files.{
  FileInfo, FileMap, has_name, has_file, update_file_map, add_to_file_map, delete_from_file_map,
  clear_files, count_replicates,
}

pub has_name-append :
    (g : String) (xs : List FileInfo) (fi : FileInfo)
    → has_name g (xs ++ fi ∷ []) ≡ (has_name g xs || str_eq fi.name g)
has_name-append g [] fi = ground arith
has_name-append g (x ∷ xs) fi = ground (arith, has_name-append g xs fi)

pub has_name-delete :
    (f g : String) (xs : List FileInfo)
    → has_name g (filter (λ (fi : FileInfo). not (str_eq fi.name f)) xs)
      ≡ (not (str_eq f g) && has_name g xs)
has_name-delete f g [] = ground arith
has_name-delete f g (x ∷ xs) =
    ground (arith, str_eq_iff x.name f, str_eq_iff x.name g, str_eq_iff f g, has_name-delete f g xs)

-- Whether node `j` is listed with file `g` after each operation of the file map: an update replaces
-- the list of its node, an addition adds its own pair, a deletion takes its own pair away, and a
-- failed node loses all; no other pair changes.
pub has_file_exact :
    (id j f g : String) (fi : FileInfo) (infos : List FileInfo) (fm : FileMap)
    → (has_file j g (update_file_map id infos fm)
        ≡ (if str_eq id j then has_name g infos else has_file j g fm))
      × (has_file j g (add_to_file_map id fi fm)
          ≡ (has_file j g fm || (str_eq id j && str_eq fi.name g)))
      × (has_file j g (delete_from_file_map id f fm)
          ≡ (has_file j g fm && not (str_eq id j && str_eq f g)))
      × (has_file j g (clear_files id fm) ≡ (has_file j g fm && not (str_eq id j)))
unfolding has_file update_file_map add_to_file_map delete_from_file_map clear_files
has_file_exact id j f g fi infos fm = (
  ground (arith, lookup-set id j infos fm),
  ground (
    arith,
    str_eq_iff id j,
    str_eq_iff fi.name g,
    lookup-set id j (at_or id [] fm ++ fi ∷ []) fm,
    has_name-append g (at_or id [] fm) fi,
  ),
  ground (
    arith,
    str_eq_iff id j,
    lookup-set id j (filter (λ (fi : FileInfo). not (str_eq fi.name f)) (at_or id [] fm)) fm,
    has_name-delete f g (at_or id [] fm),
  ),
  ground (arith, lookup-set {V = List FileInfo} id j [] fm),
)

-- The nodes that have a file, by the map alone.
abbrev pub holders : String → FileMap → List String
holders f [] = []
holders f ((id, infos) ∷ rest) =
    let others = holders f rest in if has_name f infos then id ∷ others else others

pub count_replicates-holders :
    (f : String) (fm : FileMap) → count_replicates f fm ≡ length (holders f fm)
unfolding count_replicates
count_replicates-holders f [] = refl
count_replicates-holders f ((id, infos) ∷ rest) = ground (arith, count_replicates-holders f rest)

pub any-holders :
    (f j : String) (fm : FileMap)
    → IsSorted fm
    → any (λ k. str_eq k j) (holders f fm) ≡ has_file j f fm
unfolding has_file lookup
any-holders f j [] s = refl
any-holders f j ((id, infos) ∷ rest) s =
    ground (arith, str_eq_iff id j, any-holders f j rest s.1, lookup-Above id rest s.0)
