-- ===== src/FileMaster/Requests/Leader.antt =====
-- What a new leader knows of the files.
use cranesps.Base.{
  ◌||◌, ◌&&◌, not, length, ◌==◌, string_key, ℕ, String, ◌≡◌, refl, ap, inl, inr, List, [], ◌∷◌,
  arith, any, map, if◌then◌else◌, Bool-cases,
}
use cranesps.Base.Text.{str_eq, str_eq_iff}
use cranesps.FileMaster.Files.{FileMap, new_file_info, has_name, has_file}
use cranesps.FileMaster.Files.Laws.{has_file_exact}
use cranesps.FileMaster.Requests.{Draws, process_list_reply, collect_lists, take_over}

has_name-reply :
    (g : String) (infos : List (String × String × ℕ))
    → has_name g (map (λ i. new_file_info i.0 i.1 i.2) infos) ≡ any (λ i. str_eq i.0 g) infos
has_name-reply g [] = refl
has_name-reply g (i ∷ infos) = ap (λ r. str_eq i.0 g || r) (has_name-reply g infos)

has_file-process_list_reply :
    (m j g : String) (infos : List (String × String × ℕ)) (fm : FileMap)
    → has_file j g (process_list_reply m infos fm) ≡ (
        if str_eq m j && not (length infos == 0)
        then any (λ i. str_eq i.0 g) infos
        else has_file j g fm)
has_file-process_list_reply m j g [] fm = ground arith
has_file-process_list_reply m j g (i ∷ infos) fm =
    let reply = map (λ i. new_file_info i.0 i.1 i.2) (i ∷ infos) in
    let updated = (has_file_exact m j g g (new_file_info g "" 0) reply fm).0 in
    ground (arith, updated, has_name-reply g (i ∷ infos))

has_file-collect_lists :
    (infos : String → List (String × String × ℕ)) (members : List String) (j g : String)
    (fm : FileMap)
    → has_file j g (collect_lists infos members fm) ≡ (
        if any (λ m. str_eq m j) members && not (length (infos j) == 0)
        then any (λ i. str_eq i.0 g) (infos j)
        else has_file j g fm)
unfolding collect_lists
has_file-collect_lists infos [] j g fm = refl
has_file-collect_lists infos (m ∷ members) j g fm =
    let one = has_file-process_list_reply m j g (infos m) fm in
    let rest = has_file-collect_lists infos members j g (process_list_reply m (infos m) fm) in
    elim (Bool-cases (str_eq m j)) [
      | inl e ↦
          let same : any (λ i. str_eq i.0 g) (infos m) ≡ any (λ i. str_eq i.0 g) (infos j) =
            ap (λ x. any (λ i. str_eq i.0 g) (infos x)) ((str_eq_iff m j).0 e) in
          let as_long = ap (λ x. length (infos x)) ((str_eq_iff m j).0 e) in
          ground (arith, e, rest, one, same, as_long)
      | inr e ↦ ground (arith, e, rest, one)
    ]

-- After a take-over the leader has of every member that replied some file exactly the files that the
-- member replied; of a member that replied none, and of the other nodes, it has what it had.
pub take_over_exact :
    (draws : String → Draws) (infos : String → List (String × String × ℕ)) (members : List String)
    (j g : String) (fm : FileMap)
    → has_file j g (take_over draws infos members fm).0 ≡ (
        if any (λ m. str_eq m j) members && not (length (infos j) == 0)
        then any (λ i. str_eq i.0 g) (infos j)
        else has_file j g fm)
unfolding take_over
take_over_exact draws infos members j g fm = has_file-collect_lists infos members j g fm
