-- ===== src/FileMaster/Requests/Laws.antt =====
-- What the requests of the clients do: to the file map, to the reply and to the commands.
use cranesps.Base.{
  string_key, String, ◌≡◌, refl, ap, ◌⊎◌, inl, inr, Bool, true, false, not, ◌&&◌, ◌||◌, none, some,
  List, [], ◌∷◌, arith, filter, any, map, Bool-cases,
}
use cranesps.Base.Text.{str_eq, str_eq_iff}
use cranesps.FileMaster.Files.{
  FileInfo, FileMap, new_file_info, has_file, delete_from_file_map, add_to_file_map,
}
use cranesps.FileMaster.Files.Laws.{has_file_exact}
use cranesps.FileMaster.Replicate.{delete}
use cranesps.FileMaster.Requests.{delete_each, delete_file, first_holder}

has_file-delete :
    (id j f g : String) (fm : FileMap)
    → has_file j g (delete_from_file_map id f fm)
      ≡ (has_file j g fm && not (str_eq id j && str_eq f g))
has_file-delete id j f g fm = (has_file_exact id j f g (new_file_info f "" 0) [] fm).2

pub has_file-add :
    (id j g : String) (fi : FileInfo) (fm : FileMap)
    → has_file j g (add_to_file_map id fi fm)
      ≡ (has_file j g fm || (str_eq id j && str_eq fi.name g))
has_file-add id j g fi fm = (has_file_exact id j g g fi [] fm).1

has_file-delete_each :
    (j f g : String) (ts : List String) (fm : FileMap)
    → has_file j g (delete_each f ts fm)
      ≡ (has_file j g fm && not (str_eq f g && any (λ t. str_eq t j) ts))
has_file-delete_each j f g [] fm = ground arith
has_file-delete_each j f g (t ∷ ts) fm =
    ground (
      arith,
      has_file-delete t j f g fm,
      has_file-delete_each j f g ts (delete_from_file_map t f fm),
    )

any-filter :
    (j : String) (p : String → Bool) (ms : List String)
    → any (λ t. str_eq t j) (filter p ms) ≡ (any (λ m. str_eq m j) ms && p j)
any-filter j p [] = refl
any-filter j p (m ∷ ms) = elim (Bool-cases (str_eq m j)) [
  | inl e ↦
      let same = (str_eq_iff m j).0 e in
      let px : p m ≡ p j = ap p same in ground (arith, any-filter j p ms)
  | inr e ↦ ground (arith, any-filter j p ms)
]

-- `deleteFile` takes the file from every member, keeps every other pair of a node and a file, and
-- sends one command to each member that had it, in the order of the list.
pub delete_file_exact :
    (members : List String) (f j g : String) (fm : FileMap)
    → (has_file j g (delete_file members f fm).0
        ≡ (has_file j g fm && not (str_eq f g && any (λ m. str_eq m j) members)))
      × ((delete_file members f fm).1
          ≡ map (λ t. delete t f) (filter (λ m. has_file m f fm) members))
unfolding delete_file
delete_file_exact members f j g fm = (
  elim (Bool-cases (str_eq f g)) [
    | inl e ↦
        let same = (str_eq_iff f g).0 e in
        let gone : has_file j f fm ≡ has_file j g fm = ap (λ x. has_file j x fm) same in
        ground (
          arith,
          has_file-delete_each j f g (filter (λ m. has_file m f fm) members) fm,
          any-filter j (λ m. has_file m f fm) members,
        )
    | inr e ↦ ground (arith, has_file-delete_each j f g (filter (λ m. has_file m f fm) members) fm)
  ],
  refl,
)

-- The first member with a file, if there is one.
pub first_holder_lem :
    (f : String) (members : List String) (fm : FileMap)
    → ((first_holder f members fm ≡ none) × (any (λ m. has_file m f fm) members ≡ false))
      ⊎ ((m : String) × (first_holder f members fm ≡ some m)
          × (has_file m f fm ≡ true)
          × (any (λ x. str_eq x m) members ≡ true))
unfolding first_holder
first_holder_lem f [] fm = inl (refl, refl)
first_holder_lem f (m ∷ ms) fm = elim (Bool-cases (has_file m f fm)) [
  | inl e ↦ inr (m, ground arith, e, ground (arith, str_eq_iff m m))
  | inr e ↦ elim (first_holder_lem f ms fm) [
    | inl (n, a) ↦ inl (ground arith, ground arith)
    | inr (h, s, own, in_list) ↦ inr (h, ground arith, own, ground arith)
  ]
]
