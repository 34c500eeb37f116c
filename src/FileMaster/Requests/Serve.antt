-- ===== src/FileMaster/Requests/Serve.antt =====
-- The replies and the commands of the requests, and what they leave in the file map.
use cranesps.Base.{
  string_key, String, ◌≡◌, refl, ap, ◌⊎◌, inl, inr, Bool, true, false, not, ◌&&◌, ◌||◌, some, List,
  [], ◌∷◌, arith, any, ◌==◌, Bool-cases, length,
}
use cranesps.Base.Text.{str_eq}
use cranesps.FileMaster.Files.{FileMap, new_file_info, has_file, count_replicates}
use cranesps.FileMaster.Files.Laws.{holders, count_replicates-holders}
use cranesps.FileMaster.Replicate.{replicate}
use cranesps.FileMaster.Requests.{
  Draws, ServiceRequest, put, update, get, del, lst, get_reply, process_service,
}
use cranesps.FileMaster.Requests.Laws.{delete_file_exact, first_holder_lem, has_file-add}

-- Whether a request is the one that makes node `j` have file `g`, or that takes it away.
abbrev pub gives : String → ServiceRequest → Bool → String → String → Bool
gives id (put name md5 size) free j g = free && str_eq id j && str_eq name g
gives id (update name md5 size) free j g = str_eq id j && str_eq name g
gives id (get name path) free j g = false
gives id (del name) free j g = false
gives id (lst name) free j g = false

abbrev pub takes : List String → ServiceRequest → String → String → Bool
takes members (put name md5 size) j g = false
takes members (update name md5 size) j g = false
takes members (get name path) j g = false
takes members (del name) j g = str_eq name g && any (λ m. str_eq m j) members
takes members (lst name) j g = false

abbrev pub name_of : ServiceRequest → String
name_of (put name md5 size) = name
name_of (update name md5 size) = name
name_of (get name path) = name
name_of (del name) = name
name_of (lst name) = name

-- Any request, of any kind and from any node, whether `replicateFile` returns or not: node `j` has file `g` after it if it
-- had it and the request is not a deletion of `g`, while some node has `g`, with `j` among the
-- members, or if the request is an update of `g` by `j`, or a put of `g` by `j` while no node has
-- `g`.
pub served_exact :
    (draws : Draws) (members : List String) (id : String) (request : ServiceRequest) (fm : FileMap)
    (j g : String)
    → has_file j g (process_service draws members id request fm).file_map ≡ (
        (has_file j g fm
          && not (takes members request j g && not (count_replicates (name_of request) fm == 0)))
        || gives id request (count_replicates (name_of request) fm == 0) j g)
unfolding process_service
served_exact draws members id (put name md5 size) fm j g =
    ground (arith, has_file-add id j g (new_file_info name md5 size) fm)
served_exact draws members id (update name md5 size) fm j g =
    ground (arith, has_file-add id j g (new_file_info name md5 size) fm)
served_exact draws members id (get name path) fm j g = ground arith
served_exact draws members id (del name) fm j g =
    ground (arith, delete_file_exact members name j g fm)
served_exact draws members id (lst name) fm j g = ground arith

-- A get never changes the file map. It says that the file is there exactly when some node on the
-- map has it; then, if a member has it, the one command makes such a member send the file to the
-- node that asked, under the path that it gave, and if only nodes outside the list have it there
-- is no command.
pub get_exact :
    (draws : Draws) (members : List String) (id name path : String) (fm : FileMap)
    → let e = process_service draws members id (get name path) fm in
      (e.file_map ≡ fm)
      × (e.reply ≡ get_reply (not (length (holders name fm) == 0)))
      × (((e.commands ≡ some [])
            × ((holders name fm ≡ []) ⊎ (any (λ m. has_file m name fm) members ≡ false)))
          ⊎ ((m : String) × (e.commands ≡ some (replicate m (id ∷ []) name path ∷ []))
              × (has_file m name fm ≡ true)
              × (any (λ x. str_eq x m) members ≡ true)))
unfolding process_service
get_exact draws members id name path fm = (
  refl,
  ap (λ n. get_reply (not (n == 0))) (count_replicates-holders name fm),
  elim (Bool-cases (count_replicates name fm == 0)) [
    | inl e ↦ inl (ground arith, inl (ground (arith, count_replicates-holders name fm)))
    | inr e ↦ elim (first_holder_lem name members fm) [
      | inl (n, a) ↦ inl (ground arith, inr a)
      | inr (m, s, own, listed) ↦ inr (m, ground arith, own, listed)
    ]
  ],
)
