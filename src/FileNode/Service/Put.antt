-- ===== src/FileNode/Service/Put.antt =====
-- A put from the request of a node to its own copy.
use cranesps.Base.{
  string_key, ℕ, String, ◌≡◌, refl, sym, ap, ◌∙◌, true, false, Option, some, List, [], ◌∷◌, ◌++◌,
  length, arith,
}
use cranesps.Base.Text.{str_eq}
use cranesps.Base.StdMap.{lookup, set, lookup-set_self}
use cranesps.Base.StdMap.Order.{IsSorted}
use cranesps.Base.StdSet.{member, IsRising}
use cranesps.FileMaster.Files.{
  FileInfo, FileMap, new_file_info, has_name, count_replicates, add_to_file_map,
}
use cranesps.FileMaster.Replicate.{Command}
use cranesps.FileMaster.Replicate.Targets.{Fair}
use cranesps.FileMaster.Requests.{ServiceRequest, put, Draws, Effect, process_service}
use cranesps.FileMaster.Requests.Restore.{Restores, put_total}
use cranesps.FileNode.Store.{FileNode, copy_buffered_file, add_to_local_file_map}
use cranesps.FileNode.Service.{send_put_request, process_service_reply}

-- What an approved put does to the map of the master.
put-file_map :
    (draws : Draws) (members : List String) (id name md5 : String) (size : ℕ) (fm : FileMap)
    → (e : Effect) → count_replicates name fm ≡ 0
    → process_service draws members id (put name md5 size) fm ≡ e
    → e.file_map ≡ add_to_file_map id (new_file_info name md5 size) fm
unfolding process_service
put-file_map draws members id name md5 size fm e z run =
    sym (ap (λ (x : Effect). x.file_map) run) ∙ rw z refl

module _ (md5 : Option (List ℕ) → String) where
  -- What the approval does on the node that asked.
  copy_buffered_file_lem :
      (name path : String) (content : List ℕ) (node : FileNode)
      → lookup path node.outside ≡ some content
      → has_name name node.infos ≡ false
      → let after =
          copy_buffered_file md5 name
            (record node { file_path_buf = set name path node.file_path_buf }) in
        (after.infos ≡ node.infos ++ new_file_info name (md5 (some content)) (length content) ∷ [])
        × (lookup name after.files ≡ some content)
  unfolding copy_buffered_file add_to_local_file_map
  copy_buffered_file_lem name path content node there fresh = ground (
    arith,
    there,
    fresh,
    lookup-set_self name path node.file_path_buf,
    lookup-set_self name content node.files,
  )

  -- A put of a file that no member has, from a member that knows the leader and does not list the
  -- name: the request is served and approved, on the reply the node stores the content of the file
  -- under its name, the master and the node list the same record of it, and the commands bring it
  -- to its number of replicas.
  pub put_agrees :
      (base_name : String → String) (leader path : String) (content : List ℕ) (node : FileNode)
      → (rand : ℕ → ℕ) (members : List String) (fm : FileMap) → str_eq leader "" ≡ false
      → lookup path node.outside ≡ some content
      → has_name (base_name path) node.infos ≡ false
      → Fair rand (length members)
      → IsSorted fm
      → IsRising members
      → member node.id members ≡ true
      → count_replicates (base_name path) fm ≡ 0
      → let (after, sent) = send_put_request md5 base_name leader path node in
        (request : ServiceRequest) × (fuel : ℕ) × (source_fuel : ℕ) × (e : Effect)
        × (commands : List Command) × (fi : FileInfo) × (sent ≡ some request)
        × (process_service
              (record { fuel = fuel; source_fuel = source_fuel; rand = rand })
              members
              node.id
              request
              fm
            ≡ e)
        × (e.commands ≡ some commands)
        × (fi.name ≡ base_name path)
        × (e.file_map ≡ add_to_file_map node.id fi fm)
        × ((process_service_reply md5 e.reply after).infos ≡ node.infos ++ fi ∷ [])
        × (lookup (base_name path) (process_service_reply md5 e.reply after).files ≡ some content)
        × Restores (base_name path) e.file_map members commands
  unfolding send_put_request process_service_reply
  put_agrees base_name leader path content node rand members fm known there fresh fair s r m z =
      let name = base_name path in
      let fi = new_file_info name (md5 (some content)) (length content) in
      let (fuel, source_fuel, e, commands, run, returns, reply, _, restored) =
        put_total rand members node.id name (md5 (some content)) (length content) fm fair s r m z in
      let draws : Draws = record { fuel = fuel; source_fuel = source_fuel; rand = rand } in
      let added =
        put-file_map draws members node.id name (md5 (some content)) (length content) fm e z run in
      let (infos, stored) = copy_buffered_file_lem name path content node there fresh in
      (
        put name (md5 (some content)) (length content),
        fuel,
        source_fuel,
        e,
        commands,
        fi,
        rw (known, there) refl,
        run,
        returns,
        refl,
        added,
        rw (known, reply) infos,
        rw (known, reply) stored,
        restored,
      )
