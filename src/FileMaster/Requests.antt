-- ===== src/FileMaster/Requests.antt =====
-- The requests that the master serves (`DFileMessageHandler::process` on a `ServiceRequest` and on
-- a `CommandReply`), and what it does when a node fails or when it becomes the leader.
pub mod Laws
pub mod Serve
pub mod Restore
pub mod Leader
use cranesps.Base.{
  string_key, ℕ, String, Bool, true, false, not, Option, none, some, List, [], ◌∷◌, ◌++◌, filter,
  ◌==◌, if◌then◌else◌, map,
}
use cranesps.Base.StdSet.{insert}
use cranesps.Base.StdMap.{at_or}
use cranesps.FileMaster.Files.{
  FileInfo, FileMap, new_file_info, has_file, count_replicates, update_file_map, add_to_file_map,
  delete_from_file_map, clear_files,
}
use cranesps.FileMaster.Replicate.{Command, replicate, delete, list, replicate_file}

-- protocol/dfile.proto. A name comes first, then the md5 and the size, or the path.
pub data ServiceRequest : Type 0 where
  put update : String → String → ℕ → ServiceRequest
  get : String → String → ServiceRequest
  del lst : String → ServiceRequest

pub data ServiceReply : Type 0 where
  put_reply : Bool → Option String → ServiceReply
  get_reply : Bool → ServiceReply
  delete_reply : Bool → String → ServiceReply
  update_reply : ServiceReply
  list_reply : List String → ServiceReply

-- What a request does: the map, the reply, which is sent before any command, and the commands, or
-- `none` where the call of `replicateFile` does not return.
pub record Effect : Type 0 where
  pub file_map : FileMap
  pub reply : ServiceReply
  pub commands : Option (List Command)

-- The rounds and the random numbers of one call of `replicateFile`.
pub record Draws : Type 0 where
  pub fuel : ℕ
  pub source_fuel : ℕ
  pub rand : ℕ → ℕ

unfoldable pub first_holder : String → List String → FileMap → Option String
first_holder filename [] fm = none
first_holder filename (m ∷ members) fm =
    let rest = first_holder filename members fm in if has_file m filename fm then some m else rest

abbrev pub delete_each : String → List String → FileMap → FileMap
delete_each filename [] fm = fm
delete_each filename (target ∷ targets) fm =
    delete_each filename targets (delete_from_file_map target filename fm)

-- `deleteFile`: the new map and the commands.
unfoldable pub delete_file : List String → String → FileMap → FileMap × List Command
delete_file members filename fm =
    let targets = filter (λ m. has_file m filename fm) members in
    (delete_each filename targets fm, map (λ t. delete t filename) targets)

-- A request of node `id`.
unfoldable pub process_service : Draws → List String → String → ServiceRequest → FileMap → Effect
process_service draws members id (put name md5 size) fm =
    let approve = count_replicates name fm == 0 in
    let added = add_to_file_map id (new_file_info name md5 size) fm in
    if approve
    then record {
      file_map = added;
      reply = put_reply true (some name);
      commands = replicate_file draws.fuel draws.source_fuel draws.rand members name added;
    }
    else record { file_map = fm; reply = put_reply false none; commands = some [] }
process_service draws members id (update name md5 size) fm = record {
  file_map = add_to_file_map id (new_file_info name md5 size) fm;
  reply = update_reply;
  commands = some [];
}
process_service draws members id (get name path) fm =
    let available = not (count_replicates name fm == 0) in
    record {
      file_map = fm;
      reply = get_reply available;
      commands =
          if available
          then elim (first_holder name members fm) [
            | none ↦ some []
            | some m ↦ some (replicate m (id ∷ []) name path ∷ [])
          ]
          else some [];
    }
process_service draws members id (del name) fm =
    let available = not (count_replicates name fm == 0) in
    let (deleted, commands) = if available then delete_file members name fm else (fm, []) in
    record { file_map = deleted; reply = delete_reply available name; commands = some commands }
process_service draws members id (lst name) fm = record {
  file_map = fm;
  reply = list_reply (filter (λ m. has_file m name fm) members);
  commands = some [];
}

-- The reply to a list command replaces what is known of its sender. A node without files replies
-- without a list, and then nothing is replaced.
abbrev pub process_list_reply : String → List (String × String × ℕ) → FileMap → FileMap
process_list_reply sender [] fm = fm
process_list_reply sender (i ∷ infos) fm =
    update_file_map sender (map (λ i. new_file_info i.0 i.1 i.2) (i ∷ infos)) fm

abbrev pub insert_names : List FileInfo → List String → List String
insert_names [] files = files
insert_names (fi ∷ infos) files = insert_names infos (insert fi.name files)

-- The set of the files that the members have.
unfoldable pub member_files : List String → FileMap → List String → List String
member_files [] fm files = files
member_files (m ∷ members) fm files = member_files members fm (insert_names (at_or m [] fm) files)

-- The loop of `reReplicate`; each file has its own random numbers.
unfoldable pub replicate_all :
    (String → Draws) → List String → List String → FileMap → Option (List Command)
replicate_all draws members [] fm = some []
replicate_all draws members (file ∷ files) fm =
    elim (replicate_file (draws file).fuel (draws file).source_fuel (draws file).rand members file
      fm) [
        | none ↦ none
        | some commands ↦ elim (replicate_all draws members files fm) [
          | none ↦ none
          | some more ↦ some (commands ++ more)
        ]
      ]

unfoldable pub re_replicate : (String → Draws) → List String → FileMap → Option (List Command)
re_replicate draws members fm = replicate_all draws members (member_files members fm []) fm

unfoldable pub handle_node_fail :
    (String → Draws) → List String → String → FileMap → FileMap × Option (List Command)
handle_node_fail draws members id fm =
    let cleared = clear_files id fm in (cleared, re_replicate draws members cleared)

-- The replies of the members to the list commands of a new leader.
unfoldable pub collect_lists :
    (String → List (String × String × ℕ)) → List String → FileMap → FileMap
collect_lists infos [] fm = fm
collect_lists infos (m ∷ members) fm =
    collect_lists infos members (process_list_reply m (infos m) fm)

-- `DFileMaster::start`, when the own node is elected: the list commands, and then the replication.
unfoldable pub take_over :
    (String → Draws)
    → (String → List (String × String × ℕ))
    → List String
    → FileMap
    → FileMap × List Command × Option (List Command)
take_over draws infos members fm =
    let collected = collect_lists infos members fm in
    (collected, map list members, re_replicate draws members collected)
