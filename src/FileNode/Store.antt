-- ===== src/FileNode/Store.antt =====
-- The local files of a node, its data ports, and the commands and requests that it serves. A file's
-- content stands under its name in the directory files/, and under its path outside of it.
pub mod Table
use cranesps.Base.{
  string_key, ℕ, zero, suc, ◌+◌, ◌%◌, String, Bool, true, false, not, Option, none, some, List, [],
  ◌∷◌, ◌++◌, map, length, ◌==◌, if◌then◌else◌,
}
use cranesps.Base.Text.{str_eq}
use cranesps.Base.StdMap.{lookup, set, erase, at_or}
use cranesps.FileMaster.Files.{FileInfo, new_file_info, has_name}
use cranesps.FileMaster.Replicate.{Command, replicate, delete, list}

pub record FileNode : Type 0 where
  pub id : String
  pub infos : List FileInfo  -- `fileMap[id]`
  pub files : List (String × List ℕ)
  pub outside : List (String × List ℕ)
  pub file_path_buf : List (String × String)
  pub dynamic_port : ℕ

abbrev pub dynamic_port_base : ℕ
dynamic_port_base = 9601

abbrev pub dynamic_port_max : ℕ
dynamic_port_max = 9800

unfoldable pub next_port : FileNode → ℕ × FileNode
next_port node =
    if node.dynamic_port == dynamic_port_max
    then (node.dynamic_port, record node { dynamic_port = dynamic_port_base })
    else (node.dynamic_port, record node { dynamic_port = suc node.dynamic_port })

abbrev pub check_file_available : String → FileNode → Bool
check_file_available filename node = not (has_name filename node.infos)

-- `FileHelper::getSize`: -1, as a 64-bit number, for a file that is not there.
abbrev pub size_of : Option (List ℕ) → ℕ
size_of none = 18446744073709551615
size_of (some content) = length content

module _ (md5 : Option (List ℕ) → String) where
  -- `md5` is the program md5sum, or the empty text for a file that is not there.
  unfoldable pub add_to_local_file_map : String → FileNode → FileNode
  add_to_local_file_map filename node =
      let content = lookup filename node.files in
      let fi = new_file_info filename (md5 content) (size_of content) in
      if not (check_file_available filename node)
      then node
      else record node { infos = node.infos ++ fi ∷ [] }

  -- A source that is not there is copied as an empty file.
  unfoldable pub copy_buffered_file : String → FileNode → FileNode
  copy_buffered_file filename node =
      let path = at_or filename "" node.file_path_buf in
      add_to_local_file_map filename
        (record node { files = set filename (at_or path [] node.outside) node.files })

  -- The end of `fetchClientThread`: the file is listed, or moved to its path.
  unfoldable pub finish_fetch : String → String → FileNode → FileNode
  finish_fetch filename path node =
      let moved = record node {
        files = erase filename node.files;
        outside = set path (at_or filename [] node.files) node.outside;
      } in
      if str_eq path "" then add_to_local_file_map filename node else moved

unfoldable pub erase_info : String → List FileInfo → List FileInfo
erase_info filename [] = []
erase_info filename (fi ∷ infos) =
    let rest = erase_info filename infos in if str_eq fi.name filename then infos else fi ∷ rest

unfoldable pub delete_local_file : String → FileNode → FileNode
delete_local_file filename node =
    if has_name filename node.infos
    then record node { infos = erase_info filename node.infos; files = erase filename node.files }
    else node

-- What a node sends: the request to send a file, by target, name and path; the list of its files.
pub data NodeReply : Type 0 where
  replicated deleted : NodeReply
  listed : List FileInfo → NodeReply

-- What a command does, with the file requests that it sends and the reply.
unfoldable pub run_command :
    Command → FileNode → FileNode × List (String × String × String) × NodeReply
run_command (replicate source targets filename path) node =
    (node, map (λ t. (t, filename, path)) targets, replicated)
run_command (delete target filename) node = (delete_local_file filename node, [], deleted)
run_command (list target) node = (node, [], listed node.infos)

-- A command that does not come from the leader is dropped without a reply.
unfoldable pub process_command :
    String
    → String
    → Command
    → FileNode
    → FileNode × List (String × String × String) × Option NodeReply
process_command leader sender command node =
    let (after, sends, reply) = run_command command node in
    if not (str_eq leader sender) then (node, [], none) else (after, sends, some reply)

-- A request to take a file: whether it is approved, and the fetching is started.
abbrev pub process_send_request : String → FileNode → Bool
process_send_request filename node = check_file_available filename node
