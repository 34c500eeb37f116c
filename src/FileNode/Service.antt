-- ===== src/FileNode/Service.antt =====
-- The requests that a node sends: to the master, with the handler of its replies
-- (`DFileMessageHandler::process` on a `ServiceReply`), and to another node, to send it a file.
pub mod Put
pub mod Copies
use cranesps.Base.{
  string_key, ℕ, zero, suc, ◌+◌, String, Bool, true, false, not, Option, none, some, List, [], ◌∷◌,
  length, if◌then◌else◌,
}
use cranesps.Base.Text.{str_eq}
use cranesps.Base.StdMap.{lookup, set, at_or, get_or}
use cranesps.FileMaster.Files.{FileInfo, new_file_info, has_name}
use cranesps.FileMaster.Requests.{
  ServiceRequest, put, update, get, del, lst, ServiceReply, put_reply, get_reply, delete_reply,
  update_reply, list_reply,
}
use cranesps.FileNode.Store.{
  FileNode, next_port, check_file_available, size_of, copy_buffered_file, finish_fetch,
}

-- A request to the leader: where none is known, there is none, and nothing is done.
abbrev to_leader : String → FileNode → FileNode → ServiceRequest → FileNode × Option ServiceRequest
to_leader leader node after request =
    if str_eq leader "" then (node, none) else (after, some request)

unfoldable pub send_delete_request : String → String → FileNode → FileNode × Option ServiceRequest
send_delete_request leader filename node = to_leader leader node node (del filename)

unfoldable pub send_update_request : String → FileInfo → FileNode → FileNode × Option ServiceRequest
send_update_request leader fi node = to_leader leader node node (update fi.name fi.md5 fi.size)

unfoldable pub send_list_request : String → String → FileNode → FileNode × Option ServiceRequest
send_list_request leader filename node = to_leader leader node node (lst filename)

-- A file that the node has is copied; for another one an empty file stands at the path meanwhile.
unfoldable pub send_get_request :
    String → String → String → FileNode → FileNode × Option ServiceRequest
send_get_request leader filename filepath node = elim (lookup filepath node.outside) [
  | some _ ↦ (node, none)
  | none ↦
      let touched : FileNode = record node { outside = set filepath [] node.outside } in
      let copied : FileNode = record node {
        outside = set filepath (at_or filename [] node.files) node.outside;
      } in
      if has_name filename node.infos
      then (copied, none)
      else to_leader leader touched touched (get filename filepath)
]

-- The request to take a file. The path is where the file is to be put, if that is not files/.
pub record SendRequest : Type 0 where
  pub sender_ip : String
  pub filename : String
  pub file_size : ℕ
  pub file_md5 : String
  pub chunk_size : ℕ
  pub port : ℕ
  pub filepath : Option String

abbrev pub chunk_size : ℕ
chunk_size = 256000

-- The loop over the data ports: `free` says whether a port can be bound.
unfoldable pub find_data_port : ℕ → (ℕ → Bool) → FileNode → Option (ℕ × FileNode)
find_data_port zero free node = none
find_data_port (suc fuel) free node =
    let (port, next) = next_port node in
    let later = find_data_port fuel free next in if free port then some (port, next) else later

module _ (md5 : Option (List ℕ) → String) where
  -- `base_name` is the last part of a path.
  unfoldable pub send_put_request :
      (String → String) → String → String → FileNode → FileNode × Option ServiceRequest
  send_put_request base_name leader filepath node =
      let filename = base_name filepath in
      let content = lookup filepath node.outside in
      to_leader leader node
        (record node { file_path_buf = set filename filepath node.file_path_buf })
        (put filename (md5 content) (size_of content))

  unfoldable pub process_service_reply : ServiceReply → FileNode → FileNode
  process_service_reply (put_reply approve name) node =
      if approve then copy_buffered_file md5 (get_or name "") node else node
  process_service_reply (get_reply available) node = node
  process_service_reply (delete_reply available name) node = node
  process_service_reply update_reply node = node
  process_service_reply (list_reply ids) node = node

  unfoldable pub send_file_request :
      ℕ → (ℕ → Bool) → String → String → FileNode → Option (FileNode × SendRequest)
  send_file_request fuel free filename filepath node = elim (find_data_port fuel free node) [
    | none ↦ none
    | some (port, next) ↦
        let content = lookup filename node.files in
        some (
          next,
          record {
            sender_ip = node.id;
            filename = filename;
            file_size = size_of content;
            file_md5 = md5 content;
            chunk_size = chunk_size;
            port = port;
            filepath = if str_eq filepath "" then none else some filepath;
          },
        )
  ]

  -- The end of `fetchClientThread`: the update that it sends has the announced md5 and size.
  unfoldable pub end_fetch : String → SendRequest → FileNode → FileNode × Option ServiceRequest
  end_fetch leader request node = elim request.filepath [
    | some path ↦ (finish_fetch md5 request.filename path node, none)
    | none ↦
        send_update_request leader
          (new_file_info request.filename request.file_md5 request.file_size)
          (finish_fetch md5 request.filename "" node)
  ]
