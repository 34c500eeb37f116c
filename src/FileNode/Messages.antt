-- ===== src/FileNode/Messages.antt =====
-- protocol/dfile.proto, the messages that daemon/src/filesys/DFile.cpp and DFileMaster.cpp and
-- their handler make, and daemon/src/message/DFileMessageParser.cpp. The type of a service or a
-- command and what the message holds for it are one constructor, as every sender fills both in.
use cranesps.Base.{ℕ, String, ◌≡◌, refl, Option, none, some, List, [], ◌∷◌, map}
use cranesps.FileMaster.Files.{FileInfo}
use cranesps.FileMaster.Replicate.{Command}
use cranesps.FileMaster.Requests.{ServiceRequest, ServiceReply}
use cranesps.FileNode.Store.{NodeReply, replicated, deleted, listed}
use cranesps.FileNode.Service.{SendRequest}
use cranesps.FileNode.Transfer.{FetchReply}

pub data DFileType : Type 0 where
  service_req service_rep send_req send_rep fetch_req fetch_rep command_req command_rep : DFileType

-- `approve` is false and nothing else is set, or it is true with the name, the chunk size and the
-- port.
pub data SendReply : Type 0 where
  refused : SendReply
  approved : String → ℕ → ℕ → SendReply

pub record FetchRequest : Type 0 where
  pub filename : String
  pub port : ℕ
  pub chunk_id : ℕ

pub data CommandType : Type 0 where
  replicate_type delete_type list_type : CommandType

-- The name, the md5 and the size of every file that is listed.
pub record CommandReply : Type 0 where
  pub type : CommandType
  pub sender_ip : String
  pub list_reply : Option (List (String × String × ℕ))

-- The `oneof`. The sender's id comes first.
pub data Body : Type 0 where
  not_set : Body
  service_request : String → ServiceRequest → Body
  service_reply : ServiceReply → Body
  send_request : SendRequest → Body
  send_reply : SendReply → Body
  fetch_request : FetchRequest → Body
  fetch_reply : FetchReply → Body
  command_request : String → Command → Body
  command_reply : CommandReply → Body

pub record WrappedDFileMessage : Type 0 where
  pub type : DFileType
  pub msg : Body

-- The overloads of `process`, with what their pointer holds.
pub data Call : Type 0 where
  on_service_request : String → ServiceRequest → Call
  on_service_reply : ServiceReply → Call
  on_send_request : SendRequest → Call
  on_send_reply : SendReply → Call
  on_fetch_request : FetchRequest → Call
  on_fetch_reply : FetchReply → Call
  on_command_request : String → Command → Call
  on_command_reply : CommandReply → Call

-- `DFileMessageParser::parse` after the decoding: the call of a handler, or `none` where the
-- handler gets a null pointer, which each of them reads.
unfoldable pub dispatch : DFileType → Body → Option Call
dispatch service_req (service_request id r) = some (on_service_request id r)
dispatch service_req _ = none
dispatch service_rep (service_reply r) = some (on_service_reply r)
dispatch service_rep _ = none
dispatch send_req (send_request r) = some (on_send_request r)
dispatch send_req _ = none
dispatch send_rep (send_reply r) = some (on_send_reply r)
dispatch send_rep _ = none
dispatch fetch_req (fetch_request r) = some (on_fetch_request r)
dispatch fetch_req _ = none
dispatch fetch_rep (fetch_reply r) = some (on_fetch_reply r)
dispatch fetch_rep _ = none
dispatch command_req (command_request sender c) = some (on_command_request sender c)
dispatch command_req _ = none
dispatch command_rep (command_reply r) = some (on_command_reply r)
dispatch command_rep _ = none

-- How each message is filled in before it is sent.
unfoldable pub message : Call → WrappedDFileMessage
message (on_service_request id r) = record { type = service_req; msg = service_request id r }
message (on_service_reply r) = record { type = service_rep; msg = service_reply r }
message (on_send_request r) = record { type = send_req; msg = send_request r }
message (on_send_reply r) = record { type = send_rep; msg = send_reply r }
message (on_fetch_request r) = record { type = fetch_req; msg = fetch_request r }
message (on_fetch_reply r) = record { type = fetch_rep; msg = fetch_reply r }
message (on_command_request sender c) = record {
  type = command_req;
  msg = command_request sender c;
}
message (on_command_reply r) = record { type = command_rep; msg = command_reply r }

-- The reply to a command: `mutable_listreply` is called for each file, so there is no list where
-- there is no file.
abbrev pub file_list : List FileInfo → Option (List (String × String × ℕ))
file_list [] = none
file_list (fi ∷ infos) = some (map (λ (i : FileInfo). (i.name, i.md5, i.size)) (fi ∷ infos))

unfoldable pub make_command_reply : String → NodeReply → CommandReply
make_command_reply id replicated = record {
  type = replicate_type;
  sender_ip = id;
  list_reply = none;
}
make_command_reply id deleted = record { type = delete_type; sender_ip = id; list_reply = none }
make_command_reply id (listed infos) = record {
  type = list_type;
  sender_ip = id;
  list_reply = file_list infos;
}

pub dispatch-message : (c : Call) → dispatch (message c).type (message c).msg ≡ some c
unfolding dispatch message
dispatch-message (on_service_request id r) = refl
dispatch-message (on_service_reply r) = refl
dispatch-message (on_send_request r) = refl
dispatch-message (on_send_reply r) = refl
dispatch-message (on_fetch_request r) = refl
dispatch-message (on_fetch_reply r) = refl
dispatch-message (on_command_request sender c) = refl
dispatch-message (on_command_reply r) = refl
