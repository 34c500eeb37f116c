-- ===== src/FileNode/Daemon.antt =====
-- One node as the file system has it: daemon/src/message/DFileMessageHandler.cpp, which serves the
-- sockets of `DFile` and of `DFileMaster` alike, and their receiving threads.
use mathlib.Core.Option
use cranesps.Base.{
  ℕ, String, Bool, true, false, ◌&&◌, Option, none, some, List, [], ◌∷◌, ◌++◌, map, if◌then◌else◌,
}
use cranesps.Base.Text.{str_eq}
use cranesps.FileMaster.Files.{FileMap, new_file_info, update_file_map}
use cranesps.FileMaster.Replicate.{Command}
use cranesps.FileMaster.Requests.{Draws, Effect, process_service}
use cranesps.FileNode.Store.{FileNode, NodeReply, process_command, process_send_request}
use cranesps.FileNode.Service.{SendRequest, process_service_reply}
use cranesps.FileNode.Transfer.{FetchReply}
use cranesps.FileNode.Messages.{
  refused, approved, CommandReply, replicate_type, delete_type, list_type, WrappedDFileMessage,
  Call, on_service_request, on_service_reply, on_send_request, on_send_reply, on_fetch_request,
  on_fetch_reply, on_command_request, on_command_reply, dispatch, message, make_command_reply,
}

-- `DFile` and `DFileMaster` of a node, with what they read of the membership and the election.
pub record Daemon : Type 0 where
  pub node : FileNode
  pub file_map : FileMap
  pub members : List String
  pub leader : String

-- What a handler starts: a command, a request to send a file (the target, the name and the path), a
-- thread that fetches, a thread that serves the pieces (the port, the name and the chunk size), and
-- what it passes on to such a thread: the number that is asked for at a port, and a piece.
pub data Event : Type 0 where
  commands : Command → Event
  sends_file : String → String → String → Event
  starts_fetch : SendRequest → Event
  starts_server : ℕ → String → ℕ → Event
  asked : ℕ → ℕ → Event
  piece : FetchReply → Event

-- `returns` is false where the call of `replicateFile` does not return; the reply is sent before it.
pub record Handled : Type 0 where
  pub daemon : Daemon
  pub reply : Option Call
  pub events : List Event
  pub returns : Bool

-- The handler of a `CommandReply`.
unfoldable pub process_command_reply : CommandReply → FileMap → FileMap
process_command_reply reply fm = elim reply.type [
  | replicate_type ↦ fm
  | delete_type ↦ fm
  | list_type ↦ elim reply.list_reply [
    | none ↦ fm
    | some infos ↦ update_file_map reply.sender_ip (map (λ i. new_file_info i.0 i.1 i.2) infos) fm
  ]
]

abbrev quiet : Daemon → List Event → Handled
quiet d events = record { daemon = d; reply = none; events = events; returns = true }

module _ (md5 : Option (List ℕ) → String) (draws : Draws) where
  abbrev serve_service : Daemon → Effect → Handled
  serve_service d e = record {
    daemon = record d { file_map = e.file_map };
    reply = some (on_service_reply e.reply);
    events = elim e.commands [ none ↦ [] | some cs ↦ map commands cs ];
    returns = elim e.commands [ none ↦ false | some _ ↦ true ];
  }

  unfoldable pub handle : Call → Daemon → Handled
  handle (on_service_request id r) d =
      serve_service d (process_service draws d.members id r d.file_map)
  handle (on_service_reply r) d = quiet (record d { node = process_service_reply md5 r d.node }) []
  handle (on_send_request r) d =
      if process_send_request r.filename d.node
      then record {
        daemon = d;
        reply = some (on_send_reply (approved r.filename r.chunk_size r.port));
        events = starts_fetch r ∷ [];
        returns = true;
      }
      else record { daemon = d; reply = some (on_send_reply refused); events = []; returns = true }
  handle (on_send_reply refused) d = quiet d []
  handle (on_send_reply (approved filename chunk_size port)) d =
      quiet d (starts_server port filename chunk_size ∷ [])
  handle (on_fetch_request r) d = quiet d (asked r.port r.chunk_id ∷ [])
  handle (on_fetch_reply r) d = quiet d (piece r ∷ [])
  handle (on_command_request sender c) d =
      let (after, sends, reply) = process_command d.leader sender c d.node in
      record {
        daemon = record d { node = after };
        reply =
            Option.map (λ (r : NodeReply). on_command_reply (make_command_reply d.node.id r)) reply;
        events = map (λ s. sends_file s.0 s.1 s.2) sends;
        returns = true;
      }
  handle (on_command_reply r) d =
      quiet (record d { file_map = process_command_reply r d.file_map }) []

-- The encoding that protobuf generates, on the bytes of a socket.
pub record Codec (Bytes : Type 0) : Type 0 where
  pub serialize_to_array : WrappedDFileMessage → Bytes
  pub parse_from_array : Bytes → Option WrappedDFileMessage

-- `throws` is the exception for a buffer that is no message; `crashes` a read of a null pointer.
pub data Received : Type 0 where
  throws crashes : Received
  handled : Handled → Received

-- Whether a receiver owes a reply after a call.
abbrev pub owes_after : Handled → Bool
owes_after h = elim h.reply [ none ↦ true | some _ ↦ false ]

module _ {Bytes : Type 0} (codec : Codec Bytes) where
  unfoldable pub send : Call → Bytes
  send c = codec.serialize_to_array (message c)

  module _ (md5 : Option (List ℕ) → String) (draws : Draws) where
    unfoldable pub parse : Bytes → Daemon → Received
    parse buffer d = elim (codec.parse_from_array buffer) [
      | none ↦ throws
      | some m ↦ elim (dispatch m.type m.msg) [
        | none ↦ crashes
        | some c ↦ handled (handle md5 draws c d)
      ]
    ]

    -- A request over a `REQ` socket and its reply, with what both sides start; `none` where no
    -- reply comes.
    unfoldable pub exchange : Call → Daemon → Daemon → Option (Daemon × Daemon × List Event)
    exchange request a b = elim (parse (send request) b) [
      | throws ↦ none
      | crashes ↦ none
      | handled h ↦ elim h.reply [
        | none ↦ none
        | some reply ↦ elim (parse (send reply) a) [
          | throws ↦ none
          | crashes ↦ none
          | handled back ↦ some (back.daemon, h.daemon, h.events ++ back.events)
        ]
      ]
    ]

    -- The receiving threads on the buffers that arrive, with what they handle. `can_recv` says
    -- whether a socket of the kind `REP` receives, by whether it owes the reply to a request.
    module _ (can_recv : Bool → Bool) where
      -- `DFile::Impl::serviceThread`: an exception ends it, that of `recv` as well.
      unfoldable pub service_thread : Bool → List Bytes → Daemon → Daemon × List Handled
      service_thread owes [] d = (d, [])
      service_thread owes (buffer ∷ buffers) d = elim (can_recv owes) [
        | false ↦ (d, [])
        | true ↦ elim (parse buffer d) [
          | throws ↦ (d, [])
          | crashes ↦ (d, [])
          | handled h ↦ elim h.returns [
            | false ↦ (h.daemon, h ∷ [])
            | true ↦
                let (last, more) = service_thread (owes_after h) buffers h.daemon in
                (last, h ∷ more)
          ]
        ]
      ]

      -- `DFileMaster::Impl::masterServiceThread`: it runs while the node is the leader, and goes on
      -- after an exception; one of `recv` is followed by another one, for ever.
      unfoldable pub master_service_thread : Bool → List Bytes → Daemon → Daemon × List Handled
      master_service_thread owes [] d = (d, [])
      master_service_thread owes (buffer ∷ buffers) d =
          elim (str_eq d.leader d.node.id && can_recv owes) [
            | false ↦ (d, [])
            | true ↦ elim (parse buffer d) [
              | throws ↦ master_service_thread true buffers d
              | crashes ↦ (d, [])
              | handled h ↦ elim h.returns [
                | false ↦ (h.daemon, h ∷ [])
                | true ↦
                    let (last, more) = master_service_thread (owes_after h) buffers h.daemon in
                    (last, h ∷ more)
              ]
            ]
          ]
