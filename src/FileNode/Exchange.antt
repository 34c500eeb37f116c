-- ===== src/FileNode/Exchange.antt =====
-- What the nodes of the file system exchange over their sockets.
use cranesps.Base.{
  ℕ, String, ◌≡◌, refl, ap, Bool, not, ◌&&◌, ◌||◌, ◌==◌, inl, inr, Option, none, some, List, [],
  ◌∷◌, ◌++◌, arith, map, append_nil, Bool-cases, if◌then◌else◌,
}
use cranesps.Base.Text.{str_eq}
use cranesps.FileMaster.Files.{FileInfo, FileMap, has_file, count_replicates}
use cranesps.FileMaster.Replicate.{Command, replicate, delete, list}
use cranesps.FileMaster.Requests.{
  Draws, ServiceRequest, put, update, get, del, lst, process_service, process_list_reply,
}
use cranesps.FileMaster.Requests.Serve.{gives, takes, name_of, served_exact}
use cranesps.FileNode.Store.{
  FileNode, listed, run_command, process_command, copy_buffered_file, delete_local_file,
}
use cranesps.FileNode.Service.{process_service_reply}
use cranesps.FileNode.Messages.{
  WrappedDFileMessage, Call, on_service_request, on_service_reply, on_command_request,
  on_command_reply, message, dispatch-message, make_command_reply,
}
use cranesps.FileNode.Daemon.{
  Daemon, Event, sends_file, handle, process_command_reply, Codec, handled, send, parse, exchange,
}

-- What the master knows after the reply of a node to a command.
abbrev pub heard : Command → FileNode → FileMap → FileMap
heard (replicate target targets filename path) node fm = fm
heard (delete target filename) node fm = fm
heard (list target) node fm =
    process_list_reply node.id (map (λ (i : FileInfo). (i.name, i.md5, i.size)) node.infos) fm

-- What a command does to the files of the node, and the requests that it makes it send.
abbrev pub obeyed : Command → FileNode → FileNode
obeyed (replicate target targets filename path) node = node
obeyed (delete target filename) node = delete_local_file filename node
obeyed (list target) node = node

abbrev pub ordered : Command → List Event
ordered (replicate target targets filename path) = map (λ t. sends_file t filename path) targets
ordered (delete target filename) = []
ordered (list target) = []

-- What the reply to a request does on the node that asked, by whether the name was free.
abbrev pub stored : (Option (List ℕ) → String) → ServiceRequest → Bool → FileNode → FileNode
stored md5 (put name content_md5 size) free node =
    if free then copy_buffered_file md5 name node else node
stored md5 (update name content_md5 size) free node = node
stored md5 (get name path) free node = node
stored md5 (del name) free node = node
stored md5 (lst name) free node = node

run_command-exact :
    (c : Command) (node : FileNode)
    → ((run_command c node).0 ≡ obeyed c node)
      × (map (λ (s : String × String × String). sends_file s.0 s.1 s.2) (run_command c node).1
          ≡ ordered c)
unfolding run_command
run_command-exact (replicate target targets filename path) node = (refl, sends targets)
  where
    sends :
        (ts : List String)
        → map
            (λ (s : String × String × String). sends_file s.0 s.1 s.2)
            (map (λ t. (t, filename, path)) ts)
          ≡ map (λ t. sends_file t filename path) ts
    sends [] = refl
    sends (t ∷ ts) = ap (λ l. sends_file t filename path ∷ l) (sends ts)
run_command-exact (delete target filename) node = (refl, refl)
run_command-exact (list target) node = (refl, refl)

stored-process_service :
    (md5 : Option (List ℕ) → String) (draws : Draws) (members : List String) (id : String)
    (r : ServiceRequest) (fm : FileMap) (node : FileNode)
    → process_service_reply md5 (process_service draws members id r fm).reply node
      ≡ stored md5 r (count_replicates (name_of r) fm == 0) node
unfolding process_service process_service_reply
stored-process_service md5 draws members id (put name content size) fm node = ground arith
stored-process_service md5 draws members id (update name content size) fm node = refl
stored-process_service md5 draws members id (get name path) fm node = refl
stored-process_service md5 draws members id (del name) fm node = refl
stored-process_service md5 draws members id (lst name) fm node = refl

heard-process_command_reply :
    (c : Command) (node : FileNode) (fm : FileMap)
    → process_command_reply (make_command_reply node.id (run_command c node).2) fm ≡ heard c node fm
unfolding process_command_reply make_command_reply run_command
heard-process_command_reply (replicate target targets filename path) node fm = refl
heard-process_command_reply (delete target filename) node fm = refl
heard-process_command_reply (list target) node fm = listing node.infos
  where
    listing :
        (infos : List FileInfo)
        → process_command_reply (make_command_reply node.id (listed infos)) fm
          ≡ process_list_reply node.id (map (λ (i : FileInfo). (i.name, i.md5, i.size)) infos) fm
    listing [] = refl
    listing (fi ∷ infos) = refl

module _ {Bytes : Type 0} (codec : Codec Bytes) (md5 : Option (List ℕ) → String) (draws : Draws)
    (same : (m : WrappedDFileMessage)
      → codec.parse_from_array (codec.serialize_to_array m) ≡ some m) where
  parse-send :
      (c : Call) (d : Daemon)
      → parse codec md5 draws (send codec c) d ≡ handled (handle md5 draws c d)
  unfolding parse send
  parse-send c d = ground (arith, same (message c), dispatch-message c)

  -- What two nodes of the file system do over a socket whose encoding is read back as it was written.
  -- A request to the master: the map that the master has then, for every node and every file, and the
  -- node's own copy, which a put makes exactly if no node has the name. A command: where the other
  -- node takes its sender for the leader, it does what the command says, sends the file to each
  -- target in turn or deletes its own, and the master keeps the list of files that it replies, if
  -- that is not empty; from any other sender there is no reply, and the node stays as it is.
  pub exchange_exact :
      (r : ServiceRequest) (c : Command) (a b : Daemon) (j g : String)
      → ((fm : FileMap) × (events : List Event) × (exchange codec md5 draws
              (on_service_request a.node.id r)
              a
              b
            ≡ some (
              record a {
                node = stored md5 r (count_replicates (name_of r) b.file_map == 0) a.node;
              },
              record b { file_map = fm },
              events,
            ))
          × (has_file j g fm ≡ (
              (has_file j g b.file_map
                && not
                    (takes b.members r j g && not (count_replicates (name_of r) b.file_map == 0)))
              || gives a.node.id r (count_replicates (name_of r) b.file_map == 0) j g)))
        × (exchange codec md5 draws (on_command_request a.node.id c) a b ≡ (
            if str_eq b.leader a.node.id
            then some (
              record a { file_map = heard c b.node a.file_map },
              record b { node = obeyed c b.node },
              ordered c,
            )
            else none))
        × ((handle md5 draws (on_command_request a.node.id c) b).daemon
            ≡ (if str_eq b.leader a.node.id then record b { node = obeyed c b.node } else b))
  unfolding exchange handle process_command
  exchange_exact r c a b j g =
      let e = process_service draws b.members a.node.id r b.file_map in
      let (obeys, sends) = run_command-exact c b.node in
      let reply = on_command_reply (make_command_reply b.node.id (run_command c b.node).2) in
      (
        (
          e.file_map,
          (handle md5 draws (on_service_request a.node.id r) b).events ++ [],
          ground (
            arith,
            parse-send (on_service_request a.node.id r) b,
            parse-send (on_service_reply e.reply) a,
            stored-process_service md5 draws b.members a.node.id r b.file_map a.node,
          ),
          served_exact draws b.members a.node.id r b.file_map j g,
        ),
        elim (Bool-cases (str_eq b.leader a.node.id)) [
          | inl leads ↦ ground (
            arith,
            leads,
            parse-send (on_command_request a.node.id c) b,
            parse-send reply a,
            heard-process_command_reply c b.node a.file_map,
            obeys,
            sends,
            append_nil (ordered c),
          )
          | inr other ↦ ground (arith, other, parse-send (on_command_request a.node.id c) b)
        ],
        elim (Bool-cases (str_eq b.leader a.node.id)) [
          | inl leads ↦ ground (arith, leads, obeys)
          | inr other ↦ ground (arith, other)
        ],
      )
