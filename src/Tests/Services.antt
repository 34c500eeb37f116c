-- ===== src/Tests/Services.antt =====
-- A put, a replica on its way, and a join.
use cranesps.Base.{
  string_key, ℕ, ◌+◌, String, ◌≡◌, refl, true, false, Option, none, some, List, [], ◌∷◌, ◌++◌,
  arith, ltb,
}
use cranesps.Base.StdMap.{lookup}
use cranesps.DMember.Types.{DMember}
use cranesps.DMember.Merge.{Readings}
use cranesps.DMember.Heartbeat.{PingAck}
use cranesps.FileMaster.Files.{FileInfo, new_file_info, count_replicates, add_to_file_map}
use cranesps.FileMaster.Replicate.Targets.{Fair}
use cranesps.FileMaster.Replicate.{Command}
use cranesps.FileMaster.Requests.{ServiceRequest, update, Effect, process_service}
use cranesps.FileMaster.Requests.Restore.{Restores}
use cranesps.FileNode.Chunks.{total_chunks}
use cranesps.FileNode.Transfer.{Receiver, Sender, start_receiver, start_sender, fetch_loop}
use cranesps.FileNode.Store.{FileNode, process_send_request}
use cranesps.FileNode.Service.{
  SendRequest, send_put_request, process_service_reply, send_file_request, end_fetch,
}
use cranesps.FileNode.Service.Put.{put_agrees}
use cranesps.FileNode.Service.Copies.{replica_arrives}
use cranesps.Introducer.{Introducer}

abbrev node : String → FileNode
node id = record {
  id = id;
  infos = [];
  files = ("g", 1 ∷ 2 ∷ []) ∷ [];
  outside = ("dir/f", 7 ∷ 8 ∷ 9 ∷ []) ∷ [];
  file_path_buf = [];
  dynamic_port = 9601;
}

abbrev md5 : Option (List ℕ) → String
md5 none = ""
md5 (some content) = "m"

abbrev base_name : String → String
base_name path = "f"

abbrev nodes : List String
nodes = "a" ∷ "b" ∷ "c" ∷ []

abbrev counting : ℕ → ℕ
counting n = n

counting-all : Fair counting 3
counting-all start r h = (r + (start + start), omega arith)

put_agrees_example :
    (request : ServiceRequest) × (fuel : ℕ) × (source_fuel : ℕ) × (e : Effect) × (commands : List
      Command)
    × (fi : FileInfo) × ((send_put_request md5 base_name "a" "dir/f" (node "b")).1 ≡ some request)
    × (process_service
          (record { fuel = fuel; source_fuel = source_fuel; rand = counting })
          nodes
          "b"
          request
          []
        ≡ e)
    × (e.commands ≡ some commands)
    × (fi.name ≡ "f")
    × (e.file_map ≡ add_to_file_map "b" fi [])
    × ((process_service_reply md5 e.reply
          (send_put_request md5 base_name "a" "dir/f" (node "b")).0).infos
        ≡ [] ++ fi ∷ [])
    × (lookup "f"
          (process_service_reply md5 e.reply
            (send_put_request md5 base_name "a" "dir/f" (node "b")).0).files
        ≡ some (7 ∷ 8 ∷ 9 ∷ []))
    × Restores "f" e.file_map nodes commands
unfolding count_replicates lookup
put_agrees_example =
    put_agrees md5 base_name "a" "dir/f" (7 ∷ 8 ∷ 9 ∷ []) (node "b") counting nodes [] refl refl
      refl counting-all tt ((refl, (refl, tt)), ((refl, tt), (tt, tt))) refl refl

abbrev empty_node : FileNode
empty_node = record (node "c") { files = [] }

abbrev announced : FileInfo
announced = new_file_info "g" "m" 2

replica_arrives_example :
    (next : FileNode) × (request : SendRequest) × (r : Receiver) × (sender : Sender)
    × (send_file_request md5 200 (λ port. ltb 9603 port) "g" "" (node "b") ≡ some (next, request))
    × (ltb 9603 request.port ≡ true)
    × (process_send_request request.filename empty_node ≡ true)
    × (fetch_loop
          (total_chunks request.file_size request.chunk_size)
          "g"
          (total_chunks request.file_size request.chunk_size)
          (start_receiver "g" (record { files = []; client_chunk_count = [] }))
          (start_sender "g" (1 ∷ 2 ∷ []) request.chunk_size)
        ≡ (r, sender, true))
    × (((end_fetch md5 "a" request (record empty_node { files = r.files })).0.infos
          ≡ [] ++ announced ∷ [])
        × (lookup "g" (end_fetch md5 "a" request (record empty_node { files = r.files })).0.files
            ≡ some (1 ∷ 2 ∷ []))
        × ((end_fetch md5 "a" request (record empty_node { files = r.files })).1
            ≡ some (update announced.name announced.md5 announced.size)))
unfolding lookup
replica_arrives_example =
    replica_arrives md5 "a" "g" (1 ∷ 2 ∷ []) (node "b") empty_node [] (λ port. ltb 9603 port) 9700
      refl refl (omega arith) (omega arith) refl refl refl (omega arith) (omega arith)
      (omega arith, omega arith)

abbrev introducer : Introducer
introducer = record { member_join_time = []; member_map = [] }

abbrev service : DMember
service = record {
  id = "a";
  join_time = 5;
  member_map = [];
  members_queue = [];
  connections = [];
  update_on_next_heartbeat = false;
  is_stopped = false;
  sender_finished = false;
}

abbrev acks : List (PingAck × ℕ)
acks =
    (record { id = "b"; timestamp = 3; count = 9 }, 100)
    ∷ (record { id = "a"; timestamp = 5; count = 20 }, 101)
    ∷ []

abbrev readings : Readings
readings = record { born = 110; own = 111; merging = λ i key. 112; sweeping = λ key. 113 }
