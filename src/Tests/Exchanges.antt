-- ===== src/Tests/Exchanges.antt =====
-- The exchanges of two nodes of the file system, on concrete nodes.
use cranesps.Base.{
  ℕ, String, ◌≡◌, refl, true, false, not, ◌&&◌, ◌||◌, ◌==◌, Option, none, some, List, [], ◌∷◌,
  length, if◌then◌else◌,
}
use cranesps.Base.Text.{str_eq}
use cranesps.Base.StdMap.{lookup, set}
use cranesps.FileMaster.Files.{FileMap, has_file, update_file_map, new_file_info, count_replicates}
use cranesps.FileMaster.Replicate.{list}
use cranesps.FileMaster.Requests.{Draws, put, lst, process_service}
use cranesps.FileMaster.Requests.Serve.{gives, takes}
use cranesps.FileNode.Store.{FileNode}
use cranesps.FileNode.Messages.{
  WrappedDFileMessage, on_service_request, on_command_request, dispatch, message,
}
use cranesps.FileNode.Daemon.{
  Daemon, Event, Codec, handle, parse, send, service_thread, master_service_thread, exchange,
}
use cranesps.FileNode.Exchange.{heard, obeyed, ordered, stored, exchange_exact}

-- A buffer is a message, or something else.
abbrev Buffer : Type 0
Buffer = Option WrappedDFileMessage

abbrev codec : Codec Buffer
codec = record { serialize_to_array = λ m. some m; parse_from_array = λ b. b }

abbrev draws : Draws
draws = record { fuel = 10; source_fuel = 10; rand = λ n. n }

abbrev node : String → FileNode
node id = record {
  id = id;
  infos = new_file_info "f" "m" 5 ∷ [];
  files = [];
  outside = [];
  file_path_buf = [];
  dynamic_port = 9601;
}

abbrev daemon : String → Daemon
daemon id = record { node = node id; file_map = []; members = "a" ∷ "b" ∷ []; leader = "a" }

abbrev md5 : Option (List ℕ) → String
md5 content = ""

exchange_exact_example :
    ((fm : FileMap) × (events : List Event) × (exchange codec md5 draws
          (on_service_request "a" (put "g" "m" 3))
          (daemon "a")
          (daemon "b")
        ≡ some (
          record (daemon "a") {
            node = stored md5 (put "g" "m" 3) (count_replicates "g" [] == 0) (node "a");
          },
          record (daemon "b") { file_map = fm },
          events,
        ))
      × (has_file "a" "g" fm ≡ (
          (has_file "a" "g" []
            && not (
                takes ("a" ∷ "b" ∷ []) (put "g" "m" 3) "a" "g"
                && not (count_replicates "g" [] == 0)))
          || gives "a" (put "g" "m" 3) (count_replicates "g" [] == 0) "a" "g")))
    × (exchange codec md5 draws (on_command_request "a" (list "b")) (daemon "a") (daemon "b") ≡ (
        if str_eq "a" "a"
        then some (
          record (daemon "a") { file_map = heard (list "b") (node "b") [] },
          record (daemon "b") { node = obeyed (list "b") (node "b") },
          ordered (list "b"),
        )
        else none))
    × ((handle md5 draws (on_command_request "a" (list "b")) (daemon "b")).daemon ≡ (
        if str_eq "a" "a"
        then record (daemon "b") { node = obeyed (list "b") (node "b") }
        else daemon "b"))
exchange_exact_example =
    exchange_exact codec md5 draws (λ m. refl) (put "g" "m" 3) (list "b") (daemon "a") (daemon "b")
      "a" "g"

-- The master knows the file of the node.
heard_file : has_file "b" "f" (heard (list "b") (node "b") []) ≡ true
unfolding has_file lookup update_file_map set
heard_file = refl

abbrev asks : Buffer
asks = send codec (on_service_request "b" (lst "f"))

abbrev order : Buffer
order = send codec (on_command_request "c" (list "a"))

-- Each thread serves two requests that it answers.
served :
    (length (service_thread codec md5 draws not false (asks ∷ asks ∷ []) (daemon "a")).1 ≡ 2)
    × (length (master_service_thread codec md5 draws not false (asks ∷ asks ∷ []) (daemon "a")).1
        ≡ 2)
unfolding service_thread master_service_thread parse send dispatch message handle process_service
served = (refl, refl)
