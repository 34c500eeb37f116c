-- ===== src/Tests/Clients.antt =====
-- A submission with a bolt that asks for one task, while the first ports are taken.
use cranesps.Base.{string_key, ◌≡◌, refl, true, false, some, [], ◌∷◌, arith, ltb}
use cranesps.Nimbus.Stats.{Nimbus, TopologySpec, get_topo_status, get_topo_spec}
use cranesps.Nimbus.Lifecycle.{World}
use cranesps.Nimbus.Requests.{ClientRequest, Handled, submit_reply, exists_topo, process}
use cranesps.Topology.Request.{SubmitRequest, parse_from_request}
use cranesps.Client.{Client, Host, SendRequest, sends, submit, process_submit_reply}
use cranesps.Base.StdMap.{lookup}
use cranesps.Client.Submit.{arrived_spec, submit_arrives}

abbrev host : Host
host = record {
  get_dir = λ dir. some ("Word.cpp" ∷ []);
  tar = λ dir. 1 ∷ 2 ∷ [];
  md5 = λ bytes. "ab";
  archive_name = λ topo_id. topo_id;
  free = λ port. ltb 11103 port;
}

abbrev spec : TopologySpec
spec = record {
  name = "words";
  bolt_specs =
      record { name = "print"; parents = []; run_name = "PrinterBolt"; para_level = 1 } ∷ [];
  spout_specs = [];
  node = 3;
  acker_bolt = true;
}

abbrev client : Client
client = record { path = []; send_port = 11198 }

abbrev empty_nimbus : Nimbus
empty_nimbus = record { topo_stats = []; supervisors = []; executor = "" }

abbrev world : World
world = record { own_id = "a"; members = "a" ∷ []; ports = λ supervisor name count. [] }

unknown : exists_topo "words" empty_nimbus ≡ false
unfolding get_topo_status lookup
unknown = refl

submit_arrives_example :
    (request : SubmitRequest) × (h : Handled) × (next : Client) × (archive : SendRequest) × ((submit
        host spec "src" client).1
      ≡ some request)
    × (process world world
          (ClientRequest.submit request.topo_name (parse_from_request request))
          empty_nimbus
        ≡ some h)
    × (h.reply ≡ submit_reply "words" true)
    × (get_topo_spec "words" h.nimbus.topo_stats ≡ arrived_spec spec)
    × (process_submit_reply 100 host "words" true (submit host spec "src" client).0
        ≡ some (next, some (sends archive)))
    × (host.free archive.port ≡ true)
    × (archive.content ≡ host.tar "src")
    × (archive.extracted_files ≡ "Word.cpp" ∷ [])
submit_arrives_example =
    submit_arrives host spec "src" ("Word.cpp" ∷ []) 11150 client world world empty_nimbus refl refl
      (omega arith) (omega arith) (omega arith, omega arith) unknown
