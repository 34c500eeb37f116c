-- ===== src/Client/Submit.antt =====
-- From a specification at the client to the one that Nimbus keeps, and to the code.
use cranesps.Base.{
  string_key, ℕ, ◌≤◌, ◌<◌, String, ◌≡◌, refl, ◌∙◌, true, false, some, List, [], ◌∷◌, map,
  map_cancel, length, ltb, arith, if◌then◌else◌,
}
use cranesps.Base.StdMap.{set, lookup-set_self, at_or}
use cranesps.Nimbus.Stats.{
  Nimbus, Tracker, TopoStats, new_tracker, SpoutSpec, BoltSpec, TopologySpec, get_topo_spec,
  set_topo_spec, set_topo_status, on_tracker,
}
use cranesps.Nimbus.Lifecycle.{World}
use cranesps.Nimbus.Requests.{ClientRequest, Handled, submit_reply, exists_topo, process}
use cranesps.Topology.Request.{SubmitRequest, parse_bolt, parse_spout, parse_from_request}
use cranesps.Client.{
  Client, Host, SendRequest, sends, submit, send, send_port_base, send_port_max, request_bolt,
  request_spout, process_submit_reply,
}
use cranesps.Client.Ports.{InRange, find_port-total}

-- A bolt on its way: a parallelism below three becomes three.
abbrev pub arrived : BoltSpec → BoltSpec
arrived bs = record bs { para_level = if ltb bs.para_level 3 then 3 else bs.para_level }

parse-request_bolt : (bs : BoltSpec) → parse_bolt (request_bolt bs) ≡ arrived bs
unfolding parse_bolt request_bolt
parse-request_bolt bs = ground arith

parse-request_bolts :
    (specs : List BoltSpec) → map parse_bolt (map request_bolt specs) ≡ map arrived specs
parse-request_bolts [] = refl
parse-request_bolts (bs ∷ specs) = cc (parse-request_bolt bs, parse-request_bolts specs)

parse-request_spouts : (specs : List SpoutSpec) → map parse_spout (map request_spout specs) ≡ specs
unfolding parse_spout request_spout
parse-request_spouts = map_cancel parse_spout request_spout (λ ss. refl)

-- The specification that arrives.
abbrev pub arrived_spec : TopologySpec → TopologySpec
arrived_spec spec = record spec { bolt_specs = map arrived spec.bolt_specs; node = 3 }

get_topo_spec-set :
    (t s : String) (stats : TopoStats) (spec : TopologySpec)
    → get_topo_spec t (set_topo_status t s (set_topo_spec t spec stats)) ≡ spec
unfolding get_topo_spec on_tracker
get_topo_spec-set t s stats spec =
    let k : Tracker = record (at_or t new_tracker stats) { topo_spec = spec } in
    ground (
      arith,
      lookup-set_self t k stats,
      lookup-set_self t (record k { status = s }) (set t k stats),
    )

-- A submission of a new topology, where its directory is there and one of the client's ports is
-- free: the client makes a request, Nimbus approves it and keeps the specification, but with
-- three tasks for every bolt that asked for less and 3 for the number of nodes; and on the reply the client
-- finds a free port and sends the archive and the file list of the directory.
pub submit_arrives :
    (host : Host) (spec : TopologySpec) (dir : String) (files : List String) (p : ℕ) (c : Client)
    → (w w' : World) (n : Nimbus) → host.get_dir dir ≡ some files
    → host.free p ≡ true
    → send_port_base ≤ p
    → p < send_port_max
    → InRange c
    → exists_topo spec.name n ≡ false
    → (request : SubmitRequest) × (h : Handled) × (next : Client) × (archive : SendRequest)
      × ((submit host spec dir c).1 ≡ some request)
      × (process w w' (ClientRequest.submit request.topo_name (parse_from_request request)) n
          ≡ some h)
      × (h.reply ≡ submit_reply spec.name true)
      × (get_topo_spec spec.name h.nimbus.topo_stats ≡ arrived_spec spec)
      × (process_submit_reply 100 host spec.name true (submit host spec dir c).0
          ≡ some (next, some (sends archive)))
      × (host.free archive.port ≡ true)
      × (archive.content ≡ host.tar dir)
      × (archive.extracted_files ≡ files)
unfolding submit process process_submit_reply send parse_from_request
submit_arrives host spec dir files p c w w' n there free low high r new =
    let waiting : Client = record c { path = set spec.name dir c.path } in
    let (port, next, run, is_free, _, _, _) = find_port-total host.free p waiting free low high r in
    let request : SubmitRequest = record {
      topo_name = spec.name;
      bolt_specs = map request_bolt spec.bolt_specs;
      spout_specs = map request_spout spec.spout_specs;
      acker_bolt = some spec.acker_bolt;
    } in
    let parsed : parse_from_request request ≡ arrived_spec spec =
      rw (parse-request_bolts spec.bolt_specs, parse-request_spouts spec.spout_specs) refl in
    let here = lookup-set_self spec.name dir c.path in
    (
      request,
      _,
      next,
      record {
        topo_name = spec.name;
        filename = host.archive_name spec.name;
        port = port;
        file_size = length (host.tar dir);
        file_md5 = host.md5 (host.tar dir);
        content = host.tar dir;
        extracted_files = files;
      },
      rw there refl,
      refl,
      ground (arith, new),
      rw new (
          get_topo_spec-set spec.name "pending" n.topo_stats (parse_from_request request) ∙ parsed),
      rw (process_submit_reply, send, here, there, run) refl,
      is_free,
      refl,
      refl,
    )
