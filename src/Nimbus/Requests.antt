-- ===== src/Nimbus/Requests.antt =====
-- The requests of the clients (`CraneMessageHandler::process` on Nimbus), and what Nimbus does when
-- a node fails.
pub mod Status
pub mod Served
pub mod Workers
pub mod Restart
pub mod Replies
use mathlib.Core.Option
use cranesps.Base.{
  string_key, ℕ, String, Bool, true, false, not, Option, none, some, List, [], ◌∷◌, ◌++◌, map,
  if◌then◌else◌,
}
use cranesps.Base.Text.{str_eq}
use cranesps.DMember.Types.{Address}
use cranesps.Nimbus.Stats.{
  Nimbus, SpoutSpec, BoltSpec, TopologySpec, TopoStats, get_all_topo_ids, get_topo_status,
  get_topo_spec, get_topo_task_instances, set_topo_status, set_topo_spec,
}
use cranesps.Nimbus.Lifecycle.{
  NimbusRequest, World, prepare_topology, start_topology, stop_topology, kill_topology, compiled,
}

-- `kill`, `start`, `stop` and `send` name a topology; `send` is the upload of its code, which is
-- compiled and put into the file system.
pub data ClientRequest : Type 0 where
  kill start stop send : String → ClientRequest
  submit : String → TopologySpec → ClientRequest
  status : ClientRequest

pub record WorkerStatus : Type 0 where
  pub name : String
  pub run_name : String
  pub address : Address

pub data ClientReply : Type 0 where
  kill_reply start_reply stop_reply : String → Bool → ClientReply  -- whether it does not exist
  submit_reply send_reply : String → Bool → ClientReply
  status_reply : List (String × String × List WorkerStatus) → ClientReply

pub record Handled : Type 0 where
  pub nimbus : Nimbus
  pub reply : ClientReply
  pub sent : List NimbusRequest

-- `prepareTopology` and then `startTopology`, each with what it finds around it.
unfoldable pub prepare_and_start :
    World → World → String → Nimbus → Option (Nimbus × List NimbusRequest)
prepare_and_start w w' topo_id n =
    Option.map
      (λ (x : Nimbus × List NimbusRequest).
        let (started, more) = start_topology w' topo_id x.0 in (started, x.1 ++ more))
      (prepare_topology w topo_id n)

workers_of : String → String → String → TopoStats → List WorkerStatus
workers_of topo_id name run_name stats =
    map (λ address. record { name = name; run_name = run_name; address = address })
      (get_topo_task_instances topo_id name stats)

spout_workers : String → List SpoutSpec → TopoStats → List WorkerStatus
spout_workers topo_id [] stats = []
spout_workers topo_id (ss ∷ specs) stats =
    workers_of topo_id ss.name ss.run_name stats ++ spout_workers topo_id specs stats

bolt_workers : String → List BoltSpec → TopoStats → List WorkerStatus
bolt_workers topo_id [] stats = []
bolt_workers topo_id (bs ∷ specs) stats =
    workers_of topo_id bs.name bs.run_name stats ++ bolt_workers topo_id specs stats

unfoldable pub status_of : String → TopoStats → String × String × List WorkerStatus
unfolding workers_of spout_workers bolt_workers
status_of topo_id stats =
    let spec = get_topo_spec topo_id stats in
    (
      topo_id,
      get_topo_status topo_id stats,
      spout_workers topo_id spec.spout_specs stats ++ bolt_workers topo_id spec.bolt_specs stats,
    )

abbrev pub exists_topo : String → Nimbus → Bool
exists_topo topo_id n = not (str_eq (get_topo_status topo_id n.topo_stats) "nonexisted")

-- `none` where a task finds no supervisor.
unfoldable pub process : World → World → ClientRequest → Nimbus → Option Handled
process w w' (kill t) n =
    let (killed, sent) = if exists_topo t n then kill_topology w t n else (n, []) in
    some (record { nimbus = killed; reply = kill_reply t (not (exists_topo t n)); sent = sent })
process w w' (submit t spec) n =
    let submitted = if exists_topo t n then n else record n {
      topo_stats = set_topo_status t "pending" (set_topo_spec t spec n.topo_stats);
    } in
    some (record { nimbus = submitted; reply = submit_reply t (not (exists_topo t n)); sent = [] })
process w w' (start t) n =
    Option.map
      (λ (x : Nimbus × List NimbusRequest). record {
        nimbus = x.0;
        reply = start_reply t (not (exists_topo t n));
        sent = x.1;
      })
      (if exists_topo t n then prepare_and_start w w' t n else some (n, []))
process w w' (stop t) n =
    let (stopped, sent) = if exists_topo t n then stop_topology w t n else (n, []) in
    some (record { nimbus = stopped; reply = stop_reply t (not (exists_topo t n)); sent = sent })
process w w' (send t) n =
    Option.map
      (λ (x : Nimbus × List NimbusRequest). record {
        nimbus = x.0;
        reply = send_reply t true;
        sent = x.1;
      })
      (prepare_and_start w w' t (compiled t n))
process w w' status n = some (record {
  nimbus = n;
  reply = status_reply (map (λ t. status_of t n.topo_stats) (get_all_topo_ids n.topo_stats));
  sent = [];
})

unfoldable pub stop_all : (String → World) → List String → Nimbus → Nimbus × List NimbusRequest
stop_all worlds [] n = (n, [])
stop_all worlds (t ∷ ts) n =
    let (stopped, sent) = stop_topology (worlds t) t n in
    let (after, more) = stop_all worlds ts stopped in (after, sent ++ more)

unfoldable pub start_all :
    (String → World)
    → (String → World)
    → List String
    → Nimbus
    → Option (Nimbus × List NimbusRequest)
start_all worlds worlds' [] n = some (n, [])
start_all worlds worlds' (t ∷ ts) n = elim (prepare_and_start (worlds t) (worlds' t) t n) [
  | none ↦ none
  | some (started, sent) ↦ elim (start_all worlds worlds' ts started) [
    | none ↦ none
    | some (after, more) ↦ some (after, sent ++ more)
  ]
]

-- Nimbus stops all topologies, waits, and starts them again: what is stopped, and the rest.
unfoldable pub handle_node_fail :
    (String → World)
    → (String → World)
    → (String → World)
    → Nimbus
    → (Nimbus × List NimbusRequest) × Option (Nimbus × List NimbusRequest)
handle_node_fail stopping preparing starting n =
    let ids = get_all_topo_ids n.topo_stats in
    let stopped = stop_all stopping ids n in (stopped, start_all preparing starting ids stopped.0)
