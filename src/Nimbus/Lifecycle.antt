-- ===== src/Nimbus/Lifecycle.antt =====
-- The operations on a topology: `prepareTopology`, `startTopology`, `stopTopology`,
-- `killTopology` and `compileTopology`, with the requests that they send to the supervisors.
use mathlib.Core.Option
use cranesps.Base.{
  string_key, ℕ, String, not, Option, none, some, List, [], ◌∷◌, ◌++◌, map, if◌then◌else◌,
}
use cranesps.Base.Text.{str_eq}
use cranesps.Base.StdMap.{lookup, set, erase, at_or}
use cranesps.DMember.Types.{make_addr}
use cranesps.Nimbus.Stats.{
  Nimbus, SpoutSpec, BoltSpec, TopologySpec, TopoStats, new_tracker, update_supervisors,
  get_topo_status, set_topo_status, add_topo_task_instance, get_topo_spec,
}
use cranesps.Nimbus.Assign.{
  Assignment, GroupedAddresses, tasks, assign, groups, run_map, worker_connections,
}

-- A request to a supervisor, whose name comes first.
pub data NimbusRequest : Type 0 where
  add_worker : String → String → String → String → ℕ → NimbusRequest
  config_conns : String → String → List (String × List GroupedAddresses) → NimbusRequest
  start_worker kill_worker : String → String → String → NimbusRequest

-- What a call finds around it: the own name, the membership list, and the ports that a supervisor
-- replies for a task and a number of instances; none for a reply that does not come.
pub record World : Type 0 where
  pub own_id : String
  pub members : List String
  pub ports : String → String → ℕ → List ℕ

-- `CraneMessageHandler::process` on the reply to ADD_WORKER.
unfoldable pub add_instances : String → String → String → List ℕ → TopoStats → TopoStats
add_instances topo_id name supervisor [] stats = stats
add_instances topo_id name supervisor (port ∷ ports) stats =
    add_instances topo_id name supervisor ports
      (add_topo_task_instance topo_id name (make_addr supervisor port) stats)

-- One supervisor: a request for each group of equal tasks.
unfoldable pub add_groups :
    World
    → String
    → List (String × String)
    → String
    → List (String × ℕ)
    → TopoStats
    → TopoStats × List NimbusRequest
add_groups w topo_id runs supervisor [] stats = (stats, [])
add_groups w topo_id runs supervisor ((name, count) ∷ rest) stats =
    let (after, sent) =
      add_groups w topo_id runs supervisor rest
        (add_instances topo_id name supervisor (w.ports supervisor name count) stats) in
    (after, add_worker supervisor topo_id name (at_or name "" runs) count ∷ sent)

unfoldable pub add_workers :
    World
    → String
    → List (String × String)
    → Assignment
    → TopoStats
    → TopoStats × List NimbusRequest
add_workers w topo_id runs [] stats = (stats, [])
add_workers w topo_id runs ((supervisor, queue) ∷ rest) stats =
    let (between, sent) = add_groups w topo_id runs supervisor (groups queue) stats in
    let (after, more) = add_workers w topo_id runs rest between in (after, sent ++ more)

-- `prepareTopology` once the tasks are assigned.
unfoldable pub create_and_connect :
    World → String → Nimbus → Assignment → Nimbus × List NimbusRequest
create_and_connect w topo_id n assignment =
    let spec = get_topo_spec topo_id n.topo_stats in
    let (added, sent) = add_workers w topo_id (run_map spec) assignment n.topo_stats in
    let conns = worker_connections topo_id spec added in
    (
      record n { topo_stats = set_topo_status topo_id "ready" added },
      sent ++ map (λ s. config_conns s topo_id conns) n.supervisors,
    )

unfoldable pub prepare_topology : World → String → Nimbus → Option (Nimbus × List NimbusRequest)
prepare_topology w topo_id n =
    let preparing : Nimbus = record (update_supervisors w.own_id w.members n) {
      topo_stats = set_topo_status topo_id "preparing" n.topo_stats;
    } in
    Option.map (λ (x : Nimbus × Assignment). create_and_connect w topo_id x.0 x.1)
      (assign (tasks (get_topo_spec topo_id preparing.topo_stats)) preparing [])

abbrev pub names_of : TopologySpec → List String
names_of spec =
    map (λ (ss : SpoutSpec). ss.name) spec.spout_specs
    ++ map (λ (bs : BoltSpec). bs.name) spec.bolt_specs

-- One request to every supervisor for every name.
unfoldable pub to_all :
    (String → String → NimbusRequest) → List String → List String → List NimbusRequest
to_all request [] names = []
to_all request (s ∷ supervisors) names =
    map (λ name. request s name) names ++ to_all request supervisors names

unfoldable pub start_topology : World → String → Nimbus → Nimbus × List NimbusRequest
start_topology w topo_id n =
    let names = names_of (get_topo_spec topo_id n.topo_stats) in
    let updated = update_supervisors w.own_id w.members n in
    if not (str_eq (get_topo_status topo_id n.topo_stats) "ready") then (n, []) else (
      record updated { topo_stats = set_topo_status topo_id "running" n.topo_stats },
      to_all (λ s name. start_worker s topo_id name) updated.supervisors names,
    )

-- `topoStats[topoid].taskInstances.clear()`, which makes a tracker for a topology that is missing.
abbrev pub clear_instances : String → TopoStats → TopoStats
clear_instances topo_id stats =
    set topo_id (record (at_or topo_id new_tracker stats) { task_instances = [] }) stats

-- A topology that is not running is only warned about.
unfoldable pub stop_topology : World → String → Nimbus → Nimbus × List NimbusRequest
stop_topology w topo_id n =
    let names = names_of (get_topo_spec topo_id n.topo_stats) in
    let updated = update_supervisors w.own_id w.members n in
    (
      record updated {
        topo_stats = clear_instances topo_id (set_topo_status topo_id "idle" n.topo_stats);
      },
      to_all (λ s name. kill_worker s topo_id name) updated.supervisors names,
    )

unfoldable pub kill_topology : World → String → Nimbus → Nimbus × List NimbusRequest
kill_topology w topo_id n = elim (lookup topo_id n.topo_stats) [
  | none ↦ (n, [])
  | some t ↦
      let (stopped, sent) =
        if str_eq t.status "running" then stop_topology w topo_id n else (n, []) in
      (record stopped { topo_stats = erase topo_id stopped.topo_stats }, sent)
]

-- `compileTopology` without the compiler: the status that it leaves.
abbrev pub compiled : String → Nimbus → Nimbus
compiled topo_id n = record n { topo_stats = set_topo_status topo_id "idle" n.topo_stats }
