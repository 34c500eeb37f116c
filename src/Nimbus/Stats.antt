-- ===== src/Nimbus/Stats.antt =====
-- The specifications of topologies and `topoStats`, the table of the topologies. A negative
-- parallelism starts no task, as 0 does, so it is a natural number.
use cranesps.Base.{
  string_key, ℕ, String, Bool, true, not, none, some, List, [], ◌∷◌, ◌++◌, map, filter,
}
use cranesps.DMember.Types.{Address}
use cranesps.Base.Text.{str_eq}
use cranesps.Base.StdMap.{lookup, set, at_or}

pub record SpoutSpec : Type 0 where
  pub name : String
  pub run_name : String

pub record BoltSpec : Type 0 where
  pub name : String
  pub parents : List (String × String)  -- a name and the grouping
  pub run_name : String
  pub para_level : ℕ

pub record TopologySpec : Type 0 where
  pub name : String
  pub bolt_specs : List BoltSpec
  pub spout_specs : List SpoutSpec
  pub node : ℕ
  pub acker_bolt : Bool

abbrev pub empty_spec : TopologySpec
empty_spec = record { name = ""; bolt_specs = []; spout_specs = []; node = 3; acker_bolt = true }

-- `TopologyTracker`.
pub record Tracker : Type 0 where
  pub status : String
  pub topo_spec : TopologySpec
  pub task_instances : List (String × List Address)

abbrev pub new_tracker : Tracker
new_tracker = record { status = ""; topo_spec = empty_spec; task_instances = [] }

abbrev pub TopoStats : Type 0
TopoStats = List (String × Tracker)

pub record Nimbus : Type 0 where
  pub topo_stats : TopoStats
  pub supervisors : List String
  pub executor : String  -- the static variable of `nextExecutor`

unfoldable pub update_supervisors : String → List String → Nimbus → Nimbus
update_supervisors own_id members n = record n {
  supervisors = filter (λ m. not (str_eq m own_id)) members;
}

unfoldable pub get_all_topo_ids : TopoStats → List String
get_all_topo_ids = map (λ entry. entry.0)

unfoldable pub get_topo_status : String → TopoStats → String
get_topo_status topo_id stats = elim (lookup topo_id stats) [
  | none ↦ "nonexisted"
  | some t ↦ t.status
]

-- An operation on the tracker of a topology that is there.
unfoldable pub on_tracker : String → (Tracker → Tracker) → TopoStats → TopoStats
on_tracker topo_id f stats = elim (lookup topo_id stats) [
  | none ↦ stats
  | some t ↦ set topo_id (f t) stats
]

abbrev pub set_topo_status : String → String → TopoStats → TopoStats
set_topo_status topo_id status = on_tracker topo_id (λ t. record t { status = status })

unfoldable pub get_topo_task_instances : String → String → TopoStats → List Address
get_topo_task_instances topo_id name stats = elim (lookup topo_id stats) [
  | none ↦ []
  | some t ↦ at_or name [] t.task_instances
]

abbrev pub set_topo_task_instances : String → String → List Address → TopoStats → TopoStats
set_topo_task_instances topo_id name instances =
    on_tracker topo_id (λ t. record t { task_instances = set name instances t.task_instances })

abbrev pub add_topo_task_instance : String → String → Address → TopoStats → TopoStats
add_topo_task_instance topo_id name new = on_tracker topo_id (λ t. record t {
  task_instances = set name (at_or name [] t.task_instances ++ new ∷ []) t.task_instances;
})

unfoldable pub get_topo_spec : String → TopoStats → TopologySpec
get_topo_spec topo_id stats = elim (lookup topo_id stats) [
  | none ↦ empty_spec
  | some t ↦ t.topo_spec
]

abbrev pub set_topo_spec : String → TopologySpec → TopoStats → TopoStats
set_topo_spec topo_id spec stats =
    set topo_id (record (at_or topo_id new_tracker stats) { topo_spec = spec }) stats
