-- ===== src/Nimbus/Assign.antt =====
-- The part of `prepareTopology` that hands the tasks of a topology to the supervisors in turn, and
-- the connections that it sends.
pub mod Counts
pub mod Wanted
pub mod Balance
pub mod Connections
use cranesps.Base.{
  string_key, ℕ, zero, suc, ◌+◌, ◌%◌, String, Bool, true, false, Option, none, some, List, [], ◌∷◌,
  ◌++◌, length, get_elem?, map, if◌then◌else◌,
}
use cranesps.Base.Text.{str_eq, str_lt}
use cranesps.Base.StdMap.{set, at_or}
use cranesps.DMember.Types.{Address}
use cranesps.DMember.Connect.{own_index}
use cranesps.Nimbus.Stats.{
  Nimbus, SpoutSpec, BoltSpec, TopologySpec, TopoStats, get_topo_task_instances,
}

-- `none` where there is no supervisor: the source reads past the end of the vector.
unfoldable pub next_executor : Nimbus → Option (String × Nimbus)
next_executor n =
    let next =
      if str_eq n.executor ""
      then get_elem? n.supervisors 0
      else get_elem? n.supervisors
          (suc (own_index n.executor n.supervisors) % length n.supervisors) in
    elim next [ none ↦ none | some e ↦ some (e, record n { executor = e }) ]

-- A `std::priority_queue` of names as the list in the order of its `pop`.
unfoldable pub push_task : String → List String → List String
push_task t [] = t ∷ []
push_task t (x ∷ xs) = if str_lt t x then x ∷ push_task t xs else t ∷ x ∷ xs

abbrev pub Assignment : Type 0
Assignment = List (String × List String)

-- The tasks in the order of the two loops: each spout once, each bolt as often as it is parallel.
abbrev pub copies : ℕ → String → List String
copies zero name = []
copies (suc n) name = name ∷ copies n name

unfoldable pub bolt_tasks : List BoltSpec → List String
bolt_tasks [] = []
bolt_tasks (bs ∷ specs) = copies bs.para_level bs.name ++ bolt_tasks specs

unfoldable pub tasks : TopologySpec → List String
tasks spec = map (λ (ss : SpoutSpec). ss.name) spec.spout_specs ++ bolt_tasks spec.bolt_specs

unfoldable pub assign : List String → Nimbus → Assignment → Option (Nimbus × Assignment)
assign [] n assignment = some (n, assignment)
assign (t ∷ ts) n assignment = elim (next_executor n) [
  | none ↦ none
  | some (e, n') ↦ assign ts n' (set e (push_task t (at_or e [] assignment)) assignment)
]

-- The inner loops over a queue: a name and how many tasks of it there are.
unfoldable pub group_from : String → ℕ → List String → List (String × ℕ)
group_from name count [] = (name, count) ∷ []
group_from name count (x ∷ xs) =
    let same = group_from name (suc count) xs in
    let other = group_from x 1 xs in if str_eq name x then same else (name, count) ∷ other

unfoldable pub groups : List String → List (String × ℕ)
groups [] = []
groups (x ∷ xs) = group_from x 1 xs

-- `runMap`.
unfoldable pub run_map : TopologySpec → List (String × String)
run_map spec = let spouts = add_spouts spec.spout_specs [] in add_bolts spec.bolt_specs spouts
  where
    add_spouts : List SpoutSpec → List (String × String) → List (String × String)
    add_spouts [] m = m
    add_spouts (ss ∷ specs) m = add_spouts specs (set ss.name ss.run_name m)

    add_bolts : List BoltSpec → List (String × String) → List (String × String)
    add_bolts [] m = m
    add_bolts (bs ∷ specs) m = add_bolts specs (set bs.name bs.run_name m)

-- `tree`: the children of a name, with their groupings.
unfoldable pub add_parents :
    String
    → List (String × String)
    → List (String × List (String × String))
    → List (String × List (String × String))
add_parents child [] tree = tree
add_parents child ((parent, grouping) ∷ parents) tree =
    add_parents child parents (set parent (at_or parent [] tree ++ (child, grouping) ∷ []) tree)

unfoldable pub connection_tree :
    List BoltSpec → List (String × List (String × String)) → List (String × List (String × String))
connection_tree [] tree = tree
connection_tree (bs ∷ specs) tree = connection_tree specs (add_parents bs.name bs.parents tree)

pub record GroupedAddresses : Type 0 where
  pub child_name : String
  pub grouping : String
  pub addresses : List Address

-- The request CONFIG_CONNS: for each name the groups of its children.
unfoldable pub worker_connections :
    String → TopologySpec → TopoStats → List (String × List GroupedAddresses)
worker_connections topo_id spec stats =
    map
      (λ entry. (
        entry.0,
        map
            (λ child. record {
              child_name = child.0;
              grouping = child.1;
              addresses = get_topo_task_instances topo_id child.0 stats;
            })
            entry.1,
      ))
      (connection_tree spec.bolt_specs [])
