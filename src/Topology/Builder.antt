-- ===== src/Topology/Builder.antt =====
-- `TopologyBuilder` and its `Node`s: building the graph of a topology, and its specification by a
-- search from the spouts. One builder is alive, so its virtual root is the node of the name `root`.
pub mod Ends
pub mod Built
pub mod Steps
pub mod Found
pub mod Exact
use cranesps.Base.{
  string_key, ◌≡◌, refl, ℕ, zero, suc, String, Option, none, some, List, [], ◌∷◌, ◌++◌, map, length,
  ◌+◌,
}
use cranesps.Base.StdMap.{lookup, set, at_or}
use cranesps.Nimbus.Stats.{SpoutSpec, BoltSpec, TopologySpec, empty_spec}
use cranesps.Topology.Grouping.{GroupingScheme, default, get_grouping_string}

pub record Node : Type 0 where
  pub id : String
  pub run_name : String
  pub para_level : ℕ
  pub children : List (String × GroupingScheme)

abbrev pub new_node : Node
new_node = record { id = ""; run_name = ""; para_level = 0; children = [] }

-- `nodeTypeMap`.
abbrev pub Nodes : Type 0
Nodes = List (String × Node)

-- How a call ends: with a result, with the exception of `setNode`, or at a null pointer, where a
-- name has no node. `out_of_fuel` is the model's own.
pub data Outcome {ℓ} (A : Type ℓ) : Type ℓ where
  returns : A → Outcome A
  invalid_argument null_node out_of_fuel : Outcome A

infixl 5 ◌>>=◌
abbrev pub ◌>>=◌ {ℓ κ} : {A : Type ℓ} {B : Type κ} → Outcome A → (A → Outcome B) → Outcome B
returns a >>= f = f a
invalid_argument >>= f = invalid_argument
null_node >>= f = null_node
out_of_fuel >>= f = out_of_fuel

pub >>=-eq-returns {ℓ κ} :
    {A : Type ℓ} {B : Type κ} (m : Outcome A) (f : A → Outcome B) {b : B}
    → (m >>= f) ≡ returns b
    → (a : A) × (m ≡ returns a) × (f a ≡ returns b)
>>=-eq-returns (returns a) f h = (a, refl, h)
>>=-eq-returns invalid_argument f h = cc
>>=-eq-returns null_node f h = cc
>>=-eq-returns out_of_fuel f h = cc

-- A read of `nodeTypeMap` through which the source goes on at once.
abbrev pub node_at : String → Nodes → Outcome Node
node_at id nodes = elim (lookup id nodes) [ none ↦ null_node | some n ↦ returns n ]

abbrev pub new_builder : Nodes → Nodes
new_builder = set "root" new_node

unfoldable pub set_parent : String → GroupingScheme → String → Nodes → Outcome Nodes
set_parent id scheme own_id nodes = do
  parent ← node_at id nodes
  returns (set id (record parent { children = parent.children ++ (own_id, scheme) ∷ [] }) nodes)

unfoldable pub set_node : String → String → ℕ → Nodes → Outcome Nodes
set_node id run_name para_level nodes = elim (lookup id nodes) [
  | some _ ↦ invalid_argument
  | none ↦
      returns
        (set id (record new_node { id = id; run_name = run_name; para_level = para_level }) nodes)
]

unfoldable pub set_spout : String → String → Nodes → Outcome Nodes
set_spout id run_name nodes = do
  after ← set_node id run_name 1 nodes
  set_parent "root" default id after

abbrev pub set_bolt : String → String → ℕ → Nodes → Outcome Nodes
set_bolt = set_node

-- The local variables of `buildTopology`.
pub record Search : Type 0 where
  pub queue : List String
  pub bolt_map : List (String × BoltSpec)

-- The loop over the children of the root: the queue and the spouts.
unfoldable pub spouts_of :
    Nodes → List (String × GroupingScheme) → Outcome (List String × List SpoutSpec)
spouts_of nodes [] = returns ([], [])
spouts_of nodes ((name, _) ∷ children) = do
  spout ← node_at name nodes
  (queue, specs) ← spouts_of nodes children
  returns (name ∷ queue, record { name = spout.id; run_name = spout.run_name } ∷ specs)

-- The two ways in which a child meets `boltMap`: as a new bolt, or with one more parent.
abbrev pub new_bolt : Node → List (String × String) → BoltSpec
new_bolt bolt parents = record {
  name = bolt.id;
  parents = parents;
  run_name = bolt.run_name;
  para_level = bolt.para_level;
}

abbrev pub add_bolt : String → BoltSpec → Search → Search
add_bolt name bs s = record { queue = s.queue ++ name ∷ []; bolt_map = set name bs s.bolt_map }

abbrev pub add_parent : String → BoltSpec → String × String → Search → Search
add_parent name bs edge s = record s {
  bolt_map = set name (record bs { parents = bs.parents ++ edge ∷ [] }) s.bolt_map;
}

abbrev pub edge_of : String → GroupingScheme → String × String
edge_of parent scheme = (parent, get_grouping_string scheme)

-- The body of the inner loop, for one child of a parent.
unfoldable pub visit_child : Nodes → String → String × GroupingScheme → Search → Outcome Search
visit_child nodes parent (name, scheme) s = elim (lookup name s.bolt_map) [
  | none ↦ do
    bolt ← node_at name nodes
    returns (add_bolt name (new_bolt bolt (edge_of parent scheme ∷ [])) s)
  | some bs ↦ returns (add_parent name bs (edge_of parent scheme) s)
]

unfoldable pub visit_children :
    Nodes → String → List (String × GroupingScheme) → Search → Outcome Search
visit_children nodes parent [] s = returns s
visit_children nodes parent (child ∷ children) s = do
  next ← visit_child nodes parent child s
  visit_children nodes parent children next

-- A round of the outer loop, after `queue.pop()`.
unfoldable pub visit : Nodes → String → Search → Outcome Search
visit nodes id s = do parent ← node_at id nodes; visit_children nodes parent.id parent.children s

unfoldable pub search_bolts : Nodes → ℕ → Search → Outcome Search
search_bolts nodes zero s = elim s.queue [ [] ↦ returns s | _ ∷ _ ↦ out_of_fuel ]
search_bolts nodes (suc fuel) s = elim s.queue [
  | [] ↦ returns s
  | id ∷ rest ↦ do next ← visit nodes id (record s { queue = rest }); search_bolts nodes fuel next
]

-- Every spout is one round, and every node at most one more.
unfoldable pub build_topology : String → Nodes → Outcome TopologySpec
build_topology name nodes = do
  (queue, specs) ← spouts_of nodes (at_or "root" new_node nodes).children
  last ← search_bolts nodes (length queue + length nodes) (record { queue = queue; bolt_map = [] })
  returns (record empty_spec {
    name = name;
    spout_specs = specs;
    bolt_specs = map (λ entry. entry.1) last.bolt_map;
  })
