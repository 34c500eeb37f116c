-- ===== src/Tests/Builders.antt =====
-- Topologies made by the builder.
use cranesps.Base.{◌≡◌, refl, List, [], ◌∷◌, string_key}
use cranesps.Base.StdMap.{lookup, set}
use cranesps.Topology.Grouping.{shuffle, field, default, get_grouping_string}
use cranesps.Nimbus.Stats.{SpoutSpec, BoltSpec, TopologySpec, empty_spec}
use cranesps.Topology.Builder.{
  Nodes, returns, invalid_argument, new_builder, set_spout, set_bolt, set_parent, set_node,
  build_topology, spouts_of, search_bolts, visit, visit_children, visit_child,
}
use cranesps.Topology.Builder.Built.{Built, begin, spout, bolt, parent}
use cranesps.Topology.Builder.Exact.{IsSpecOf, build_topology_exact}

-- A spout `a`, and bolts `b` and `c` that feed each other.
abbrev with_a : Nodes
with_a =
    ("a", record { id = "a"; run_name = "A"; para_level = 1; children = [] })
    ∷ ("root", record { id = ""; run_name = ""; para_level = 0; children = ("a", default) ∷ [] })
    ∷ []

abbrev with_b : Nodes
with_b =
    ("a", record { id = "a"; run_name = "A"; para_level = 1; children = [] })
    ∷ ("b", record { id = "b"; run_name = "B"; para_level = 2; children = [] })
    ∷ ("root", record { id = ""; run_name = ""; para_level = 0; children = ("a", default) ∷ [] })
    ∷ []

abbrev with_c : Nodes
with_c =
    ("a", record { id = "a"; run_name = "A"; para_level = 1; children = [] })
    ∷ ("b", record { id = "b"; run_name = "B"; para_level = 2; children = [] })
    ∷ ("c", record { id = "c"; run_name = "C"; para_level = 3; children = [] })
    ∷ ("root", record { id = ""; run_name = ""; para_level = 0; children = ("a", default) ∷ [] })
    ∷ []

abbrev a_to_b : Nodes
a_to_b =
    ("a", record { id = "a"; run_name = "A"; para_level = 1; children = ("b", shuffle) ∷ [] })
    ∷ ("b", record { id = "b"; run_name = "B"; para_level = 2; children = [] })
    ∷ ("c", record { id = "c"; run_name = "C"; para_level = 3; children = [] })
    ∷ ("root", record { id = ""; run_name = ""; para_level = 0; children = ("a", default) ∷ [] })
    ∷ []

abbrev b_to_c : Nodes
b_to_c =
    ("a", record { id = "a"; run_name = "A"; para_level = 1; children = ("b", shuffle) ∷ [] })
    ∷ ("b", record { id = "b"; run_name = "B"; para_level = 2; children = ("c", field) ∷ [] })
    ∷ ("c", record { id = "c"; run_name = "C"; para_level = 3; children = [] })
    ∷ ("root", record { id = ""; run_name = ""; para_level = 0; children = ("a", default) ∷ [] })
    ∷ []

abbrev c_to_b : Nodes
c_to_b =
    ("a", record { id = "a"; run_name = "A"; para_level = 1; children = ("b", shuffle) ∷ [] })
    ∷ ("b", record { id = "b"; run_name = "B"; para_level = 2; children = ("c", field) ∷ [] })
    ∷ ("c", record { id = "c"; run_name = "C"; para_level = 3; children = ("b", shuffle) ∷ [] })
    ∷ ("root", record { id = ""; run_name = ""; para_level = 0; children = ("a", default) ∷ [] })
    ∷ []

abbrev built : Built c_to_b
unfolding set_spout set_node set_parent lookup set
built =
    parent b_to_c c_to_b "c" "b" shuffle
      (parent a_to_b b_to_c "b" "c" field
        (parent with_c a_to_b "a" "b" shuffle
          (bolt with_b with_c "c" "C" 3
            (bolt with_a with_b "b" "B" 2 (spout (new_builder []) with_a "a" "A" begin refl) refl)
            refl)
          (_, refl) refl)
        (_, refl) refl)
      (_, refl) refl

build_topology_exact_example :
    (spec : TopologySpec) × (build_topology "loop" c_to_b ≡ returns spec)
    × IsSpecOf c_to_b "loop" spec
build_topology_exact_example = build_topology_exact c_to_b "loop" built

-- The same bolts and parents, computed.
loop_bolts :
    (bolts : List BoltSpec) × (spouts : List SpoutSpec) × (build_topology "loop" c_to_b
      ≡ returns (record empty_spec { name = "loop"; bolt_specs = bolts; spout_specs = spouts }))
unfolding build_topology search_bolts visit visit_children visit_child spouts_of lookup set
    get_grouping_string
loop_bolts = (_, _, refl)

existing_refused : set_bolt "b" "B" 2 with_b ≡ invalid_argument
unfolding set_node lookup
existing_refused = refl
