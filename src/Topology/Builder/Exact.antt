-- ===== src/Topology/Builder/Exact.antt =====
-- What `buildTopology` finds: the bolts that the spouts lead to, with all their parents.
use cranesps.Base.{
  string_key, ◌+◌, String, ◌≡◌, refl, sym, some, List, [], ◌++◌, map, length, All, All-get,
  append_nil,
}
use cranesps.Base.StdMap.{lookup}
use cranesps.Base.StdMap.Order.{IsSorted}
use cranesps.Nimbus.Stats.{BoltSpec, TopologySpec, empty_spec}
use cranesps.Nimbus.Assign.Counts.{occurrences}
use cranesps.Topology.Grouping.{GroupingScheme}
use cranesps.Topology.Builder.{Node, Nodes, returns, Search, build_topology}
use cranesps.Topology.Builder.Ends.{spout_specs, spouts_of-returns, search-returns}
use cranesps.Topology.Builder.Built.{Built, Built-IsClosed}
use cranesps.Topology.Builder.Steps.{edges_to, bolt_for, count_at}
use cranesps.Topology.Builder.Found.{Reachable, from_spout, IsFound, search_bolts-IsComplete}

-- The specification against the graph.
pub record IsSpecOf (nodes : Nodes) (name : String) (spec : TopologySpec) : Type 0 where
  pub root : Node
  pub is_root : lookup "root" nodes ≡ some root
  pub found : List String
  pub bolts : List (String × BoltSpec)
  pub named : spec.name ≡ name
  pub spouts : spec.spout_specs ≡ spout_specs nodes root.children
  pub in_order : IsSorted bolts
  pub listed : spec.bolt_specs ≡ map (λ entry. entry.1) bolts
  pub once : (k : String) → occurrences k found ≡ count_at k bolts
  pub reached : All (Reachable nodes (map (λ c. c.0) root.children)) found
  pub parents :
      (k : String)
      → lookup k bolts ≡ bolt_for nodes k (edges_to nodes (map (λ c. c.0) root.children ++ found) k)

-- A topology that calls of the builder made has a specification: the search ends and meets no
-- name without a node. Its spouts are those of the root in order; its bolts, in the order of their
-- names, are exactly those found, each once, and each can be reached from a spout. The parents of a bolt
-- are all the edges to it from the spouts and from the bolts found, with their groupings.
pub build_topology_exact :
    (nodes : Nodes) (name : String)
    → Built nodes
    → (spec : TopologySpec) × (build_topology name nodes ≡ returns spec) × IsSpecOf nodes name spec
unfolding build_topology lookup edges_to occurrences
build_topology_exact nodes name b =
    let (closed, exists) = Built-IsClosed nodes b in
    let (root, there) = exists in
    let names = map (λ (c : String × GroupingScheme). c.0) root.children in
    let first : Search = record { queue = names; bolt_map = [] } in
    let (last, ends) = search-returns nodes closed root there in
    let start : IsFound nodes names [] [] (edges_to nodes []) first = record {
      holds = λ k. refl;
      counted = λ k. refl;
      sorted = tt;
      order = sym (append_nil names);
      reached = tt;
      waiting = All-get (Reachable nodes names) names (λ i x at. from_spout i x at);
    } in
    let (found, h) =
      search_bolts-IsComplete nodes names (length names + length nodes) first last [] [] start
        ends in
    let spec : TopologySpec = record empty_spec {
      name = name;
      spout_specs = spout_specs nodes root.children;
      bolt_specs = map (λ entry. entry.1) last.bolt_map;
    } in
    (
      spec,
      rw (
        build_topology,
        there,
        spouts_of-returns nodes root.children (closed "root" root there),
        ends,
      ),
      record {
        root = root;
        is_root = there;
        found = found;
        bolts = last.bolt_map;
        named = refl;
        spouts = refl;
        in_order = h.sorted;
        listed = refl;
        once = h.counted;
        reached = h.reached;
        parents = h.holds;
      },
    )
