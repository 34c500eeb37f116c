-- ===== src/Topology/Builder/Ends.antt =====
-- `buildTopology` ends: each round of the search pops a name and queues only names that become bolts.
use cranesps.Base.{
  string_key, ℕ, zero, suc, ◌+◌, ◌≤◌, ◌<◌, String, ◌≡◌, refl, none, some, List, [], ◌∷◌, ◌++◌, map,
  length, length-append, List-cases, Option-cases, All, All-snoc, arith, inl, inr, ap,
}
use cranesps.Base.Text.{str_eq_iff}
use cranesps.Base.StdMap.{lookup, set, at_or, lookup-set}
use cranesps.Nimbus.Stats.{SpoutSpec, BoltSpec}
use cranesps.Topology.Grouping.{GroupingScheme}
use cranesps.Topology.Builder.{
  Node, Nodes, Outcome, returns, Search, new_node, new_bolt, add_bolt, add_parent, edge_of,
  visit_child, visit_children, visit, search_bolts, spouts_of, node_at,
}

-- A name that has a node.
abbrev pub Exists : Nodes → String → Type 0
Exists nodes name = (n : Node) × (lookup name nodes ≡ some n)

-- Every child of a node has a node.
abbrev pub IsClosed : Nodes → Type 0
IsClosed nodes =
    (k : String) (n : Node) → lookup k nodes ≡ some n → All (λ c. Exists nodes c.0) n.children

-- The nodes that are no bolts yet.
unfoldable pub unseen : Nodes → List (String × BoltSpec) → ℕ
unseen [] m = 0
unseen ((k, n) ∷ nodes) m =
    let rest = unseen nodes m in elim (lookup k m) [ none ↦ suc rest | some _ ↦ rest ]

unseen-nil : (nodes : Nodes) → unseen nodes [] ≡ length nodes
unfolding unseen lookup
unseen-nil [] = refl
unseen-nil (_ ∷ nodes) = ap suc (unseen-nil nodes)

unseen-set :
    (nodes : Nodes) (k : String) (v : BoltSpec) (m : List (String × BoltSpec))
    → unseen nodes (set k v m) ≤ unseen nodes m
unfolding unseen
unseen-set [] k v m = omega arith
unseen-set ((j, n) ∷ nodes) k v m = ground (arith, lookup-set k j v m, unseen-set nodes k v m)

unseen-set-lt :
    (nodes : Nodes) (k : String) (n : Node) (v : BoltSpec) (m : List (String × BoltSpec))
    → lookup k nodes ≡ some n
    → lookup k m ≡ none
    → unseen nodes (set k v m) < unseen nodes m
unfolding unseen lookup
unseen-set-lt [] k n v m there new = absurd (ground (arith, there))
unseen-set-lt ((j, x) ∷ nodes) k n v m there new = ground (
  arith,
  str_eq_iff j k,
  str_eq_iff k j,
  lookup-set k j v m,
  unseen-set nodes k v m,
  unseen-set-lt nodes k n v m,
)

module _ (nodes : Nodes) where
  abbrev pub work : Search → ℕ
  work s = length s.queue + unseen nodes s.bolt_map

  -- The call returns, adds no work and queues nodes.
  abbrev pub Advances : Search → Outcome Search → Type 0
  Advances s o =
      (next : Search) × (o ≡ returns next) × (work next ≤ work s) × All (Exists nodes) next.queue

  visit_child-Advances :
      (parent : String) (child : String × GroupingScheme) (s : Search)
      → Exists nodes child.0
      → All (Exists nodes) s.queue
      → Advances s (visit_child nodes parent child s)
  unfolding visit_child
  visit_child-Advances parent (name, scheme) s (n, there) q =
      let edge : String × String = edge_of parent scheme in
      elim (Option-cases (lookup name s.bolt_map)) [
        | inl new ↦
            let bs = new_bolt n (edge ∷ []) in
            (
              add_bolt name bs s,
              rw (visit_child, new, node_at, there),
              omega (
                arith,
                length-append s.queue (name ∷ []),
                unseen-set-lt nodes name n bs s.bolt_map there new,
              ),
              All-snoc (Exists nodes) s.queue name q (n, there),
            )
        | inr (bs, old) ↦
            let more : BoltSpec = record bs { parents = bs.parents ++ edge ∷ [] } in
            (
              add_parent name bs edge s,
              rw (visit_child, old),
              omega (arith, unseen-set nodes name more s.bolt_map),
              q,
            )
      ]

  visit_children-Advances :
      (parent : String) (children : List (String × GroupingScheme)) (s : Search)
      → All (λ c. Exists nodes c.0) children
      → All (Exists nodes) s.queue
      → Advances s (visit_children nodes parent children s)
  unfolding visit_children
  visit_children-Advances parent [] s e q = (s, refl, omega arith, q)
  visit_children-Advances parent (child ∷ children) s e q =
      let (mid, run, less, q') = visit_child-Advances parent child s e.0 q in
      let (last, runs, lesser, q'') = visit_children-Advances parent children mid e.1 q' in
      (last, rw (visit_children, run) runs, omega arith, q'')

  search_bolts-returns :
      IsClosed nodes
      → (fuel : ℕ) (s : Search) → All (Exists nodes) s.queue
      → work s ≤ fuel
      → (t : Search) × (search_bolts nodes fuel s ≡ returns t)
  unfolding search_bolts visit
  search_bolts-returns closed zero s q enough = elim (List-cases s.queue) [
    | inl empty ↦ (s, simp (search_bolts, empty))
    | inr (id, rest, e) ↦ absurd (omega (arith, ap length e))
  ]
  search_bolts-returns closed (suc fuel) s q enough = elim (List-cases s.queue) [
    | inl empty ↦ (s, simp (search_bolts, empty))
    | inr (id, rest, e) ↦
        let q' : All (Exists nodes) (id ∷ rest) = rw e at q in
        let (n, there) = q'.0 in
        let (next, run, less, kept) =
          visit_children-Advances n.id n.children (record s { queue = rest }) (closed id n there)
            q'.1 in
        let (last, runs) =
          search_bolts-returns closed fuel next kept (omega (arith, ap length e)) in
        (last, rw (search_bolts, e, visit, node_at, there, run) runs)
  ]

  -- The spouts in the order of the root's children.
  abbrev pub spout_specs : List (String × GroupingScheme) → List SpoutSpec
  spout_specs =
      map (λ c. let n = at_or c.0 new_node nodes in record { name = n.id; run_name = n.run_name })

  pub spouts_of-returns :
      (children : List (String × GroupingScheme))
      → All (λ c. Exists nodes c.0) children
      → spouts_of nodes children ≡ returns (map (λ c. c.0) children, spout_specs children)
  unfolding spouts_of
  spouts_of-returns [] e = refl
  spouts_of-returns ((name, scheme) ∷ children) ((n, there), e) =
      rw (spouts_of, node_at, there, spouts_of-returns children e)

  pub Exists-map :
      (children : List (String × GroupingScheme))
      → All (λ c. Exists nodes c.0) children
      → All (Exists nodes) (map (λ c. c.0) children)
  Exists-map [] e = tt
  Exists-map (c ∷ children) e = (e.0, Exists-map children e.1)

  -- The search ends within the fuel that `buildTopology` has in the model.
  pub search-returns :
      IsClosed nodes
      → (root : Node) → lookup "root" nodes ≡ some root
      → let queue = map (λ (c : String × GroupingScheme). c.0) root.children in
        (t : Search) × (search_bolts nodes
            (length queue + length nodes)
            (record { queue = queue; bolt_map = [] })
          ≡ returns t)
  search-returns closed root there =
      let queue = map (λ (c : String × GroupingScheme). c.0) root.children in
      search_bolts-returns closed (length queue + length nodes)
        (record { queue = queue; bolt_map = [] })
        (Exists-map root.children (closed "root" root there)) (omega (arith, unseen-nil nodes))
