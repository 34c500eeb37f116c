-- ===== src/Topology/Builder/Built.antt =====
-- The graphs that calls of the builder can make: every child in them has a node.
use cranesps.Base.{
  string_key, ℕ, String, ◌≡◌, refl, some, [], ◌∷◌, ◌++◌, All, All-snoc, All-imp, arith,
  Option-cases, Bool-cases, inl, inr, subst,
}
use cranesps.Base.Text.{str_eq, str_eq_iff}
use cranesps.Base.StdMap.{lookup, set, lookup-set}
use cranesps.Topology.Grouping.{GroupingScheme, default}
use cranesps.Topology.Builder.{
  Node, Nodes, returns, new_node, new_builder, set_node, set_parent, set_spout, set_bolt,
  >>=-eq-returns,
}
use cranesps.Topology.Builder.Ends.{Exists, IsClosed}

-- Programs of builder calls. `setParent` is called on a node that an earlier call returned.
pub data Built : Nodes → Type 0 where
  begin : Built (new_builder [])
  spout :
      (nodes after : Nodes) (id run_name : String)
      → Built nodes
      → set_spout id run_name nodes ≡ returns after
      → Built after
  bolt :
      (nodes after : Nodes) (id run_name : String) (para_level : ℕ)
      → Built nodes
      → set_bolt id run_name para_level nodes ≡ returns after
      → Built after
  parent :
      (nodes after : Nodes) (id own_id : String) (scheme : GroupingScheme)
      → Built nodes
      → Exists nodes own_id
      → set_parent id scheme own_id nodes ≡ returns after
      → Built after

Exists-set :
    (nodes : Nodes) (id name : String) (n : Node) → Exists nodes name → Exists (set id n nodes) name
Exists-set nodes id name n (m, there) = elim (Bool-cases (str_eq id name)) [
  | inl same ↦ (n, ground (arith, lookup-set id name n nodes, same))
  | inr other ↦ (m, ground (arith, lookup-set id name n nodes, other, there))
]

abbrev HasChild : Nodes → String × GroupingScheme → Type 0
HasChild nodes c = Exists nodes c.0

-- A node may be written whose children are there.
set-IsClosed :
    (nodes : Nodes) (id : String) (n : Node)
    → IsClosed nodes
    → All (λ c. Exists nodes c.0) n.children
    → IsClosed (set id n nodes)
set-IsClosed nodes id n closed a k m there = elim (Bool-cases (str_eq id k)) [
  | inl same ↦
      let e : n ≡ m = ground (arith, lookup-set id k n nodes, same, there) in
      subst (λ (x : Node). All (λ c. Exists (set id n nodes) c.0) x.children) e
        (All-imp (HasChild nodes) (HasChild (set id n nodes)) n.children
          (λ c. Exists-set nodes id c.0 n) a)
  | inr other ↦
      let old : lookup k nodes ≡ some m = ground (arith, lookup-set id k n nodes, other, there) in
      All-imp (HasChild nodes) (HasChild (set id n nodes)) m.children
        (λ c. Exists-set nodes id c.0 n) (closed k m old)
]

set_parent-IsClosed :
    (nodes after : Nodes) (id own_id : String) (scheme : GroupingScheme)
    → IsClosed nodes
    → Exists nodes own_id
    → set_parent id scheme own_id nodes ≡ returns after
    → (name : String) → Exists nodes name
    → IsClosed after × Exists after name
unfolding set_parent
set_parent-IsClosed nodes after id own_id scheme closed own run name named =
    elim (Option-cases (lookup id nodes)) [
      | inl missing ↦ absurd (ground (arith, missing, run))
      | inr (n, there) ↦
          let grown : Node = record n { children = n.children ++ (own_id, scheme) ∷ [] } in
          let e : set id grown nodes ≡ after = ground (arith, there, run) in
          subst (λ x. IsClosed x × Exists x name) e
            (
              set-IsClosed nodes id grown closed
                  (All-snoc (HasChild nodes) n.children (own_id, scheme) (closed id n there) own),
              Exists-set nodes id name grown named,
            )
    ]

set_node-IsClosed :
    (nodes after : Nodes) (id run_name : String) (para_level : ℕ)
    → IsClosed nodes
    → set_node id run_name para_level nodes ≡ returns after
    → (name : String) → Exists nodes name
    → IsClosed after × Exists after id × Exists after name
unfolding set_node
set_node-IsClosed nodes after id run_name para_level closed run name named =
    elim (Option-cases (lookup id nodes)) [
      | inr (n, there) ↦ absurd (ground (arith, there, run))
      | inl new ↦
          let made : Node = record {
            id = id;
            run_name = run_name;
            para_level = para_level;
            children = [];
          } in
          let e : set id made nodes ≡ after = ground (arith, new, run) in
          subst (λ x. IsClosed x × Exists x id × Exists x name) e
            (
              set-IsClosed nodes id made closed tt,
              (made, ground (arith, lookup-set id id made nodes, str_eq_iff id id)),
              Exists-set nodes id name made named,
            )
    ]

-- The root is there, and every child of a node is a node.
pub Built-IsClosed : (nodes : Nodes) → Built nodes → IsClosed nodes × Exists nodes "root"
unfolding set_spout lookup set
Built-IsClosed _ begin = (λ k n there. ground (arith, there), (new_node, refl))
Built-IsClosed _ (spout nodes after id run_name b run) =
    let (closed, root) = Built-IsClosed nodes b in
    let (mid, made, linked) =
      >>=-eq-returns (set_node id run_name 1 nodes) (set_parent "root" default id) run in
    let (closed', own, root') = set_node-IsClosed nodes mid id run_name 1 closed made "root" root in
    set_parent-IsClosed mid after "root" id default closed' own linked "root" root'
Built-IsClosed _ (bolt nodes after id run_name para_level b run) =
    let (closed, root) = Built-IsClosed nodes b in
    let (closed', _, root') =
      set_node-IsClosed nodes after id run_name para_level closed run "root" root in
    (closed', root')
Built-IsClosed _ (parent nodes after id own_id scheme b own run) =
    let (closed, root) = Built-IsClosed nodes b in
    set_parent-IsClosed nodes after id own_id scheme closed own run "root" root
