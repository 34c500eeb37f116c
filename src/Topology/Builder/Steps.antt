-- ===== src/Topology/Builder/Steps.antt =====
-- One step of the search of `buildTopology`: what it does to the map of the bolts.
use cranesps.Base.{
  string_key, ℕ, ◌+◌, String, ◌≡◌, Option, none, some, List, [], ◌∷◌, ◌++◌, arith, ◌⊎◌, List-cases,
  Option-cases, Bool-cases, inl, inr, if◌then◌else◌, append_nil,
}
use mathlib.Core.List.{append_assoc}
use cranesps.Base.Text.{str_eq, str_eq_iff}
use cranesps.Base.StdMap.{lookup, set, at_or, lookup-set}
use cranesps.Nimbus.Stats.{BoltSpec}
use cranesps.Nimbus.Assign.Counts.{occurrences}
use cranesps.Topology.Grouping.{GroupingScheme}
use cranesps.Topology.Builder.{
  Nodes, returns, Search, new_node, new_bolt, add_bolt, add_parent, edge_of, visit_child,
}

abbrev pub Edges : Type 0
Edges = List (String × String)

-- The edges from one parent to a name, in the order of the children.
unfoldable pub edges_from : String → List (String × GroupingScheme) → String → Edges
edges_from parent [] k = []
edges_from parent ((name, scheme) ∷ children) k =
    let rest = edges_from parent children k in
    if str_eq name k then edge_of parent scheme ∷ rest else rest

-- The edges to a name from the parents of a list.
unfoldable pub edges_to : Nodes → List String → String → Edges
edges_to nodes [] k = []
edges_to nodes (p ∷ ps) k =
    let n = at_or p new_node nodes in edges_from n.id n.children k ++ edges_to nodes ps k

-- The bolt of a name that has these edges, if it has one.
abbrev pub bolt_for : Nodes → String → Edges → Option BoltSpec
bolt_for nodes k [] = none
bolt_for nodes k (e ∷ es) = some (new_bolt (at_or k new_node nodes) (e ∷ es))

pub edges_to-snoc :
    (nodes : Nodes) (ps : List String) (p k : String)
    → let n = at_or p new_node nodes in
      edges_to nodes (ps ++ p ∷ []) k ≡ edges_to nodes ps k ++ edges_from n.id n.children k
unfolding edges_to
edges_to-snoc nodes [] p k =
    let n = at_or p new_node nodes in append_nil (edges_from n.id n.children k)
edges_to-snoc nodes (q ∷ ps) p k =
    let m = at_or q new_node nodes in
    let n = at_or p new_node nodes in
    cc (
      edges_to-snoc nodes ps p k,
      append_assoc (edges_from m.id m.children k) (edges_to nodes ps k)
          (edges_from n.id n.children k),
    )

abbrev pub count_at : String → List (String × BoltSpec) → ℕ
count_at k m = elim (lookup k m) [ none ↦ 0 | some _ ↦ 1 ]

occurrences-snoc :
    (k name : String) (xs : List String)
    → occurrences k (xs ++ name ∷ []) ≡ occurrences k xs + (if str_eq name k then 1 else 0)
unfolding occurrences
occurrences-snoc k name [] = ground arith
occurrences-snoc k name (x ∷ xs) = ground (arith, occurrences-snoc k name xs)

module _ (nodes : Nodes) where
  -- The map has the bolt of every name for its edges so far.
  abbrev Holds : List (String × BoltSpec) → (String → Edges) → Type 0
  Holds m es = (k : String) → lookup k m ≡ bolt_for nodes k (es k)

  bolt_for-more :
      (k : String) (es : Edges) (e : String × String) (bs : BoltSpec)
      → some bs ≡ bolt_for nodes k es
      → some (record bs { parents = bs.parents ++ e ∷ [] }) ≡ bolt_for nodes k (es ++ e ∷ [])
  bolt_for-more k [] e bs h = cc
  bolt_for-more k (x ∷ es) e bs h = ground (arith, h)

  abbrev pub one_edge : String → String × GroupingScheme → String → Edges
  one_edge parent c k = if str_eq c.0 k then edge_of parent c.1 ∷ [] else []

  -- The two ways in which the body of the inner loop returns.
  pub visit_child-cases :
      (parent name : String) (scheme : GroupingScheme) (s t : Search)
      → visit_child nodes parent (name, scheme) s ≡ returns t
      → ((lookup name s.bolt_map ≡ none)
          × (t
              ≡ add_bolt name
                  (new_bolt (at_or name new_node nodes) (edge_of parent scheme ∷ []))
                  s))
        ⊎ ((bs : BoltSpec) × (lookup name s.bolt_map ≡ some bs)
            × (t ≡ add_parent name bs (edge_of parent scheme) s))
  unfolding visit_child
  visit_child-cases parent name scheme s t run = elim (Option-cases (lookup name s.bolt_map)) [
    | inr (bs, old) ↦ inr (bs, old, ground (arith, old, run))
    | inl new ↦ elim (Option-cases (lookup name nodes)) [
      | inl missing ↦ absurd (ground (arith, new, missing, run))
      | inr (n, there) ↦ inl (new, ground (arith, new, there, run))
    ]
  ]

  module _ (k name : String) (e : String × String) (m : List (String × BoltSpec)) (es : Edges) where
    pub Holds-new :
        lookup name m ≡ none
        → lookup k m ≡ bolt_for nodes k es
        → lookup k (set name (new_bolt (at_or name new_node nodes) (e ∷ [])) m)
          ≡ bolt_for nodes k (es ++ (if str_eq name k then e ∷ [] else []))
    Holds-new new h = elim (Bool-cases (str_eq name k)) [
      | inl same ↦
          let b = new_bolt (at_or name new_node nodes) (e ∷ []) in
          elim (List-cases es) [
            | inl empty ↦ ground (arith, lookup-set name k b m, same, str_eq_iff name k, empty)
            | inr (x, rest, full) ↦ absurd (ground (arith, same, str_eq_iff name k, full, new, h))
          ]
      | inr other ↦
          let b = new_bolt (at_or name new_node nodes) (e ∷ []) in
          ground (arith, lookup-set name k b m, other, append_nil es, h)
    ]

    pub Holds-more :
        (bs : BoltSpec)
        → lookup name m ≡ some bs
        → lookup k m ≡ bolt_for nodes k es
        → lookup k (set name (record bs { parents = bs.parents ++ e ∷ [] }) m)
          ≡ bolt_for nodes k (es ++ (if str_eq name k then e ∷ [] else []))
    Holds-more bs old h =
        let more : BoltSpec = record bs { parents = bs.parents ++ e ∷ [] } in
        elim (Bool-cases (str_eq name k)) [
          | inl same ↦
              let here : some bs ≡ bolt_for nodes k es =
                ground (arith, same, str_eq_iff name k, old, h) in
              rw (lookup-set name k more m, same) (bolt_for-more k es e bs here)
          | inr other ↦ ground (arith, lookup-set name k more m, other, append_nil es, h)
        ]

    pub Counted-new :
        (found : List String) (b : BoltSpec)
        → lookup name m ≡ none
        → occurrences k found ≡ count_at k m
        → occurrences k (found ++ name ∷ []) ≡ count_at k (set name b m)
    Counted-new found b new h = elim (Bool-cases (str_eq name k)) [
      | inl same ↦ ground (
        arith,
        occurrences-snoc k name found,
        lookup-set name k b m,
        same,
        str_eq_iff name k,
        new,
        h,
      )
      | inr other ↦ ground (arith, occurrences-snoc k name found, lookup-set name k b m, other, h)
    ]

    pub Counted-more :
        (found : List String) (b c : BoltSpec)
        → lookup name m ≡ some c
        → occurrences k found ≡ count_at k m
        → occurrences k found ≡ count_at k (set name b m)
    Counted-more found b c old h = ground (arith, lookup-set name k b m, str_eq_iff name k, old, h)

  pub edges_from-cons :
      (parent k : String) (c : String × GroupingScheme) (children : List (String × GroupingScheme))
      → edges_from parent (c ∷ children) k ≡ one_edge parent c k ++ edges_from parent children k
  unfolding edges_from
  edges_from-cons parent k c children = ground arith
