-- ===== src/Nimbus/Assign/Connections.antt =====
-- The connections of a topology: the tree that `prepareTopology` builds, against the edges of the
-- specification.
use cranesps.Base.{
  string_key, String, ◌≡◌, refl, sym, ap, ◌∙◌, some, inl, inr, List, [], ◌∷◌, ◌++◌, arith, map,
  if◌then◌else◌, Bool-cases, Option-cases, append_nil,
}
use mathlib.Core.Option
use mathlib.Core.List.{append_assoc}
use cranesps.Base.Text.{str_eq, str_eq_iff}
use cranesps.Base.StdMap.{lookup, set, at_or, get_or, lookup-set}
use cranesps.Base.StdMap.Order.{IsSorted, Above, set-IsSorted}
use cranesps.Nimbus.Stats.{BoltSpec, TopologySpec, TopoStats, get_topo_task_instances}
use cranesps.Nimbus.Assign.{add_parents, connection_tree, GroupedAddresses, worker_connections}

-- The edges from a name: each bolt that has it as a parent, with the grouping, in order.
abbrev edges_of : String → String → List (String × String) → List (String × String)
edges_of x child [] = []
edges_of x child ((parent, grouping) ∷ parents) =
    let rest = edges_of x child parents in
    if str_eq parent x then (child, grouping) ∷ rest else rest

abbrev pub children : String → List BoltSpec → List (String × String)
children x [] = []
children x (bs ∷ specs) = edges_of x bs.name bs.parents ++ children x specs

at_or-add_parents :
    (x child : String) (parents : List (String × String))
    (tree : List (String × List (String × String)))
    → at_or x [] (add_parents child parents tree) ≡ at_or x [] tree ++ edges_of x child parents
unfolding add_parents
at_or-add_parents x child [] tree = sym (append_nil (at_or x [] tree))
at_or-add_parents x child ((parent, grouping) ∷ parents) tree =
    let more = at_or parent [] tree ++ (child, grouping) ∷ [] in
    let ih = at_or-add_parents x child parents (set parent more tree) in
    let now = lookup-set parent x more tree in
    elim (Bool-cases (str_eq parent x)) [
      | inl same ↦
          let e = (str_eq_iff parent x).0 same in
          let here : at_or x [] (set parent more tree) ≡ at_or x [] tree ++ (child, grouping) ∷ [] =
            ground (arith, now, same, e) in
          rw same (
            ih
            ∙ ap (λ l. l ++ edges_of x child parents) here
            ∙ append_assoc (at_or x [] tree) ((child, grouping) ∷ []) (edges_of x child parents))
      | inr other ↦
          let kept : at_or x [] (set parent more tree) ≡ at_or x [] tree =
            ground (arith, now, other) in
          rw other (ih ∙ ap (λ l. l ++ edges_of x child parents) kept)
    ]

at_or-connection_tree :
    (x : String) (specs : List BoltSpec) (tree : List (String × List (String × String)))
    → at_or x [] (connection_tree specs tree) ≡ at_or x [] tree ++ children x specs
unfolding connection_tree
at_or-connection_tree x [] tree = sym (append_nil (at_or x [] tree))
at_or-connection_tree x (bs ∷ specs) tree =
    at_or-connection_tree x specs (add_parents bs.name bs.parents tree)
    ∙ ap (λ l. l ++ children x specs) (at_or-add_parents x bs.name bs.parents tree)
    ∙ append_assoc (at_or x [] tree) (edges_of x bs.name bs.parents) (children x specs)

add_parents-IsSorted :
    (child : String) (parents : List (String × String))
    (tree : List (String × List (String × String)))
    → IsSorted tree
    → IsSorted (add_parents child parents tree)
unfolding add_parents
add_parents-IsSorted child [] tree s = s
add_parents-IsSorted child ((parent, grouping) ∷ parents) tree s =
    add_parents-IsSorted child parents _ (set-IsSorted parent _ tree s)

pub connection_tree-IsSorted :
    (specs : List BoltSpec) (tree : List (String × List (String × String)))
    → IsSorted tree
    → IsSorted (connection_tree specs tree)
unfolding connection_tree
connection_tree-IsSorted [] tree s = s
connection_tree-IsSorted (bs ∷ specs) tree s =
    connection_tree-IsSorted specs _ (add_parents-IsSorted bs.name bs.parents tree s)

module _ (topo_id : String) (stats : TopoStats) where
  -- A child with the addresses of its workers.
  abbrev pub group : String × String → GroupedAddresses
  group child = record {
    child_name = child.0;
    grouping = child.1;
    addresses = get_topo_task_instances topo_id child.0 stats;
  }

  grouped : List (String × List (String × String)) → List (String × List GroupedAddresses)
  grouped tree = map (λ entry. (entry.0, map group entry.1)) tree

  lookup-grouped :
      (x : String) (tree : List (String × List (String × String)))
      → lookup x (grouped tree) ≡ Option.map (map group) (lookup x tree)
  unfolding grouped lookup
  lookup-grouped x [] = refl
  lookup-grouped x ((j, v) ∷ tree) = elim (Bool-cases (str_eq j x)) [
    | inl here ↦ rw here refl
    | inr other ↦ rw other (lookup-grouped x tree)
  ]

  grouped-Above :
      (k : String) (tree : List (String × List (String × String)))
      → Above k tree
      → Above k (grouped tree)
  unfolding grouped
  grouped-Above k [] a = tt
  grouped-Above k ((j, v) ∷ tree) a = (a.0, grouped-Above k tree a.1)

  grouped-IsSorted :
      (tree : List (String × List (String × String))) → IsSorted tree → IsSorted (grouped tree)
  unfolding grouped
  grouped-IsSorted [] s = tt
  grouped-IsSorted ((j, v) ∷ tree) s = (grouped-Above j tree s.0, grouped-IsSorted tree s.1)

  pub worker_connections-IsSorted :
      (spec : TopologySpec) → IsSorted (worker_connections topo_id spec stats)
  unfolding worker_connections grouped
  worker_connections-IsSorted spec =
      grouped-IsSorted (connection_tree spec.bolt_specs [])
        (connection_tree-IsSorted spec.bolt_specs [] tt)

  -- A name with children is sent exactly the groups of its children, in the order of the bolts.
  pub lookup-worker_connections :
      (spec : TopologySpec) (x : String) (c : String × String) (cs : List (String × String))
      → children x spec.bolt_specs ≡ c ∷ cs
      → lookup x (worker_connections topo_id spec stats)
        ≡ some (map group (children x spec.bolt_specs))
  unfolding worker_connections grouped
  lookup-worker_connections spec x c cs some_child =
      let tree = connection_tree spec.bolt_specs [] in
      let all : at_or x [] tree ≡ children x spec.bolt_specs =
        unfold lookup in at_or-connection_tree x spec.bolt_specs [] in
      elim (Option-cases (lookup x tree)) [
        | inl gone ↦
            let none_there : at_or x [] tree ≡ [] = ground (arith, gone) in
            absurd (nil_cons (sym none_there ∙ all ∙ some_child))
        | inr (v, held) ↦
            let same : v ≡ children x spec.bolt_specs = sym (ap (λ o. get_or o []) held) ∙ all in
            lookup-grouped x tree
            ∙ ap (Option.map (map group)) held
            ∙ ap (λ l. some (map group l)) same
      ]
    where
      nil_cons : {A : Type 0} {x : A} {xs : List A} → [] ≡ x ∷ xs → ⊥
      nil_cons e = cc e
