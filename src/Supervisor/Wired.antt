-- ===== src/Supervisor/Wired.antt =====
-- The workers of a topology that Nimbus prepares, connected as its specification says.
use mathlib.Core.Option
use mathlib.Core.Path.{fun_ext}
use cranesps.Base.{
  append_nil, string_key, String, ◌≡◌, refl, sym, ap, ◌∙◌, subst, Bool, none, some, inl, inr, List,
  [], ◌∷◌, ◌++◌, arith, map, All, All-imp, Option-cases,
}
use cranesps.Base.Text.{str_eq_iff}
use cranesps.Base.StdMap.{lookup, lookup-set, lookup-set_self}
use cranesps.Nimbus.Stats.{
  Nimbus, TopoStats, update_supervisors, on_tracker, set_topo_status, get_topo_spec,
  get_topo_task_instances,
}
use cranesps.Nimbus.Assign.{Assignment, GroupedAddresses, tasks, run_map, worker_connections}
use cranesps.Nimbus.Assign.Connections.{
  children, group, worker_connections-IsSorted, lookup-worker_connections,
}
use cranesps.Nimbus.Lifecycle.{
  NimbusRequest, World, add_workers, config_conns, create_and_connect, prepare_topology,
}
use cranesps.Nimbus.Requests.Status.{HasOther, assign-some, length-filter}
use cranesps.Nimbus.Requests.Workers.{get_topo_spec-set_topo_status}
use cranesps.Nimbus.Requests.Replies.{
  replied, replied-append, replied-config, IsTracked, workers_replied,
}
use cranesps.Supervisor.{Supervisor, create_worker_id}
use cranesps.Supervisor.Cluster.{
  Cluster, addressee, IsThere, IsThere-set, serve, serve-there, serve_all,
}
use cranesps.Supervisor.Wiring.{Connected, configs-IsWired}

instances-set_topo_status :
    (t name status : String) (stats : TopoStats)
    → get_topo_task_instances t name (set_topo_status t status stats)
      ≡ get_topo_task_instances t name stats
unfolding get_topo_task_instances on_tracker
instances-set_topo_status t name status stats = elim (Option-cases (lookup t stats)) [
  | inl gone ↦ ground (arith, gone)
  | inr (k, held) ↦
      ground (arith, held, str_eq_iff t t, lookup-set t t (record k { status = status }) stats)
]

module _ (join : String → String → String) (find : String → String → Bool) where
  serve_all-append :
      (a b : List NimbusRequest) (cl : Cluster)
      → serve_all join find (a ++ b) cl ≡ serve_all join find b (serve_all join find a cl)
  unfolding serve_all
  serve_all-append [] b cl = refl
  serve_all-append (r ∷ a) b cl = serve_all-append a b (serve join find r cl)

  serve-nowhere :
      (r : NimbusRequest) (cl : Cluster)
      → lookup (addressee r) cl ≡ none
      → serve join find r cl ≡ cl
  unfolding serve
  serve-nowhere r cl gone = ground (arith, gone)

  IsThere-serve :
      (r : NimbusRequest) (node : String) (cl : Cluster)
      → IsThere cl node
      → IsThere (serve join find r cl) node
  IsThere-serve r node cl there = elim (Option-cases (lookup (addressee r) cl)) [
    | inl gone ↦ subst (λ c. IsThere c node) (sym (serve-nowhere r cl gone)) there
    | inr (s, held) ↦
        subst (λ c. IsThere c node) (sym (serve-there join find r cl s held))
          (IsThere-set (addressee r) node _ cl there)
  ]

  IsThere-serve_all :
      (rs : List NimbusRequest) (node : String) (cl : Cluster)
      → IsThere cl node
      → IsThere (serve_all join find rs cl) node
  unfolding serve_all
  IsThere-serve_all [] node cl there = there
  IsThere-serve_all (r ∷ rs) node cl there =
      IsThere-serve_all rs node _ (IsThere-serve r node cl there)

IsTracked-set_topo_status :
    (t status : String) (stats : TopoStats)
    → IsTracked t stats
    → IsTracked t (set_topo_status t status stats)
unfolding on_tracker
IsTracked-set_topo_status t status stats (k, held) = (
  record k { status = status },
  ground (arith, held, lookup-set_self t (record k { status = status }) stats),
)

-- A child with the addresses of its workers: those that were known, and those in the replies.
abbrev pub told_group :
    World → String → TopoStats → List NimbusRequest → String × String → GroupedAddresses
told_group w t stats sent child = record {
  child_name = child.0;
  grouping = child.1;
  addresses = get_topo_task_instances t child.0 stats ++ replied w child.0 sent;
}

-- Nimbus prepares a topology that it has when there is a member beside its own node and every other
-- member has a supervisor: once they have served the requests that it sends, on every such node every
-- worker of a name that some bolt has as a parent is connected to exactly the children of the name
-- in the specification, in its order, each with its grouping and with the addresses of its workers:
-- those that Nimbus knew before, and then those that the supervisors reply to its requests. The name
-- must not share its id with another name of the topology.
pub wired :
    (join : String → String → String) (find : String → String → Bool) (w : World) (t x : String)
    (n : Nimbus) (cl : Cluster) (c : String × String) (cs : List (String × String))
    → HasOther w
    → IsTracked t n.topo_stats
    → All (IsThere cl) (update_supervisors w.own_id w.members n).supervisors
    → ((y : String) → create_worker_id join t y ≡ create_worker_id join t x → y ≡ x)
    → children x (get_topo_spec t n.topo_stats).bolt_specs ≡ c ∷ cs
    → (n' : Nimbus) × (sent : List NimbusRequest) × (prepare_topology w t n ≡ some (n', sent))
      × All
          (λ node.
            (s : Supervisor) × (lookup node (serve_all join find sent cl) ≡ some s)
            × Connected
                (create_worker_id join t x)
                (map (told_group w t n.topo_stats sent) (c ∷ cs))
                s)
          (update_supervisors w.own_id w.members n).supervisors
unfolding prepare_topology create_and_connect
wired join find w t x n cl c cs other tracked there distinct edges =
    let preparing : Nimbus = record (update_supervisors w.own_id w.members n) {
      topo_stats = set_topo_status t "preparing" n.topo_stats;
    } in
    let spec = get_topo_spec t preparing.topo_stats in
    let (e, b, all) =
      assign-some (tasks spec) preparing []
        (unfold update_supervisors in length-filter _ w.members other) in
    let added = add_workers w t (run_map spec) b preparing.topo_stats in
    let conns = worker_connections t spec added.0 in
    let done = create_and_connect w t (record preparing { executor = e }) b in
    let same_spec = get_topo_spec-set_topo_status t "preparing" n.topo_stats in
    let here : children x spec.bolt_specs ≡ c ∷ cs =
      ap (λ s. children x s.bolt_specs) same_spec ∙ edges in
    let held = lookup-worker_connections t added.0 spec x c cs here in
    let same_group : group t added.0 ≡ told_group w t n.topo_stats done.1 = fun_ext λ child.
      let (_, heard) =
        workers_replied t w child.0 (run_map spec) b preparing.topo_stats
          (IsTracked-set_topo_status t "preparing" n.topo_stats tracked) in
      let before = instances-set_topo_status t child.0 "preparing" n.topo_stats in
      let configs = map (λ s. config_conns s t conns) preparing.supervisors in
      let in_adds : replied w child.0 done.1 ≡ replied w child.0 added.1 =
        replied-append w child.0 added.1 configs
        ∙ ap (λ l. replied w child.0 added.1 ++ l)
            (replied-config w child.0 t conns preparing.supervisors)
        ∙ append_nil (replied w child.0 added.1) in
      ap (λ a. record { child_name = child.0; grouping = child.1; addresses = a })
        (heard
          ∙ ap (λ l. l ++ replied w child.0 added.1) before
          ∙ ap (λ l. get_topo_task_instances t child.0 n.topo_stats ++ l) (sym in_adds)) in
    let groups_same : map (group t added.0) (children x spec.bolt_specs)
        ≡ map (told_group w t n.topo_stats done.1) (c ∷ cs) =
      ap (map (group t added.0)) here ∙ ap (λ g. map g (c ∷ cs)) same_group in
    let supervisors = preparing.supervisors in
    let cl1 = serve_all join find added.1 cl in
    let still =
      All-imp (IsThere cl) (IsThere cl1) supervisors
        (λ node h. IsThere-serve_all join find added.1 node cl h) there in
    let connected =
      configs-IsWired join find t x distinct conns _ (worker_connections-IsSorted t added.0 spec)
        (held ∙ ap some groups_same) supervisors cl1 still in
    (
      done.0,
      done.1,
      ap (Option.map (λ (x : Nimbus × Assignment). create_and_connect w t x.0 x.1)) all,
      subst
          (λ final.
            All
              (λ node.
                (s : Supervisor) × (lookup node final ≡ some s)
                × Connected (create_worker_id join t x)
                    (map (told_group w t n.topo_stats done.1) (c ∷ cs)) s)
              supervisors)
          (sym (serve_all-append join find added.1 _ cl)) connected,
    )
