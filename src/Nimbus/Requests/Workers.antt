-- ===== src/Nimbus/Requests/Workers.antt =====
-- What `prepareTopology` asks the supervisors for, against the specification of the topology.
use mathlib.Core.Option
use cranesps.Base.{
  string_key, ℕ, ◌+◌, String, ◌≡◌, refl, ap, ◌∙◌, inl, inr, some, List, [], ◌∷◌, ◌++◌, arith, map,
  if◌then◌else◌, Option-cases,
}
use cranesps.Base.Text.{str_eq, str_eq_iff}
use cranesps.Base.StdMap.{lookup, lookup-set}
use cranesps.Nimbus.Stats.{
  Nimbus, TopoStats, update_supervisors, on_tracker, set_topo_status, get_topo_spec,
}
use cranesps.Nimbus.Assign.{
  Assignment, GroupedAddresses, tasks, groups, run_map, worker_connections,
}
use cranesps.Nimbus.Assign.Counts.{occurrences, total, total_groups, assign-total, total-groups}
use cranesps.Nimbus.Lifecycle.{
  NimbusRequest, add_worker, config_conns, start_worker, kill_worker, World, add_instances,
  add_groups, add_workers, create_and_connect, prepare_topology,
}
use cranesps.Nimbus.Requests.Status.{HasOther, assign-some, length-filter}

-- How many workers for tasks of a name the requests ask for.
unfoldable pub asked : String → List NimbusRequest → ℕ
asked x [] = 0
asked x (add_worker supervisor topo_id name run_name count ∷ sent) =
    let rest = asked x sent in if str_eq name x then count + rest else rest
asked x (config_conns supervisor topo_id conns ∷ sent) = asked x sent
asked x (start_worker supervisor topo_id name ∷ sent) = asked x sent
asked x (kill_worker supervisor topo_id name ∷ sent) = asked x sent

pub asked-append :
    (x : String) (a b : List NimbusRequest) → asked x (a ++ b) ≡ asked x a + asked x b
unfolding asked
asked-append x [] b = omega arith
asked-append x (add_worker s t name run count ∷ a) b = ground (arith, asked-append x a b)
asked-append x (config_conns s t conns ∷ a) b = asked-append x a b
asked-append x (start_worker s t name ∷ a) b = asked-append x a b
asked-append x (kill_worker s t name ∷ a) b = asked-append x a b

asked-config :
    (x t : String) (conns : List (String × List GroupedAddresses)) (supervisors : List String)
    → asked x (map (λ s. config_conns s t conns) supervisors) ≡ 0
unfolding asked
asked-config x t conns [] = refl
asked-config x t conns (s ∷ supervisors) = asked-config x t conns supervisors

asked-add_groups :
    (x : String) (w : World) (t : String) (runs : List (String × String)) (supervisor : String)
    (gs : List (String × ℕ)) (stats : TopoStats)
    → asked x (add_groups w t runs supervisor gs stats).1 ≡ total_groups x gs
unfolding asked add_groups total_groups
asked-add_groups x w t runs supervisor [] stats = refl
asked-add_groups x w t runs supervisor ((name, count) ∷ gs) stats = ground (
  arith,
  asked-add_groups x w t runs supervisor gs
      (add_instances t name supervisor (w.ports supervisor name count) stats),
)

asked-add_workers :
    (x : String) (w : World) (t : String) (runs : List (String × String)) (a : Assignment)
    (stats : TopoStats)
    → asked x (add_workers w t runs a stats).1 ≡ total x a
unfolding add_workers total asked
asked-add_workers x w t runs [] stats = refl
asked-add_workers x w t runs ((supervisor, queue) ∷ a) stats =
    let first = add_groups w t runs supervisor (groups queue) stats in
    omega (
      arith,
      asked-append x first.1 (add_workers w t runs a first.0).1,
      asked-add_groups x w t runs supervisor (groups queue) stats,
      total-groups x queue,
      asked-add_workers x w t runs a first.0,
    )

pub get_topo_spec-set_topo_status :
    (t s : String) (stats : TopoStats)
    → get_topo_spec t (set_topo_status t s stats) ≡ get_topo_spec t stats
unfolding get_topo_spec on_tracker
get_topo_spec-set_topo_status t s stats = elim (Option-cases (lookup t stats)) [
  | inl gone ↦ ground (arith, gone)
  | inr (k, held) ↦
      ground (arith, held, str_eq_iff t t, lookup-set t t (record k { status = s }) stats)
]

-- When there is a member beside Nimbus's own node, a topology is prepared, and for every name the
-- supervisors are asked, all together, for exactly as many workers as the specification has tasks of
-- that name: one for each spout, and for a bolt as many as its parallelism says.
pub tasks_placed :
    (w : World) (t : String) (n : Nimbus)
    → HasOther w
    → (n' : Nimbus) × (sent : List NimbusRequest) × (prepare_topology w t n ≡ some (n', sent))
      × ((x : String) → asked x sent ≡ occurrences x (tasks (get_topo_spec t n.topo_stats)))
unfolding prepare_topology
tasks_placed w t n other =
    let preparing : Nimbus = record (update_supervisors w.own_id w.members n) {
      topo_stats = set_topo_status t "preparing" n.topo_stats;
    } in
    let spec = get_topo_spec t preparing.topo_stats in
    let (e, b, all) =
      assign-some (tasks spec) preparing []
        (unfold update_supervisors in length-filter _ w.members other) in
    let done = create_and_connect w t (record preparing { executor = e }) b in
    (
      done.0,
      done.1,
      ap (Option.map (λ (x : Nimbus × Assignment). create_and_connect w t x.0 x.1)) all,
      λ x.
          let adds = add_workers w t (run_map spec) b preparing.topo_stats in
          let conns = worker_connections t spec adds.0 in
          let placed : asked x done.1 ≡ occurrences x (tasks spec) =
            unfold create_and_connect total in
            omega (
              arith,
              asked-append x adds.1 (map (λ s. config_conns s t conns) preparing.supervisors),
              asked-config x t conns preparing.supervisors,
              asked-add_workers x w t (run_map spec) b preparing.topo_stats,
              assign-total x (tasks spec) preparing _ [] b all tt,
            ) in
          placed
          ∙ ap (λ s. occurrences x (tasks s))
              (get_topo_spec-set_topo_status t "preparing" n.topo_stats),
    )
