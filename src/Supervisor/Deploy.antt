-- ===== src/Supervisor/Deploy.antt =====
-- A topology that Nimbus prepares, on the supervisors of all nodes.
use cranesps.Base.{
  string_key, ℕ, suc, ◌+◌, ◌%◌, subst, Bool, String, ◌≡◌, refl, sym, ap, ◌∙◌, inl, inr, Option,
  none, some, List, [], ◌∷◌, ◌++◌, arith, map, All, All-imp, length, Option-cases, Bool-cases,
  get_elem?, get-All,
}
use cranesps.Base.Text.{str_eq}
use cranesps.Base.StdMap.{set, at_or}
use cranesps.Base.StdMap.Order.{IsSorted}
use cranesps.DMember.Connect.{own_index}
use cranesps.Nimbus.Stats.{Nimbus, TopoStats, get_topo_spec, set_topo_status, update_supervisors}
use cranesps.Nimbus.Assign.{
  Assignment, GroupedAddresses, next_executor, push_task, assign, tasks, groups,
}
use cranesps.Nimbus.Assign.Wanted.{wanted, occurrences-tasks}
use cranesps.Nimbus.Lifecycle.{
  NimbusRequest, config_conns, World, add_groups, add_workers, create_and_connect, prepare_topology,
}
use cranesps.Nimbus.Requests.Status.{HasOther}
use cranesps.Nimbus.Requests.Workers.{tasks_placed}
use cranesps.Supervisor.{create_worker_id}
use cranesps.Supervisor.Cluster.{
  Cluster, addressee, workers_in, IsThere, serve_all, Prepares, workers_in-serve_all,
}

abbrev chosen : Nimbus → Option String → Option (String × Nimbus)
chosen n none = none
chosen n (some e) = some (e, record n { executor = e })

module _ (P : String → Type 0) where
  from_elem :
      (n n' : Nimbus) (e : String) (i : ℕ)
      → chosen n (get_elem? n.supervisors i) ≡ some (e, n')
      → All P n.supervisors
      → P e × (n'.supervisors ≡ n.supervisors)
  from_elem n n' e i run all = elim (Option-cases (get_elem? n.supervisors i)) [
    | inl gone ↦ ground (arith, gone, run)
    | inr (f, found) ↦
        let same : f ≡ e = ground (arith, found, run) in
        (subst P same (get-All P n.supervisors i f all found), ground (arith, found, run))
  ]

  next_executor-All :
      (n n' : Nimbus) (e : String)
      → next_executor n ≡ some (e, n')
      → All P n.supervisors
      → P e × (n'.supervisors ≡ n.supervisors)
  unfolding next_executor
  next_executor-All n n' e run all = elim (Bool-cases (str_eq n.executor "")) [
    | inl first ↦ from_elem n n' e 0 (ground (arith, first, run)) all
    | inr later ↦
        from_elem n n' e (suc (own_index n.executor n.supervisors) % length n.supervisors)
          (ground (arith, later, run)) all
  ]

  set-All :
      (e : String) (q : List String) (a : Assignment)
      → P e
      → All (λ entry. P entry.0) a
      → All (λ entry. P entry.0) (set e q a)
  unfolding set
  set-All e q [] p all = (p, tt)
  set-All e q ((j, v) ∷ a) p all = ground (arith, p, all, set-All e q a p all.1)

  assign-All :
      (ts : List String) (n n' : Nimbus) (a b : Assignment)
      → assign ts n a ≡ some (n', b)
      → All P n.supervisors
      → All (λ entry. P entry.0) a
      → All (λ entry. P entry.0) b × (n'.supervisors ≡ n.supervisors)
  unfolding assign
  assign-All [] n n' a b run s all =
      let same : a ≡ b = ground (arith, run) in
      (subst (All (λ entry. P entry.0)) same all, ground (arith, run))
  assign-All (t ∷ ts) n n' a b run s all = elim (Option-cases (next_executor n)) [
    | inl stuck ↦ ground (arith, stuck, run)
    | inr ((e, n1), next) ↦
        let (here, same) = next_executor-All n n1 e next s in
        let q = push_task t (at_or e [] a) in
        let rest : assign ts n1 (set e q a) ≡ some (n', b) = ground (arith, next, run) in
        let (kept, still) =
          assign-All ts n1 n' (set e q a) b rest (subst (All P) (sym same) s)
            (set-All e q a here all) in
        (kept, still ∙ same)
  ]

  -- A request that prepares the topology, to a node of P.
  module _ (t : String) where
    abbrev Good : NimbusRequest → Type 0
    Good r = Prepares t r × P (addressee r)

    append-Good : (a b : List NimbusRequest) → All Good a → All Good b → All Good (a ++ b)
    append-Good [] b h k = k
    append-Good (r ∷ a) b h k = (h.0, append-Good a b h.1 k)

    add_groups-Good :
        (w : World) (runs : List (String × String)) (supervisor : String) (gs : List (String × ℕ))
        (stats : TopoStats)
        → P supervisor
        → All Good (add_groups w t runs supervisor gs stats).1
    unfolding add_groups
    add_groups-Good w runs supervisor [] stats p = tt
    add_groups-Good w runs supervisor ((name, count) ∷ gs) stats p =
        ((refl, p), add_groups-Good w runs supervisor gs _ p)

    add_workers-Good :
        (w : World) (runs : List (String × String)) (a : Assignment) (stats : TopoStats)
        → All (λ entry. P entry.0) a
        → All Good (add_workers w t runs a stats).1
    unfolding add_workers
    add_workers-Good w runs [] stats h = tt
    add_workers-Good w runs ((supervisor, queue) ∷ a) stats h =
        append-Good _ _ (add_groups-Good w runs supervisor (groups queue) stats h.0)
          (add_workers-Good w runs a _ h.1)

    config-Good :
        (conns : List (String × List GroupedAddresses)) (supervisors : List String)
        → All P supervisors
        → All Good (map (λ s. config_conns s t conns) supervisors)
    config-Good conns [] h = tt
    config-Good conns (s ∷ supervisors) h = ((refl, h.0), config-Good conns supervisors h.1)

    prepare-Good :
        (w : World) (n n' : Nimbus) (sent : List NimbusRequest)
        → prepare_topology w t n ≡ some (n', sent)
        → All P (update_supervisors w.own_id w.members n).supervisors
        → All Good sent
    unfolding prepare_topology
    prepare-Good w n n' sent run h =
        let preparing : Nimbus = record (update_supervisors w.own_id w.members n) {
          topo_stats = set_topo_status t "preparing" n.topo_stats;
        } in
        let spec = get_topo_spec t preparing.topo_stats in
        elim (Option-cases (assign (tasks spec) preparing [])) [
          | inl gone ↦ ground (arith, gone, run)
          | inr ((m, b), found) ↦
              let (all, same) = assign-All (tasks spec) preparing m [] b found h tt in
              let made : (create_and_connect w t m b).1 ≡ sent = ground (arith, found, run) in
              subst (All Good) made (
                unfold create_and_connect in
                append-Good _ _ (add_workers-Good w _ b m.topo_stats all)
                  (config-Good _ m.supervisors (subst (All P) (sym same) h)))
        ]

-- Nimbus prepares a topology when there is a member beside its own node and every other member has
-- a supervisor: once they have served the requests that it sends, the workers of a name, on all
-- nodes together, are those that were there, one for each spout of that name in the
-- specification, and for each bolt of that name as many as its parallelism says. The name must not share its id with
-- another name of the topology.
pub deployed :
    (join : String → String → String) (find : String → String → Bool) (w : World) (t x : String)
    (n : Nimbus) (cl : Cluster)
    → HasOther w
    → IsSorted cl
    → All (IsThere cl) (update_supervisors w.own_id w.members n).supervisors
    → ((y : String) → create_worker_id join t y ≡ create_worker_id join t x → y ≡ x)
    → (n' : Nimbus) × (sent : List NimbusRequest) × (prepare_topology w t n ≡ some (n', sent))
      × (workers_in (create_worker_id join t x) (serve_all join find sent cl)
          ≡ workers_in (create_worker_id join t x) cl + wanted x (get_topo_spec t n.topo_stats))
deployed join find w t x n cl other sorted there distinct =
    let (n', sent, run, placed) = tasks_placed w t n other in
    let good = prepare-Good (IsThere cl) t w n n' sent run there in
    let for_t = All-imp (Good (IsThere cl) t) (Prepares t) sent (λ r h. h.0) good in
    let to_there =
      All-imp (Good (IsThere cl) t) (λ r. IsThere cl (addressee r)) sent (λ r h. h.1) good in
    let served = workers_in-serve_all join find t x distinct sent cl sorted for_t to_there in
    (
      n',
      sent,
      run,
      served
          ∙ ap (λ k. workers_in (create_worker_id join t x) cl + k)
              (placed x ∙ occurrences-tasks x (get_topo_spec t n.topo_stats)),
    )
