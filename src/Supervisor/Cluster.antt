-- ===== src/Supervisor/Cluster.antt =====
-- The supervisors of all nodes, and how many workers of an id they have.
use cranesps.Base.{
  string_key, ℕ, zero, suc, ◌+◌, String, ◌≡◌, refl, sym, ap, ◌∙◌, Bool, true, false, inl, inr, none,
  some, List, [], ◌∷◌, ◌++◌, arith, map, All, All-imp, length, length-append, if◌then◌else◌,
  Option-cases, Bool-cases,
}
use cranesps.Base.Text.{str_eq, str_eq_iff, str_lt}
use cranesps.Base.StdMap.{lookup, set, at_or, lookup-set}
use cranesps.Base.StdMap.Order.{IsSorted, lookup-Above, Above-trans, set-IsSorted}
use cranesps.Nimbus.Assign.{GroupedAddresses}
use cranesps.Nimbus.Lifecycle.{NimbusRequest, add_worker, config_conns, start_worker, kill_worker}
use cranesps.Nimbus.Requests.Workers.{asked, asked-append}
use cranesps.Supervisor
use cranesps.Supervisor.{
  Worker, Supervisor, create_worker_id, next_available_worker_port, new_workers, on_workers,
}
use cranesps.Supervisor.Messages.{process, configure_all, is_bolt}

-- How many workers of an id a supervisor has.
abbrev pub workers_of : String → Supervisor → ℕ
workers_of i s = length (at_or i [] s.workers_map)

length-new_workers :
    (n : ℕ) (worker_id : String) (is_bolt : Bool) (workers : List Worker) (s : Supervisor)
    → length (new_workers n worker_id is_bolt workers s).0 ≡ length workers + n
unfolding new_workers next_available_worker_port
length-new_workers zero worker_id is_bolt workers s = omega arith
length-new_workers (suc n) worker_id is_bolt workers s =
    let next : Supervisor = record s { port = suc s.port } in
    let worker : Worker = record {
      worker_id = worker_id;
      data_port = s.port;
      is_bolt = is_bolt;
      connections = [];
      started = false;
    } in
    let ih = length-new_workers n worker_id is_bolt (workers ++ worker ∷ []) next in
    omega (arith, ih, length-append workers (worker ∷ []))

workers_of-add_worker :
    (worker_id i : String) (is_bolt : Bool) (level : ℕ) (s : Supervisor)
    → workers_of i (Supervisor.add_worker worker_id is_bolt level s).0
      ≡ (if str_eq worker_id i then level + workers_of i s else workers_of i s)
unfolding Supervisor.add_worker
workers_of-add_worker worker_id i is_bolt level s =
    let before = at_or worker_id [] s.workers_map in
    ground (
      arith,
      str_eq_iff worker_id i,
      lookup-set worker_id i (new_workers level worker_id is_bolt before s).0 s.workers_map,
      length-new_workers level worker_id is_bolt before s,
    )

length-map : (f : Worker → Worker) (ws : List Worker) → length (map f ws) ≡ length ws
length-map f [] = refl
length-map f (w ∷ ws) = ap suc (length-map f ws)

workers_of-on_workers :
    (worker_id i : String) (f : Worker → Worker) (s : Supervisor)
    → workers_of i (on_workers worker_id f s) ≡ workers_of i s
unfolding on_workers
workers_of-on_workers worker_id i f s = elim (Option-cases (lookup worker_id s.workers_map)) [
  | inl gone ↦ ground (arith, gone)
  | inr (ws, held) ↦ ground (
    arith,
    held,
    str_eq_iff worker_id i,
    lookup-set worker_id i (map f ws) s.workers_map,
    length-map f ws,
  )
]

-- The supervisors by the names of their nodes.
abbrev pub Cluster : Type 0
Cluster = List (String × Supervisor)

abbrev pub addressee : NimbusRequest → String
addressee (add_worker supervisor topo_id name run_name count) = supervisor
addressee (config_conns supervisor topo_id conns) = supervisor
addressee (start_worker supervisor topo_id name) = supervisor
addressee (kill_worker supervisor topo_id name) = supervisor

unfoldable pub workers_in : String → Cluster → ℕ
workers_in i [] = 0
workers_in i ((node, s) ∷ cl) = workers_of i s + workers_in i cl

workers_in-set :
    (i node : String) (before after : Supervisor) (cl : Cluster)
    → IsSorted cl
    → lookup node cl ≡ some before
    → workers_in i (set node after cl) + workers_of i before ≡ workers_in i cl + workers_of i after
unfolding workers_in set lookup
workers_in-set i node before after [] s held = ground (arith, held)
workers_in-set i node before after ((j, v) ∷ cl) s held = elim (Bool-cases (str_eq j node)) [
  | inl here ↦ ground (arith, here, held)
  | inr other ↦ elim (Bool-cases (str_lt node j)) [
    | inl less ↦
        let gone = lookup-Above node cl (Above-trans node j cl less s.0) in
        ground (arith, other, held, gone)
    | inr more ↦
        let there : lookup node cl ≡ some before = ground (arith, other, held) in
        ground (arith, other, more, workers_in-set i node before after cl s.1 there)
  ]
]

abbrev pub IsThere : Cluster → String → Type 0
IsThere cl node = (s : Supervisor) × (lookup node cl ≡ some s)

pub IsThere-set :
    (node j : String) (v : Supervisor) (cl : Cluster) → IsThere cl j → IsThere (set node v cl) j
IsThere-set node j v cl (s, held) = elim (Bool-cases (str_eq node j)) [
  | inl same ↦ (v, ground (arith, same, lookup-set node j v cl))
  | inr other ↦ (s, ground (arith, held, other, lookup-set node j v cl))
]

-- A request to add or configure workers of a topology.
abbrev pub Prepares : String → NimbusRequest → Type 0
Prepares t (add_worker supervisor topo_id name run_name count) = topo_id ≡ t
Prepares t (config_conns supervisor topo_id conns) = topo_id ≡ t
Prepares t (start_worker supervisor topo_id name) = true ≡ false
Prepares t (kill_worker supervisor topo_id name) = true ≡ false

module _ (join : String → String → String) (find : String → String → Bool) where
  -- A request goes to the node that it names; nobody answers where there is none.
  unfoldable pub serve : NimbusRequest → Cluster → Cluster
  serve r cl = elim (lookup (addressee r) cl) [
    | none ↦ cl
    | some s ↦ set (addressee r) (process join find r s) cl
  ]

  unfoldable pub serve_all : List NimbusRequest → Cluster → Cluster
  serve_all [] cl = cl
  serve_all (r ∷ rs) cl = serve_all rs (serve r cl)

  pub serve-there :
      (r : NimbusRequest) (cl : Cluster) (s : Supervisor)
      → lookup (addressee r) cl ≡ some s
      → serve r cl ≡ set (addressee r) (process join find r s) cl
  unfolding serve
  serve-there r cl s held = ground (arith, held)

  workers_of-configure_all :
      (i t : String) (conns : List (String × List GroupedAddresses)) (s : Supervisor)
      → workers_of i (configure_all join find t conns s) ≡ workers_of i s
  unfolding configure_all
  workers_of-configure_all i t [] s = refl
  workers_of-configure_all i t ((name, groups) ∷ rest) s =
      workers_of-configure_all i t rest _
      ∙ workers_of-on_workers (create_worker_id join t name) i _ s

  module _ (t x : String)
      (distinct : (y : String)
        → create_worker_id join t y ≡ create_worker_id join t x
        → y ≡ x) where
    workers_of-process :
        (r : NimbusRequest) (s : Supervisor)
        → Prepares t r
        → workers_of (create_worker_id join t x) (process join find r s)
          ≡ workers_of (create_worker_id join t x) s + asked x (r ∷ [])
    unfolding process asked
    workers_of-process (add_worker node u name run count) s p =
        let moved = ap (λ v. create_worker_id join v name) p in
        let added =
          workers_of-add_worker (create_worker_id join u name) (create_worker_id join t x)
            (is_bolt join find run) count s in
        let same = str_eq_iff (create_worker_id join u name) (create_worker_id join t x) in
        elim (Bool-cases (str_eq name x)) [
          | inl hit ↦
              let e = moved ∙ ap (create_worker_id join t) ((str_eq_iff name x).0 hit) in
              ground (arith, hit, same.1 e, added)
          | inr miss ↦
              elim (Bool-cases
                (str_eq (create_worker_id join u name) (create_worker_id join t x))) [
                  | inl hit ↦
                      let e = (str_eq_iff name x).1 (distinct name (sym moved ∙ same.0 hit)) in
                      ground (arith, miss, e)
                  | inr other ↦ ground (arith, miss, other, added)
                ]
        ]
    workers_of-process (config_conns node u conns) s p =
        omega (arith, workers_of-configure_all (create_worker_id join t x) u conns s)
    workers_of-process (start_worker node u name) s p = ground (arith, p)
    workers_of-process (kill_worker node u name) s p = ground (arith, p)

    -- Requests that prepare the topology, each to a node that is there: all together they make as
    -- many workers as they ask for.
    pub workers_in-serve_all :
        (rs : List NimbusRequest) (cl : Cluster)
        → IsSorted cl
        → All (Prepares t) rs
        → All (λ r. IsThere cl (addressee r)) rs
        → workers_in (create_worker_id join t x) (serve_all rs cl)
          ≡ workers_in (create_worker_id join t x) cl + asked x rs
    unfolding serve_all asked
    workers_in-serve_all [] cl s p there = omega arith
    workers_in-serve_all (r ∷ rs) cl s (p, ps) ((sup, held), there) =
        let i = create_worker_id join t x in
        let node = addressee r in
        let after = process join find r sup in
        let cl' = set node after cl in
        let ih = workers_in-serve_all rs cl' (set-IsSorted node after cl s) ps (
          All-imp (λ q. IsThere cl (addressee q)) (λ q. IsThere cl' (addressee q)) rs
            (λ q h. IsThere-set node (addressee q) after cl h) there) in
        let served : serve_all rs (serve r cl) ≡ serve_all rs cl' =
          ap (serve_all rs) (serve-there r cl sup held) in
        ap (workers_in i) served
        ∙ omega (
          arith,
          ih,
          workers_in-set i node sup after cl s held,
          workers_of-process r sup p,
          asked-append x (r ∷ []) rs,
        )
