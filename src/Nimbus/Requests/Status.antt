-- ===== src/Nimbus/Requests/Status.antt =====
-- The status of every topology after each operation on one.
use cranesps.Base.{
  string_key, ℕ, suc, ◌%◌, ◌<◌, String, ◌≡◌, refl, ap, ◌∙◌, inl, inr, Bool, true, not, Option, none,
  some, List, [], ◌∷◌, arith, filter, any, length, if◌then◌else◌, Bool-cases, get_elem?-in,
  Option-cases,
}
use mathlib.Core.Option
use native.Mathlib.Nat.{mod-lt}
use cranesps.DMember.Connect.{own_index}
use cranesps.Base.Text.{str_eq, str_eq_iff}
use cranesps.Base.StdMap.{lookup, set, at_or, lookup-set, lookup-erase}
use cranesps.Nimbus.Stats.{
  Nimbus, Tracker, TopoStats, new_tracker, update_supervisors, on_tracker, get_topo_status,
  set_topo_status, get_topo_spec,
}
use cranesps.Nimbus.Assign.{Assignment, next_executor, tasks, push_task, assign, groups, run_map}
use cranesps.Nimbus.Lifecycle.{
  NimbusRequest, World, add_instances, add_groups, add_workers, create_and_connect,
  prepare_topology, start_topology, stop_topology, kill_topology,
}

-- The status of a topology that is there.
abbrev pub status_at : String → TopoStats → Option String
status_at t stats = elim (lookup t stats) [ none ↦ none | some k ↦ some k.status ]

abbrev pub renamed : String → Option String → Option String
renamed s none = none
renamed s (some old) = some s

status-on_tracker :
    (t j : String) (f : Tracker → Tracker) (stats : TopoStats)
    → ((k : Tracker) → (f k).status ≡ k.status)
    → status_at j (on_tracker t f stats) ≡ status_at j stats
unfolding on_tracker
status-on_tracker t j f stats keep = elim (Option-cases (lookup t stats)) [
  | inl gone ↦ ground (arith, gone)
  | inr (k, held) ↦ ground (arith, held, keep k, str_eq_iff t j, lookup-set t j (f k) stats)
]

pub status-set_topo_status :
    (t j s : String) (stats : TopoStats)
    → status_at j (set_topo_status t s stats)
      ≡ (if str_eq t j then renamed s (status_at j stats) else status_at j stats)
unfolding on_tracker
status-set_topo_status t j s stats = elim (Option-cases (lookup t stats)) [
  | inl gone ↦ ground (arith, gone, str_eq_iff t j)
  | inr (k, held) ↦
      ground (arith, held, str_eq_iff t j, lookup-set t j (record k { status = s }) stats)
]

status-add_instances :
    (t j name supervisor : String) (ports : List ℕ) (stats : TopoStats)
    → status_at j (add_instances t name supervisor ports stats) ≡ status_at j stats
unfolding add_instances
status-add_instances t j name supervisor [] stats = refl
status-add_instances t j name supervisor (port ∷ ports) stats =
    status-add_instances t j name supervisor ports _ ∙ status-on_tracker t j _ stats (λ k. refl)

status-add_groups :
    (w : World) (t j supervisor : String) (runs : List (String × String)) (gs : List (String × ℕ))
    (stats : TopoStats)
    → status_at j (add_groups w t runs supervisor gs stats).0 ≡ status_at j stats
unfolding add_groups
status-add_groups w t j supervisor runs [] stats = refl
status-add_groups w t j supervisor runs ((name, count) ∷ gs) stats =
    status-add_groups w t j supervisor runs gs _
    ∙ status-add_instances t j name supervisor (w.ports supervisor name count) stats

status-add_workers :
    (w : World) (t j : String) (runs : List (String × String)) (a : Assignment) (stats : TopoStats)
    → status_at j (add_workers w t runs a stats).0 ≡ status_at j stats
unfolding add_workers
status-add_workers w t j runs [] stats = refl
status-add_workers w t j runs ((supervisor, queue) ∷ a) stats =
    status-add_workers w t j runs a _ ∙ status-add_groups w t j supervisor runs (groups queue) stats

renamed-twice :
    (t j : String) (o p a r : Option String)
    → p ≡ (if str_eq t j then renamed "preparing" o else o)
    → a ≡ p
    → r ≡ (if str_eq t j then renamed "ready" a else a)
    → r ≡ (if str_eq t j then renamed "ready" o else o)
renamed-twice t j none p a r first kept final = ground (arith, first, kept, final)
renamed-twice t j (some x) p a r first kept final = ground (arith, first, kept, final)

-- There is a member beside the own node.
abbrev pub HasOther : World → Type 0
HasOther w = any (λ m. not (str_eq m w.own_id)) w.members ≡ true

pub length-filter :
    (p : String → Bool) (xs : List String) → any p xs ≡ true → 0 < length (filter p xs)
length-filter p [] h = ground arith
length-filter p (x ∷ xs) h = ground (arith, length-filter p xs)

next_executor-some :
    (n : Nimbus)
    → 0 < length n.supervisors
    → (e : String) × (next_executor n ≡ some (e, record n { executor = e }))
unfolding next_executor
next_executor-some n h = elim (Bool-cases (str_eq n.executor "")) [
  | inl first ↦ let (e, found) = get_elem?-in n.supervisors 0 h in (e, ground (arith, found))
  | inr later ↦
      let (e, found) =
        get_elem?-in n.supervisors (suc (own_index n.executor n.supervisors) % length n.supervisors)
          (mod-lt _ h) in
      (e, ground (arith, found))
]

-- With a supervisor every task is assigned; only the executor changes on the way.
pub assign-some :
    (ts : List String) (n : Nimbus) (a : Assignment)
    → 0 < length n.supervisors
    → (e : String) × (b : Assignment) × (assign ts n a ≡ some (record n { executor = e }, b))
unfolding assign
assign-some [] n a h = (n.executor, a, refl)
assign-some (t ∷ ts) n a h =
    let (e, next) = next_executor-some n h in
    let (last, b, rest) =
      assign-some ts (record n { executor = e }) (set e (push_task t (at_or e [] a)) a) h in
    (last, b, ground (arith, next, rest))

pub status-prepare :
    (w : World) (t : String) (n : Nimbus)
    → HasOther w
    → (n' : Nimbus) × (sent : List NimbusRequest) × (prepare_topology w t n ≡ some (n', sent))
      × ((j : String)
          → status_at j n'.topo_stats ≡ (
              if str_eq t j
              then renamed "ready" (status_at j n.topo_stats)
              else status_at j n.topo_stats))
unfolding prepare_topology
status-prepare w t n other =
    let preparing : Nimbus = record (update_supervisors w.own_id w.members n) {
      topo_stats = set_topo_status t "preparing" n.topo_stats;
    } in
    let (e, b, all) =
      assign-some (tasks (get_topo_spec t preparing.topo_stats)) preparing []
        (unfold update_supervisors in length-filter _ w.members other) in
    let done = create_and_connect w t (record preparing { executor = e }) b in
    (
      done.0,
      done.1,
      ap (Option.map (λ (x : Nimbus × Assignment). create_and_connect w t x.0 x.1)) all,
      λ j.
          renamed-twice t j (status_at j n.topo_stats) _ _ _
            (status-set_topo_status t j "preparing" n.topo_stats)
            (status-add_workers w t j (run_map (get_topo_spec t preparing.topo_stats)) b
              preparing.topo_stats)
            (unfold create_and_connect in status-set_topo_status t j "ready" _),
    )

-- `startTopology` on a topology that is ready.
pub status-start :
    (w : World) (t j : String) (n : Nimbus)
    → status_at t n.topo_stats ≡ some "ready"
    → status_at j (start_topology w t n).0.topo_stats ≡ (
        if str_eq t j
        then renamed "running" (status_at j n.topo_stats)
        else status_at j n.topo_stats)
unfolding start_topology get_topo_status
status-start w t j n ready = elim (Option-cases (lookup t n.topo_stats)) [
  | inl gone ↦ ground (arith, gone)
  | inr (k, held) ↦
      let now : k.status ≡ "ready" = ground (arith, held) in
      ground (
        arith,
        held,
        str_eq_iff k.status "ready",
        status-set_topo_status t j "running" n.topo_stats,
      )
]

pub status-stop :
    (w : World) (t j : String) (n : Nimbus)
    → (status_at t n.topo_stats ≡ none → ⊥)
    → status_at j (stop_topology w t n).0.topo_stats
      ≡ (if str_eq t j then some "idle" else status_at j n.topo_stats)
unfolding stop_topology
status-stop w t j n known =
    let idle = set_topo_status t "idle" n.topo_stats in
    let cleared = lookup-set t j (record (at_or t new_tracker idle) { task_instances = [] }) idle in
    let there = status-set_topo_status t t "idle" n.topo_stats in
    let here = status-set_topo_status t j "idle" n.topo_stats in
    elim (Option-cases (lookup t idle)) [
      | inl gone ↦ elim (Option-cases (lookup t n.topo_stats)) [
        | inl missing ↦ absurd (known (ground (arith, missing)))
        | inr (k, held) ↦ ground (arith, gone, held, there, str_eq_iff t t)
      ]
      | inr (i, kept) ↦ elim (Option-cases (lookup t n.topo_stats)) [
        | inl missing ↦ absurd (known (ground (arith, missing)))
        | inr (k, held) ↦
            ground (arith, kept, held, there, here, cleared, str_eq_iff t t, str_eq_iff t j)
      ]
    ]

pub status-kill :
    (w : World) (t j : String) (n : Nimbus)
    → status_at j (kill_topology w t n).0.topo_stats
      ≡ (if str_eq t j then none else status_at j n.topo_stats)
unfolding kill_topology
status-kill w t j n = elim (Option-cases (lookup t n.topo_stats)) [
  | inl gone ↦ ground (arith, gone, str_eq_iff t j)
  | inr (k, held) ↦
      let there : status_at t n.topo_stats ≡ none → ⊥ = λ e. ground (arith, held) in
      elim (Bool-cases (str_eq k.status "running")) [
        | inl running ↦
            let stopped = (stop_topology w t n).0.topo_stats in
            ground (arith, held, running, lookup-erase t j stopped, status-stop w t j n there)
        | inr other ↦ ground (arith, held, other, lookup-erase t j n.topo_stats)
      ]
]
