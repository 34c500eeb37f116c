-- ===== src/Nimbus/Requests/Restart.antt =====
-- What is left of the topologies when a node fails: all are stopped, and all are started again.
use cranesps.Base.{
  string_key, String, ◌≡◌, refl, ap, ◌∙◌, Bool, true, false, ◌||◌, Option, none, some, List, [],
  ◌∷◌, ◌++◌, any, All, All-imp, arith, if◌then◌else◌, Bool-cases, inl, inr, ◌⊎◌,
}
use cranesps.Base.Text.{str_eq, str_eq_iff}
use cranesps.Base.StdMap.{lookup}
use cranesps.Nimbus.Stats.{Nimbus, TopoStats, get_all_topo_ids}
use cranesps.Nimbus.Lifecycle.{NimbusRequest, World, stop_topology}
use cranesps.Nimbus.Requests.{stop_all, start_all, handle_node_fail}
use cranesps.Nimbus.Requests.Status.{HasOther, status_at, renamed, status-stop}
use cranesps.Nimbus.Requests.Served.{status-prepare_and_start}

abbrev listed : String → List String → Bool
listed j = any (λ t. str_eq t j)

listed-ids :
    (j : String) (stats : TopoStats)
    → (listed j (get_all_topo_ids stats) ≡ true) × ((s : String) × (status_at j stats ≡ some s))
      ⊎ (listed j (get_all_topo_ids stats) ≡ false) × (status_at j stats ≡ none)
unfolding get_all_topo_ids lookup
listed-ids j [] = inr (refl, refl)
listed-ids j ((k, t) ∷ stats) = elim (Bool-cases (str_eq k j)) [
  | inl same ↦ inl (ground (arith, same), (t.status, ground (arith, same)))
  | inr other ↦ elim (listed-ids j stats) [
    | inl (there, (s, status)) ↦
        inl (ground (arith, other, there), (s, ground (arith, other, status)))
    | inr (gone, status) ↦ inr (ground (arith, other, gone), ground (arith, other, status))
  ]
]

abbrev IsThere : Nimbus → String → Type 0
IsThere n t = (s : String) × (status_at t n.topo_stats ≡ some s)

known : (n : Nimbus) (t : String) → IsThere n t → status_at t n.topo_stats ≡ none → ⊥
known n t (s, there) gone = ground (arith, there, gone)

stop-IsThere :
    (w : World) (t : String) (n : Nimbus)
    → IsThere n t
    → (j : String) → IsThere n j
    → IsThere (stop_topology w t n).0 j
stop-IsThere w t n here j (o, there) =
    let status = status-stop w t j n (known n t here) in
    elim (Bool-cases (str_eq t j)) [
      | inl same ↦ ("idle", status ∙ rw same refl)
      | inr other ↦ (o, status ∙ rw other there)
    ]

-- A change of the head, and then of the rest of a list.
then_rest :
    (here later : Bool) (f : Option String → Option String) (old mid last : Option String)
    → ((o : Option String) → f (f o) ≡ f o)
    → mid ≡ (if here then f old else old)
    → last ≡ (if later then f mid else mid)
    → last ≡ (if here || later then f old else old)
then_rest true true f old mid last twice first next = next ∙ ap f first ∙ twice old
then_rest true false f old mid last twice first next = next ∙ first
then_rest false later f old mid last twice first next =
    next ∙ ap (λ o. if later then f o else o) first

renamed-renamed : (s : String) (o : Option String) → renamed s (renamed s o) ≡ renamed s o
renamed-renamed s none = refl
renamed-renamed s (some x) = refl

status-stop_all :
    (worlds : String → World) (j : String) (ts : List String) (n : Nimbus)
    → All (IsThere n) ts
    → status_at j (stop_all worlds ts n).0.topo_stats
      ≡ (if listed j ts then some "idle" else status_at j n.topo_stats)
unfolding stop_all
status-stop_all worlds j [] n a = refl
status-stop_all worlds j (t ∷ ts) n a =
    let w = worlds t in
    let next = (stop_topology w t n).0 in
    then_rest (str_eq t j) (listed j ts) (λ _. some "idle") (status_at j n.topo_stats)
      (status_at j next.topo_stats) _ (λ _. refl) (status-stop w t j n (known n t a.0))
      (status-stop_all worlds j ts next
        (All-imp (IsThere n) (IsThere next) ts (stop-IsThere w t n a.0) a.1))

status-start_all :
    (worlds worlds' : String → World) (ts : List String) (n : Nimbus)
    → All (λ t. HasOther (worlds t)) ts
    → (after : Nimbus) × (sent : List NimbusRequest) × (start_all worlds worlds' ts n
        ≡ some (after, sent))
      × ((j : String)
          → status_at j after.topo_stats ≡ (
              if listed j ts
              then renamed "running" (status_at j n.topo_stats)
              else status_at j n.topo_stats))
unfolding start_all
status-start_all worlds worlds' [] n a = (n, [], refl, λ j. refl)
status-start_all worlds worlds' (t ∷ ts) n a =
    let (next, sent, run, here) = status-prepare_and_start (worlds t) (worlds' t) t n a.0 in
    let (after, more, runs, rest) = status-start_all worlds worlds' ts next a.1 in
    (
      after,
      sent ++ more,
      rw (start_all, run, runs) refl,
      λ j.
          then_rest (str_eq t j) (listed j ts) (renamed "running") (status_at j n.topo_stats)
            (status_at j next.topo_stats) (status_at j after.topo_stats) (renamed-renamed "running")
            (here j) (rest j),
    )

listed-All : (ts : List String) → All (λ t. listed t ts ≡ true) ts
listed-All [] = tt
listed-All (t ∷ ts) = (
  ground (arith, str_eq_iff t t),
  All-imp (λ x. listed x ts ≡ true) (λ x. listed x (t ∷ ts) ≡ true) ts (λ x h. ground (arith, h))
      (listed-All ts),
)

All-IsThere : (n : Nimbus) → All (IsThere n) (get_all_topo_ids n.topo_stats)
All-IsThere n =
    let ids = get_all_topo_ids n.topo_stats in
    All-imp (λ t. listed t ids ≡ true) (IsThere n) ids
      (λ t h. elim (listed-ids t n.topo_stats) [
        | inl (_, there) ↦ there
        | inr (gone, _) ↦ absurd (ground (arith, h, gone))
      ])
      (listed-All ids)

-- A change of all listed topologies is a change of all that are there.
idle_everywhere :
    (j : String) (stats : TopoStats)
    → (if listed j (get_all_topo_ids stats) then some "idle" else status_at j stats)
      ≡ renamed "idle" (status_at j stats)
idle_everywhere j stats = elim (listed-ids j stats) [
  | inl (there, (s, status)) ↦ ground (arith, there, status)
  | inr (gone, status) ↦ ground (arith, gone, status)
]

running_everywhere :
    (j : String) (stats : TopoStats) (old : Option String)
    → old ≡ renamed "idle" (status_at j stats)
    → (if listed j (get_all_topo_ids stats) then renamed "running" old else old)
      ≡ renamed "running" (status_at j stats)
running_everywhere j stats old h = elim (listed-ids j stats) [
  | inl (there, (s, status)) ↦ ground (arith, there, status, h)
  | inr (gone, status) ↦ ground (arith, gone, status, h)
]

-- When a node fails, as long as a member beside Nimbus's own node is there when each topology is
-- prepared: after the first part every topology that is there is idle, and none else is there; the
-- second part comes to an end, and then the same topologies are there and all of them are running.
pub node_fail_restarts :
    (stopping preparing starting : String → World) (n : Nimbus)
    → All (λ t. HasOther (preparing t)) (get_all_topo_ids n.topo_stats)
    → let (stopped, restarted) = handle_node_fail stopping preparing starting n in
      ((j : String) → status_at j stopped.0.topo_stats ≡ renamed "idle" (status_at j n.topo_stats))
      × (after : Nimbus) × (sent : List NimbusRequest) × (restarted ≡ some (after, sent))
      × ((j : String) → status_at j after.topo_stats ≡ renamed "running" (status_at j n.topo_stats))
unfolding handle_node_fail
node_fail_restarts stopping preparing starting n other =
    let ids = get_all_topo_ids n.topo_stats in
    let stopped = (stop_all stopping ids n).0 in
    let (after, sent, run, statuses) = status-start_all preparing starting ids stopped other in
    let idle : (j : String)
        → status_at j stopped.topo_stats ≡ renamed "idle" (status_at j n.topo_stats) =
      λ j. status-stop_all stopping j ids n (All-IsThere n) ∙ idle_everywhere j n.topo_stats in
    (
      idle,
      after,
      sent,
      run,
      λ j. statuses j ∙ running_everywhere j n.topo_stats (status_at j stopped.topo_stats) (idle j),
    )
