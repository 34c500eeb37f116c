-- ===== src/Supervisor/Wiring.antt =====
-- The connections of the workers, once every supervisor has the request with them.
use cranesps.Base.{
  ◌⊎◌, string_key, String, ◌≡◌, refl, sym, ap, ◌∙◌, subst, Bool, true, false, none, some, inl, inr,
  List, [], ◌∷◌, arith, map, All, All-imp, if◌then◌else◌, Bool-cases, Option-cases,
}
use cranesps.Base.Text.{str_eq, str_eq_iff}
use cranesps.Base.StdMap.{lookup, at_or, lookup-set}
use cranesps.Base.StdMap.Order.{IsSorted, lookup-Above}
use cranesps.Nimbus.Assign.{GroupedAddresses}
use cranesps.Nimbus.Lifecycle.{NimbusRequest, config_conns}
use cranesps.Supervisor
use cranesps.Supervisor.{Worker, Supervisor, create_worker_id, on_workers}
use cranesps.Supervisor.Messages.{process, configure_all}
use cranesps.Supervisor.Cluster.{Cluster, IsThere, IsThere-set, serve, serve_all, serve-there}

-- All workers of an id have these connections.
abbrev pub Connected : String → List GroupedAddresses → Supervisor → Type 0
Connected i groups s = All (λ (w : Worker). w.connections ≡ groups) (at_or i [] s.workers_map)

All-connected :
    (groups : List GroupedAddresses) (ws : List Worker)
    → All
        (λ (w : Worker). w.connections ≡ groups)
        (map (λ (w : Worker). record w { connections = groups }) ws)
All-connected groups [] = tt
All-connected groups (w ∷ ws) = (refl, All-connected groups ws)

at_or-configure_connections :
    (worker_id i : String) (groups : List GroupedAddresses) (s : Supervisor)
    → at_or i [] (Supervisor.configure_connections worker_id groups s).workers_map ≡ (
        if str_eq worker_id i
        then map (λ (w : Worker). record w { connections = groups }) (at_or i [] s.workers_map)
        else at_or i [] s.workers_map)
unfolding on_workers
at_or-configure_connections worker_id i groups s =
    elim (Option-cases (lookup worker_id s.workers_map)) [
      | inl gone ↦ ground (arith, gone, str_eq_iff worker_id i)
      | inr (ws, held) ↦ ground (
        arith,
        held,
        str_eq_iff worker_id i,
        lookup-set worker_id i (map (λ (w : Worker). record w { connections = groups }) ws)
            s.workers_map,
      )
    ]

module _ (join : String → String → String) (find : String → String → Bool) (t x : String)
    (distinct : (y : String) → create_worker_id join t y ≡ create_worker_id join t x → y ≡ x) where
  -- Another name leaves the workers alone.
  configure-other :
      (y : String) (groups : List GroupedAddresses) (s : Supervisor)
      → str_eq y x ≡ false
      → at_or
          (create_worker_id join t x)
          []
          (Supervisor.configure_connections (create_worker_id join t y) groups s).workers_map
        ≡ at_or (create_worker_id join t x) [] s.workers_map
  configure-other y groups s other =
      let all =
        at_or-configure_connections (create_worker_id join t y) (create_worker_id join t x) groups
          s in
      elim (Bool-cases (str_eq (create_worker_id join t y) (create_worker_id join t x))) [
        | inl hit ↦
            let e = (str_eq_iff y x).1 (
              distinct y
                ((str_eq_iff (create_worker_id join t y) (create_worker_id join t x)).0 hit)) in
            absurd (ground (arith, other, e))
        | inr miss ↦ all ∙ rw miss refl
      ]

  configure-same :
      (y : String) (groups : List GroupedAddresses) (s : Supervisor)
      → str_eq y x ≡ true
      → Connected
          (create_worker_id join t x)
          groups
          (Supervisor.configure_connections (create_worker_id join t y) groups s)
  configure-same y groups s same =
      let i = create_worker_id join t x in
      let e = ap (create_worker_id join t) ((str_eq_iff y x).0 same) in
      let all = at_or-configure_connections (create_worker_id join t y) i groups s in
      let hit = (str_eq_iff (create_worker_id join t y) i).1 e in
      subst (All _) (sym (all ∙ rw hit refl)) (All-connected groups (at_or i [] s.workers_map))

  configure_all-other :
      (conns : List (String × List GroupedAddresses)) (s : Supervisor)
      → lookup x conns ≡ none
      → at_or (create_worker_id join t x) [] (configure_all join find t conns s).workers_map
        ≡ at_or (create_worker_id join t x) [] s.workers_map
  unfolding configure_all lookup
  configure_all-other [] s gone = refl
  configure_all-other ((y, groups) ∷ conns) s gone =
      let other : str_eq y x ≡ false = ground (arith, gone) in
      let rest : lookup x conns ≡ none = ground (arith, gone, other) in
      configure_all-other conns _ rest ∙ configure-other y groups s other

  configure_all-Connected :
      (conns : List (String × List GroupedAddresses)) (groups : List GroupedAddresses)
      (s : Supervisor)
      → IsSorted conns
      → lookup x conns ≡ some groups
      → Connected (create_worker_id join t x) groups (configure_all join find t conns s)
  unfolding configure_all lookup
  configure_all-Connected [] groups s sorted held = absurd (ground (arith, held))
  configure_all-Connected ((y, own) ∷ conns) groups s sorted held = elim (Bool-cases (str_eq y x)) [
    | inl same ↦
        let mine : own ≡ groups = ground (arith, held, same) in
        let gone : lookup x conns ≡ none =
          subst (λ k. lookup k conns ≡ none) ((str_eq_iff y x).0 same)
            (lookup-Above y conns sorted.0) in
        let next = Supervisor.configure_connections (create_worker_id join t y) own s in
        let now =
          subst (All (λ (w : Worker). w.connections ≡ own))
            (sym (configure_all-other conns next gone)) (configure-same y own s same) in
        subst (λ g. Connected (create_worker_id join t x) g (configure_all join find t conns next))
          mine now
    | inr other ↦ configure_all-Connected conns groups _ sorted.1 (ground (arith, held, other))
  ]

  module _ (conns : List (String × List GroupedAddresses)) (groups : List GroupedAddresses)
      (sorted : IsSorted conns) (held : lookup x conns ≡ some groups) where
    -- The node is there, and its workers of the name have the groups.
    abbrev pub IsWired : Cluster → String → Type 0
    IsWired cl node =
        (s : Supervisor) × (lookup node cl ≡ some s)
        × Connected (create_worker_id join t x) groups s

    IsWired-serve :
        (node j : String) (cl : Cluster)
        → IsThere cl j
        → IsWired cl node ⊎ (j ≡ node)
        → IsWired (serve join find (config_conns j t conns) cl) node
    unfolding process
    IsWired-serve node j cl (s, at) wired =
        let now = serve-there join find (config_conns j t conns) cl s at in
        let after = configure_all join find t conns s in
        let done = configure_all-Connected conns groups s sorted held in
        subst (λ c. IsWired c node) (sym now)
          (elim (Bool-cases (str_eq j node)) [
            | inl same ↦ (after, ground (arith, same, lookup-set j node after cl), done)
            | inr other ↦ elim wired [
              | inl (old, there, connected) ↦
                  (old, ground (arith, other, there, lookup-set j node after cl), connected)
              | inr itself ↦
                  absurd (let e = (str_eq_iff j node).1 itself in ground (arith, other, e))
            ]
          ])

    IsThere-config :
        (node j : String) (cl : Cluster)
        → IsThere cl j
        → IsThere cl node
        → IsThere (serve join find (config_conns j t conns) cl) node
    IsThere-config node j cl (s, at) there =
        subst (λ c. IsThere c node) (sym (serve-there join find (config_conns j t conns) cl s at))
          (IsThere-set j node _ cl there)

    abbrev configs : List String → List NimbusRequest
    configs supervisors = map (λ s. config_conns s t conns) supervisors

    IsWired-configs :
        (node : String) (supervisors : List String) (cl : Cluster)
        → All (IsThere cl) supervisors
        → IsWired cl node
        → IsWired (serve_all join find (configs supervisors) cl) node
    unfolding serve_all
    IsWired-configs node [] cl there wired = wired
    IsWired-configs node (j ∷ supervisors) cl (at, there) wired =
        IsWired-configs node supervisors _
          (All-imp (IsThere cl) _ supervisors (λ i h. IsThere-config i j cl at h) there)
          (IsWired-serve node j cl at (inl wired))

    pub configs-IsWired :
        (supervisors : List String) (cl : Cluster)
        → All (IsThere cl) supervisors
        → All (IsWired (serve_all join find (configs supervisors) cl)) supervisors
    unfolding serve_all
    configs-IsWired [] cl there = tt
    configs-IsWired (j ∷ supervisors) cl (at, there) =
        let still = All-imp (IsThere cl) _ supervisors (λ i h. IsThere-config i j cl at h) there in
        (
          IsWired-configs j supervisors _ still (IsWired-serve j j cl at (inr refl)),
          configs-IsWired supervisors _ still,
        )
