-- ===== src/Supervisor/Workers.antt =====
-- The ports of the workers: fresh, all different, and kept until the workers are killed.
use cranesps.Base.{
  append_nil, ltb, leb, ◌==◌, ◌||◌, ◌&&◌, not, string_key, ℕ, zero, suc, ◌+◌, String, ◌≡◌, refl, ap,
  sym, ◌∙◌, Bool, false, List, [], ◌∷◌, ◌++◌, arith, map, inl, inr, Option-cases,
}
use mathlib.Core.List.{append_assoc}
use cranesps.Base.Text.{str_eq, str_eq_iff}
use cranesps.Base.StdMap.{lookup, at_or, lookup-set, lookup-erase}
use cranesps.Nimbus.Assign.{GroupedAddresses}
use cranesps.Supervisor.{
  Worker, Supervisor, next_available_worker_port, new_workers, add_worker, on_workers,
  configure_connections, start_worker, kill_worker,
}

abbrev pub ports_of : List Worker → List ℕ
ports_of [] = []
ports_of (w ∷ ws) = w.data_port ∷ ports_of ws

-- The numbers from one on.
abbrev pub count_up : ℕ → ℕ → List ℕ
count_up zero from = []
count_up (suc n) from = from ∷ count_up n (suc from)

ports_of-append : (a b : List Worker) → ports_of (a ++ b) ≡ ports_of a ++ ports_of b
ports_of-append [] b = refl
ports_of-append (w ∷ a) b = ap (λ t. w.data_port ∷ t) (ports_of-append a b)

new_workers_lem :
    (n : ℕ) (worker_id : String) (is_bolt : Bool) (workers : List Worker) (s : Supervisor)
    → let (all, ports, after) = new_workers n worker_id is_bolt workers s in
      (ports_of all ≡ ports_of workers ++ count_up n s.port)
      × (ports ≡ count_up n s.port)
      × (after.port ≡ s.port + n)
unfolding new_workers next_available_worker_port
new_workers_lem zero worker_id is_bolt workers s =
    (sym (append_nil (ports_of workers)), refl, omega arith)
new_workers_lem (suc n) worker_id is_bolt workers s =
    let next : Supervisor = record s { port = suc s.port } in
    let worker : Worker = record {
      worker_id = worker_id;
      data_port = s.port;
      is_bolt = is_bolt;
      connections = [];
      started = false;
    } in
    let (all, ports, after) = new_workers_lem n worker_id is_bolt (workers ++ worker ∷ []) next in
    (
      all
          ∙ ap (λ t. t ++ count_up n (suc s.port)) (ports_of-append workers (worker ∷ []))
          ∙ append_assoc (ports_of workers) (s.port ∷ []) (count_up n (suc s.port)),
      ap (λ t. s.port ∷ t) ports,
      omega (arith, after),
    )

abbrev pub has_port : ℕ → List Worker → Bool
has_port p [] = false
has_port p (w ∷ ws) = (w.data_port == p) || has_port p ws

new_workers-has_port :
    (n : ℕ) (worker_id : String) (is_bolt : Bool) (workers : List Worker) (s : Supervisor) (p : ℕ)
    → has_port p (new_workers n worker_id is_bolt workers s).0
      ≡ (has_port p workers || (leb s.port p && ltb p (s.port + n)))
unfolding new_workers next_available_worker_port
new_workers-has_port zero worker_id is_bolt workers s p = ground arith
new_workers-has_port (suc n) worker_id is_bolt workers s p =
    let next : Supervisor = record s { port = suc s.port } in
    let worker : Worker = record {
      worker_id = worker_id;
      data_port = s.port;
      is_bolt = is_bolt;
      connections = [];
      started = false;
    } in
    new_workers-has_port n worker_id is_bolt (workers ++ worker ∷ []) next p
    ∙ ground (arith, has_port-append p workers worker)
  where
    has_port-append :
        (p : ℕ) (ws : List Worker) (w : Worker)
        → has_port p (ws ++ w ∷ []) ≡ (has_port p ws || (w.data_port == p))
    has_port-append p [] w = ground arith
    has_port-append p (x ∷ ws) w = ground (arith, has_port-append p ws w)

has_port-map :
    (f : Worker → Worker) (p : ℕ) (ws : List Worker)
    → ((w : Worker) → (f w).data_port ≡ w.data_port)
    → has_port p (map f ws) ≡ has_port p ws
has_port-map f p [] keep = refl
has_port-map f p (w ∷ ws) keep = ground (arith, keep w, has_port-map f p ws keep)

-- Whether the workers of an id have a port.
abbrev pub owns : String → ℕ → Supervisor → Bool
owns i p s = has_port p (at_or i [] s.workers_map)

owns-on_workers :
    (worker_id i : String) (f : Worker → Worker) (p : ℕ) (s : Supervisor)
    → ((w : Worker) → (f w).data_port ≡ w.data_port)
    → owns i p (on_workers worker_id f s) ≡ owns i p s
unfolding on_workers
owns-on_workers worker_id i f p s keep = elim (Option-cases (lookup worker_id s.workers_map)) [
  | inl gone ↦ ground (arith, gone)
  | inr (ws, held) ↦ ground (
    arith,
    held,
    str_eq_iff worker_id i,
    lookup-set worker_id i (map f ws) s.workers_map,
    has_port-map f p ws keep,
  )
]

-- Whose workers have which port after each operation: adding `level` workers gives its id the next
-- `level` ports of the counter, which it replies in order, and moves the counter past them; killing
-- takes all ports of its id; configuring and starting change none.
pub owns_exact :
    (worker_id i : String) (is_bolt : Bool) (level p : ℕ) (groups : List GroupedAddresses)
    (s : Supervisor)
    → let (added, ports) = add_worker worker_id is_bolt level s in
      (owns i p added
        ≡ (owns i p s || (str_eq worker_id i && (leb s.port p && ltb p (s.port + level)))))
      × (ports ≡ count_up level s.port)
      × (added.port ≡ s.port + level)
      × (owns i p (kill_worker worker_id s).0 ≡ (owns i p s && not (str_eq worker_id i)))
      × (owns i p (configure_connections worker_id groups s) ≡ owns i p s)
      × (owns i p (start_worker worker_id s) ≡ owns i p s)
unfolding add_worker kill_worker
owns_exact worker_id i is_bolt level p groups s =
    let before = at_or worker_id [] s.workers_map in
    let made = new_workers_lem level worker_id is_bolt before s in
    (
      ground (
        arith,
        str_eq_iff worker_id i,
        lookup-set worker_id i (new_workers level worker_id is_bolt before s).0 s.workers_map,
        new_workers-has_port level worker_id is_bolt before s p,
      ),
      made.1,
      made.2,
      elim (Option-cases (lookup worker_id s.workers_map)) [
        | inl gone ↦ ground (arith, gone, str_eq_iff worker_id i)
        | inr (ws, held) ↦
            ground (arith, held, str_eq_iff worker_id i, lookup-erase worker_id i s.workers_map)
      ],
      owns-on_workers worker_id i _ p s (λ w. refl),
      owns-on_workers worker_id i _ p s (λ w. refl),
    )
