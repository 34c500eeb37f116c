-- ===== src/Supervisor/Life.antt =====
-- The life of a supervisor: the requests of Nimbus in any order.
use cranesps.Base.{
  string_key, ℕ, ◌<◌, String, ◌≡◌, sym, ◌∙◌, Bool, true, List, [], arith, inl, inr, Bool-cases,
}
use cranesps.Base.Text.{str_eq_iff}
use cranesps.Base.StdMap.{lookup}
use cranesps.Nimbus.Assign.{GroupedAddresses}
use cranesps.Supervisor.{
  Worker, Supervisor, worker_base_port, add_worker, configure_connections, start_worker,
  kill_worker, on_workers,
}
use cranesps.Supervisor.Workers.{owns, owns_exact}

abbrev pub first_supervisor : Supervisor
first_supervisor = record { workers_map = []; port = worker_base_port }

pub data Step : Supervisor → Supervisor → Type 0 where
  adds :
      (worker_id : String) (is_bolt : Bool) (level : ℕ) (s : Supervisor)
      → Step s (add_worker worker_id is_bolt level s).0
  configures :
      (worker_id : String) (groups : List GroupedAddresses) (s : Supervisor)
      → Step s (configure_connections worker_id groups s)
  starts : (worker_id : String) (s : Supervisor) → Step s (start_worker worker_id s)
  kills : (worker_id : String) (s : Supervisor) → Step s (kill_worker worker_id s).0

pub data Reach : Supervisor → Type 0 where
  begin : Reach first_supervisor
  next : {s s' : Supervisor} → Reach s → Step s s' → Reach s'

-- Every port of a worker is below the counter, and belongs to one id.
pub record IsOwned (s : Supervisor) : Type 0 where
  pub below : (i : String) (p : ℕ) → owns i p s ≡ true → p < s.port
  pub one_owner : (i j : String) (p : ℕ) → owns i p s ≡ true → owns j p s ≡ true → i ≡ j

-- From fewer or the same owners and the same counter.
fewer :
    (s s' : Supervisor)
    → s'.port ≡ s.port
    → ((i : String) (p : ℕ) → owns i p s' ≡ true → owns i p s ≡ true)
    → IsOwned s
    → IsOwned s'
fewer s s' same less o = record {
  below = λ i p h. let b = o.below i p (less i p h) in omega (arith, same, b);
  one_owner = λ i j p h k. o.one_owner i j p (less i p h) (less j p k);
}

port-on_workers :
    (worker_id : String) (f : Worker → Worker) (s : Supervisor)
    → (on_workers worker_id f s).port ≡ s.port
unfolding on_workers
port-on_workers worker_id f s = ground arith

port-kill_worker : (worker_id : String) (s : Supervisor) → (kill_worker worker_id s).0.port ≡ s.port
unfolding kill_worker
port-kill_worker worker_id s = ground arith

added-IsOwned :
    (worker_id : String) (is_bolt : Bool) (level : ℕ) (s : Supervisor)
    → IsOwned s
    → IsOwned (add_worker worker_id is_bolt level s).0
added-IsOwned worker_id is_bolt level s o = record {
  below = λ i p h.
      let exact = owns_exact worker_id i is_bolt level p [] s in
      elim (Bool-cases (owns i p s)) [
        | inl old ↦ let b = o.below i p old in omega (arith, exact.2, b)
        | inr new ↦ ground (arith, exact.0, exact.2, h, new)
      ];
  one_owner = λ i j p h k.
      let at_i = owns_exact worker_id i is_bolt level p [] s in
      let at_j = owns_exact worker_id j is_bolt level p [] s in
      elim (Bool-cases (owns i p s)) [
        | inl old ↦
            let b = o.below i p old in
            let old_j : owns j p s ≡ true = ground (arith, at_j.0, k, b) in
            o.one_owner i j p old old_j
        | inr new ↦ elim (Bool-cases (owns j p s)) [
          | inl old ↦ let b = o.below j p old in ground (arith, at_i.0, h, b, new)
          | inr new_j ↦ ground (
            arith,
            at_i.0,
            at_j.0,
            h,
            k,
            new,
            new_j,
            str_eq_iff worker_id i,
            str_eq_iff worker_id j,
          )
        ]
      ];
}

Step-IsOwned : {s s' : Supervisor} → Step s s' → IsOwned s → IsOwned s'
Step-IsOwned (adds worker_id is_bolt level s) o = added-IsOwned worker_id is_bolt level s o
Step-IsOwned (configures worker_id groups s) o =
    fewer s _ (port-on_workers worker_id _ s)
      (λ i p h. sym (owns_exact worker_id i true 0 p groups s).4 ∙ h) o
Step-IsOwned (starts worker_id s) o =
    fewer s _ (port-on_workers worker_id _ s)
      (λ i p h. sym (owns_exact worker_id i true 0 p [] s).5 ∙ h) o
Step-IsOwned (kills worker_id s) o =
    fewer s _ (port-kill_worker worker_id s)
      (λ i p h. let e = (owns_exact worker_id i true 0 p [] s).3 in ground (arith, e, h)) o

-- Whatever Nimbus asks for, in any order: the port of every worker is below the counter of ports, and
-- no two ids have a worker with the same port.
pub Reach-IsOwned : {s : Supervisor} → Reach s → IsOwned s
Reach-IsOwned begin = record {
  below = λ i p h. unfold lookup in ground arith;
  one_owner = λ i j p h k. unfold lookup in ground arith;
}
Reach-IsOwned (next r step) = Step-IsOwned step (Reach-IsOwned r)
