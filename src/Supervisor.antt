-- ===== src/Supervisor.antt =====
-- daemon/src/supervisor/Supervisor.cpp: the workers of a node, and the requests of Nimbus, which
-- daemon/src/message/CraneMessageHandler.cpp hands over. A worker is a process of its own; here it
-- is what the supervisor keeps of it, and whether it was configured, started or killed.
pub mod Workers
pub mod Life
pub mod Messages
pub mod Cluster
pub mod Deploy
pub mod Wiring
pub mod Wired
use cranesps.Base.{
  string_key, ℕ, zero, suc, ◌+◌, String, Bool, true, false, Option, none, some, List, [], ◌∷◌, ◌++◌,
  map, if◌then◌else◌,
}
use cranesps.Base.StdMap.{lookup, set, erase, at_or}
use cranesps.Nimbus.Assign.{GroupedAddresses}

pub record Worker : Type 0 where
  pub worker_id : String
  pub data_port : ℕ
  pub is_bolt : Bool
  pub connections : List GroupedAddresses
  pub started : Bool

pub record Supervisor : Type 0 where
  pub workers_map : List (String × List Worker)
  pub port : ℕ  -- the static variable of `nextAvailableWorkerPort`

abbrev pub worker_base_port : ℕ
worker_base_port = 3000

-- `createWorkerId` for texts joined by `join`, the library's append.
abbrev pub create_worker_id : (String → String → String) → String → String → String
create_worker_id join topo_id name = join (join "ipc:///tmp/" topo_id) name

unfoldable pub next_available_worker_port : Supervisor → ℕ × Supervisor
next_available_worker_port s = (s.port, record s { port = suc s.port })

-- The loop of `addWorker`: the new workers behind those of the list, and the ports.
unfoldable pub new_workers :
    ℕ → String → Bool → List Worker → Supervisor → List Worker × List ℕ × Supervisor
new_workers zero worker_id is_bolt workers s = (workers, [], s)
new_workers (suc n) worker_id is_bolt workers s =
    let (port, next) = next_available_worker_port s in
    let worker : Worker = record {
      worker_id = worker_id;
      data_port = port;
      is_bolt = is_bolt;
      connections = [];
      started = false;
    } in
    let (all, ports, after) = new_workers n worker_id is_bolt (workers ++ worker ∷ []) next in
    (all, port ∷ ports, after)

-- The ports are the reply to Nimbus.
unfoldable pub add_worker : String → Bool → ℕ → Supervisor → Supervisor × List ℕ
add_worker worker_id is_bolt level s =
    let (all, ports, after) =
      new_workers level worker_id is_bolt (at_or worker_id [] s.workers_map) s in
    (record after { workers_map = set worker_id all s.workers_map }, ports)

unfoldable pub on_workers : String → (Worker → Worker) → Supervisor → Supervisor
on_workers worker_id f s = elim (lookup worker_id s.workers_map) [
  | none ↦ s
  | some workers ↦ record s { workers_map = set worker_id (map f workers) s.workers_map }
]

abbrev pub configure_connections : String → List GroupedAddresses → Supervisor → Supervisor
configure_connections worker_id groups =
    on_workers worker_id (λ w. record w { connections = groups })

abbrev pub start_worker : String → Supervisor → Supervisor
start_worker worker_id = on_workers worker_id (λ w. record w { started = true })

-- The new state, and the ports of the workers that are killed.
unfoldable pub kill_worker : String → Supervisor → Supervisor × List ℕ
kill_worker worker_id s = elim (lookup worker_id s.workers_map) [
  | none ↦ (s, [])
  | some workers ↦ (
    record s { workers_map = erase worker_id s.workers_map },
    map (λ (w : Worker). w.data_port) workers,
  )
]
