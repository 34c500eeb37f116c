-- ===== src/Supervisor/Messages.antt =====
-- daemon/src/message/CraneMessageHandler.cpp on the requests of Nimbus: what a supervisor does on
-- each, for the library's append and search of texts, `join` and `find`.
use cranesps.Base.{String, Bool, ◌||◌, List, [], ◌∷◌}
use cranesps.Nimbus.Assign.{GroupedAddresses}
use cranesps.Nimbus.Lifecycle.{NimbusRequest, add_worker, config_conns, start_worker, kill_worker}
use cranesps.Supervisor
use cranesps.Supervisor.{Supervisor, create_worker_id}

module _ (join : String → String → String) (find : String → String → Bool) where
  abbrev pub is_bolt : String → Bool
  is_bolt run_name = find "Bolt" run_name || find "bolt" run_name

  -- The loop over the connections of a request.
  unfoldable pub configure_all :
      String → List (String × List GroupedAddresses) → Supervisor → Supervisor
  configure_all topo_id [] s = s
  configure_all topo_id ((name, groups) ∷ rest) s =
      configure_all topo_id rest
        (Supervisor.configure_connections (create_worker_id join topo_id name) groups s)

  unfoldable pub process : NimbusRequest → Supervisor → Supervisor
  process (add_worker supervisor topo_id name run_name count) s =
      (Supervisor.add_worker (create_worker_id join topo_id name) (is_bolt run_name) count s).0
  process (config_conns supervisor topo_id conns) s = configure_all topo_id conns s
  process (start_worker supervisor topo_id name) s =
      Supervisor.start_worker (create_worker_id join topo_id name) s
  process (kill_worker supervisor topo_id name) s =
      (Supervisor.kill_worker (create_worker_id join topo_id name) s).0
