-- ===== src/Tests/Supervisors.antt =====
-- A supervisor with two workers of one id.
use cranesps.Base.{string_key, true}
use cranesps.Supervisor.{Supervisor, add_worker}
use cranesps.Supervisor.Life.{first_supervisor, adds, begin, next, IsOwned, Reach-IsOwned}

abbrev two_workers : Supervisor
two_workers = (add_worker "ipc:///tmp/wordscount" true 2 first_supervisor).0

Reach-IsOwned_example : IsOwned two_workers
Reach-IsOwned_example =
    Reach-IsOwned (next begin (adds "ipc:///tmp/wordscount" true 2 first_supervisor))
