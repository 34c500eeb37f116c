-- ===== src/Tests/Topologies.antt =====
-- A topology of one spout and one bolt of three, on a group of three nodes.
use cranesps.Base.{
  map, ◌<◌, ◌*◌, length, arith, string_key, ◌+◌, String, ◌≡◌, refl, true, some, List, [], ◌∷◌, All,
}
use cranesps.Nimbus.Stats.{
  Nimbus, TopologySpec, new_tracker, get_all_topo_ids, get_topo_spec, update_supervisors,
}
use cranesps.Nimbus.Assign.{Assignment, assign, tasks}
use cranesps.Nimbus.Assign.Connections.{children}
use cranesps.Supervisor.{Supervisor}
use cranesps.Supervisor.Wiring.{Connected}
use cranesps.Supervisor.Wired.{wired, told_group}
use cranesps.Nimbus.Assign.Balance.{load, balanced}
use cranesps.Nimbus.Lifecycle.{World, NimbusRequest, prepare_topology}
use cranesps.Nimbus.Requests.{Handled, start, process, exists_topo, handle_node_fail}
use cranesps.Nimbus.Requests.Status.{HasOther, status_at, renamed}
use cranesps.Nimbus.Requests.Served.{client_step_exact, step}
use cranesps.Nimbus.Requests.Restart.{node_fail_restarts}
use cranesps.Base.Text.{str_eq}
use cranesps.Base.StdMap.{lookup}
use cranesps.Supervisor.Life.{first_supervisor}
use cranesps.Supervisor.Cluster.{Cluster, workers_in, IsThere, serve_all}
use cranesps.Nimbus.Assign.Wanted.{wanted}
use cranesps.Supervisor.Deploy.{deployed}

abbrev spec : TopologySpec
spec = record {
  name = "words";
  bolt_specs =
      record {
        name = "count";
        parents = ("lines", "FieldGrouping") ∷ [];
        run_name = "CountBolt";
        para_level = 3;
      }
      ∷ [];
  spout_specs = record { name = "lines"; run_name = "LineSpout" } ∷ [];
  node = 3;
  acker_bolt = true;
}

abbrev idle_words : Nimbus
idle_words = record {
  topo_stats = ("words", record new_tracker { status = "idle"; topo_spec = spec }) ∷ [];
  supervisors = [];
  executor = "";
}

abbrev world : World
world = record {
  own_id = "a";
  members = "a" ∷ "b" ∷ "c" ∷ [];
  ports = λ supervisor name count. 3000 ∷ [];
}

client_step_exact_example :
    (h : Handled) × (process world world (start "words") idle_words ≡ some h)
    × ((j : String)
        → status_at j h.nimbus.topo_stats
          ≡ step
              (start "words")
              (exists_topo "words" idle_words)
              j
              (status_at j idle_words.topo_stats))
client_step_exact_example = client_step_exact world world (start "words") idle_words refl

abbrev cluster : Cluster
cluster = ("b", first_supervisor) ∷ ("c", first_supervisor) ∷ []

others_served : All (IsThere cluster) (update_supervisors "a" world.members idle_words).supervisors
unfolding update_supervisors lookup
others_served = ((first_supervisor, refl), ((first_supervisor, refl), tt))

three_counts : wanted "count" spec ≡ 3
three_counts = refl

deployed_example :
    (n' : Nimbus) × (sent : List NimbusRequest) × (prepare_topology world "words" idle_words
      ≡ some (n', sent))
    × (workers_in "count" (serve_all (λ a b. b) str_eq sent cluster)
        ≡ workers_in "count" cluster + wanted "count" (get_topo_spec "words" idle_words.topo_stats))
deployed_example =
    deployed (λ a b. b) str_eq world "words" "count" idle_words cluster refl ((refl, tt), (tt, tt))
      others_served (λ y same. same)

abbrev running_words : Nimbus
running_words = record idle_words {
  topo_stats = ("words", record new_tracker { status = "running"; topo_spec = spec }) ∷ [];
}

others_there : All (λ (t : String). HasOther world) (get_all_topo_ids running_words.topo_stats)
unfolding get_all_topo_ids
others_there = (refl, tt)

node_fail_restarts_example :
    ((j : String)
      → status_at j
          (handle_node_fail (λ _. world) (λ _. world) (λ _. world) running_words).0.0.topo_stats
        ≡ renamed "idle" (status_at j running_words.topo_stats))
    × (after : Nimbus) × (sent : List NimbusRequest) × ((handle_node_fail
          (λ _. world)
          (λ _. world)
          (λ _. world)
          running_words).1
        ≡ some (after, sent))
    × ((j : String)
        → status_at j after.topo_stats ≡ renamed "running" (status_at j running_words.topo_stats))
node_fail_restarts_example =
    node_fail_restarts (λ _. world) (λ _. world) (λ _. world) running_words others_there

abbrev four : List String
four = tasks spec

abbrev turned : Nimbus
turned = record idle_words { supervisors = "b" ∷ "c" ∷ []; executor = "c" }

balanced_example :
    (n' : Nimbus) × (b : Assignment) × (assign four turned [] ≡ some (n', b))
    × All
        (λ s. (load s b * 2 < length four + 2) × (length four < load s b * 2 + 2))
        ("b" ∷ "c" ∷ [])
balanced_example = balanced four turned (omega arith) (refl, refl, (refl, refl, tt))

lines_feed_count : children "lines" spec.bolt_specs ≡ ("count", "FieldGrouping") ∷ []
lines_feed_count = refl

wired_example :
    (n' : Nimbus) × (sent : List NimbusRequest) × (prepare_topology world "words" idle_words
      ≡ some (n', sent))
    × All
        (λ node.
          (s : Supervisor) × (lookup node (serve_all (λ a b. b) str_eq sent cluster) ≡ some s)
          × Connected "lines"
              (map
                (told_group world "words" idle_words.topo_stats sent)
                (("count", "FieldGrouping") ∷ []))
              s)
        ("b" ∷ "c" ∷ [])
unfolding update_supervisors get_topo_spec lookup
wired_example =
    wired (λ a b. b) str_eq world "words" "lines" idle_words cluster ("count", "FieldGrouping") []
      refl ((record new_tracker { status = "idle"; topo_spec = spec }), refl) others_served
      (λ y same. same) lines_feed_count
