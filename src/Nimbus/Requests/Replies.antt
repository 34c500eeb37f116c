-- ===== src/Nimbus/Requests/Replies.antt =====
-- The addresses of the workers of a topology, against what the supervisors reply.
use mathlib.Core.List.{append_assoc}
use cranesps.Base.{
  string_key, ℕ, String, ◌≡◌, refl, sym, ap, ◌∙◌, inl, inr, some, List, [], ◌∷◌, ◌++◌, arith, map,
  append_nil, if◌then◌else◌, Bool-cases,
}
use cranesps.Base.Text.{str_eq, str_eq_iff}
use cranesps.Base.StdMap.{lookup, set, at_or, lookup-set, lookup-set_self}
use cranesps.DMember.Types.{Address, make_addr}
use cranesps.Nimbus.Stats.{
  Tracker, TopoStats, on_tracker, add_topo_task_instance, get_topo_task_instances,
}
use cranesps.Nimbus.Assign.{Assignment, GroupedAddresses, groups}
use cranesps.Nimbus.Lifecycle.{
  NimbusRequest, add_worker, config_conns, start_worker, kill_worker, World, add_instances,
  add_groups, add_workers,
}

-- The addresses in the replies to the requests for workers of a name, in order.
unfoldable pub replied : World → String → List NimbusRequest → List Address
replied w x [] = []
replied w x (add_worker supervisor topo_id name run_name count ∷ sent) =
    let rest = replied w x sent in
    if str_eq name x
    then map (make_addr supervisor) (w.ports supervisor name count) ++ rest
    else rest
replied w x (config_conns supervisor topo_id conns ∷ sent) = replied w x sent
replied w x (start_worker supervisor topo_id name ∷ sent) = replied w x sent
replied w x (kill_worker supervisor topo_id name ∷ sent) = replied w x sent

pub replied-append :
    (w : World) (x : String) (a b : List NimbusRequest)
    → replied w x (a ++ b) ≡ replied w x a ++ replied w x b
unfolding replied
replied-append w x [] b = refl
replied-append w x (add_worker s t name run count ∷ a) b = elim (Bool-cases (str_eq name x)) [
  | inl same ↦ rw same (
      ap (λ l. map (make_addr s) (w.ports s name count) ++ l) (replied-append w x a b)
      ∙ sym
          (append_assoc (map (make_addr s) (w.ports s name count)) (replied w x a) (replied w x b)))
  | inr other ↦ rw other (replied-append w x a b)
]
replied-append w x (config_conns s t conns ∷ a) b = replied-append w x a b
replied-append w x (start_worker s t name ∷ a) b = replied-append w x a b
replied-append w x (kill_worker s t name ∷ a) b = replied-append w x a b

pub replied-config :
    (w : World) (x t : String) (conns : List (String × List GroupedAddresses))
    (supervisors : List String)
    → replied w x (map (λ s. config_conns s t conns) supervisors) ≡ []
unfolding replied
replied-config w x t conns [] = refl
replied-config w x t conns (s ∷ supervisors) = replied-config w x t conns supervisors

-- The topology is there.
abbrev pub IsTracked : String → TopoStats → Type 0
IsTracked t stats = (k : Tracker) × (lookup t stats ≡ some k)

module _ (t : String) where
  add_one :
      (name x : String) (new : Address) (stats : TopoStats)
      → IsTracked t stats
      → IsTracked t (add_topo_task_instance t name new stats)
        × (get_topo_task_instances t x (add_topo_task_instance t name new stats) ≡ (
            if str_eq name x
            then get_topo_task_instances t x stats ++ new ∷ []
            else get_topo_task_instances t x stats))
  unfolding on_tracker get_topo_task_instances
  add_one name x new stats (k, held) =
      let more = at_or name [] k.task_instances ++ new ∷ [] in
      let k' : Tracker = record k { task_instances = set name more k.task_instances } in
      let now = lookup-set_self t k' stats in
      let one = lookup-set name x more k.task_instances in
      ((k', ground (arith, held, now)), ground (arith, held, now, one, str_eq_iff name x))

  add_all :
      (name x supervisor : String) (ports : List ℕ) (stats : TopoStats)
      → IsTracked t stats
      → IsTracked t (add_instances t name supervisor ports stats)
        × (get_topo_task_instances t x (add_instances t name supervisor ports stats) ≡ (
            if str_eq name x
            then get_topo_task_instances t x stats ++ map (make_addr supervisor) ports
            else get_topo_task_instances t x stats))
  unfolding add_instances
  add_all name x supervisor [] stats there = (
    there,
    elim (Bool-cases (str_eq name x)) [
      | inl same ↦ rw same (sym (append_nil (get_topo_task_instances t x stats)))
      | inr other ↦ rw other refl
    ],
  )
  add_all name x supervisor (port ∷ ports) stats there =
      let (first, one) = add_one name x (make_addr supervisor port) stats there in
      let (last, rest) = add_all name x supervisor ports _ first in
      (
        last,
        elim (Bool-cases (str_eq name x)) [
          | inl same ↦
              let one' : get_topo_task_instances t x
                    (add_topo_task_instance t name (make_addr supervisor port) stats)
                  ≡ get_topo_task_instances t x stats ++ make_addr supervisor port ∷ [] =
                one ∙ rw same refl in
              rw same (
                rest
                ∙ rw same (
                    ap (λ l. l ++ map (make_addr supervisor) ports) one'
                    ∙ append_assoc (get_topo_task_instances t x stats)
                        (make_addr supervisor port ∷ []) (map (make_addr supervisor) ports)))
          | inr other ↦ rw other (rest ∙ rw other (one ∙ rw other refl))
        ],
      )

  groups_replied :
      (w : World) (x supervisor : String) (runs : List (String × String)) (gs : List (String × ℕ))
      (stats : TopoStats)
      → IsTracked t stats
      → let (after, sent) = add_groups w t runs supervisor gs stats in
        IsTracked t after
        × (get_topo_task_instances t x after
            ≡ get_topo_task_instances t x stats ++ replied w x sent)
  unfolding add_groups replied
  groups_replied w x supervisor runs [] stats there =
      (there, sym (append_nil (get_topo_task_instances t x stats)))
  groups_replied w x supervisor runs ((name, count) ∷ gs) stats there =
      let ports = w.ports supervisor name count in
      let (first, one) = add_all name x supervisor ports stats there in
      let between = add_instances t name supervisor ports stats in
      let (last, rest) = groups_replied w x supervisor runs gs between first in
      let more = replied w x (add_groups w t runs supervisor gs between).1 in
      (
        last,
        elim (Bool-cases (str_eq name x)) [
          | inl same ↦ rw same (
              rest
              ∙ ap (λ l. l ++ more) (one ∙ rw same refl)
              ∙ append_assoc (get_topo_task_instances t x stats) (map (make_addr supervisor) ports)
                  more)
          | inr other ↦ rw other (rest ∙ ap (λ l. l ++ more) (one ∙ rw other refl))
        ],
      )

  pub workers_replied :
      (w : World) (x : String) (runs : List (String × String)) (a : Assignment) (stats : TopoStats)
      → IsTracked t stats
      → let (after, sent) = add_workers w t runs a stats in
        IsTracked t after
        × (get_topo_task_instances t x after
            ≡ get_topo_task_instances t x stats ++ replied w x sent)
  unfolding add_workers replied
  workers_replied w x runs [] stats there =
      (there, sym (append_nil (get_topo_task_instances t x stats)))
  workers_replied w x runs ((supervisor, queue) ∷ a) stats there =
      let mine = add_groups w t runs supervisor (groups queue) stats in
      let (first, one) = groups_replied w x supervisor runs (groups queue) stats there in
      let (last, rest) = workers_replied w x runs a mine.0 first in
      let others = (add_workers w t runs a mine.0).1 in
      (
        last,
        rest
            ∙ ap (λ l. l ++ replied w x others) one
            ∙ append_assoc (get_topo_task_instances t x stats) (replied w x mine.1)
                (replied w x others)
            ∙ ap (λ l. get_topo_task_instances t x stats ++ l)
                (sym (replied-append w x mine.1 others)),
      )
