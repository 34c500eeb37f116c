-- ===== src/Nimbus/Requests/Served.antt =====
-- Every request of a client as a step of the life cycle of a topology.
use mathlib.Core.Option
use cranesps.Base.{
  string_key, String, ◌≡◌, refl, ap, sym, ◌∙◌, inl, inr, Bool, true, false, not, ◌&&◌, Option, none,
  some, List, [], ◌++◌, arith, if◌then◌else◌, Bool-cases, Option-cases,
}
use cranesps.Base.Text.{str_eq, str_eq_iff}
use cranesps.Base.StdMap.{lookup, at_or, lookup-set}
use cranesps.Nimbus.Stats.{Nimbus, new_tracker, get_topo_status, set_topo_spec}
use cranesps.Nimbus.Lifecycle.{NimbusRequest, World, start_topology, compiled}
use cranesps.Nimbus.Requests.{
  ClientRequest, Handled, kill, start, stop, send, submit, status, prepare_and_start, exists_topo,
  process,
}
use cranesps.Nimbus.Requests.Status.{
  HasOther, status_at, renamed, status-set_topo_status, status-prepare, status-start, status-stop,
  status-kill,
}

gone-status :
    (t : String) (n : Nimbus)
    → status_at t n.topo_stats ≡ none
    → get_topo_status t n.topo_stats ≡ "nonexisted"
unfolding get_topo_status
gone-status t n gone = elim (Option-cases (lookup t n.topo_stats)) [
  | inl missing ↦ ground (arith, missing)
  | inr (k, held) ↦ ground (arith, held)
]

not_ready :
    (w : World) (t : String) (n : Nimbus)
    → str_eq (get_topo_status t n.topo_stats) "ready" ≡ false
    → (start_topology w t n).0 ≡ n
unfolding start_topology
not_ready w t n other = rw other refl

start-other :
    (w : World) (t j : String) (n : Nimbus) (old : Option String)
    → status_at t n.topo_stats ≡ (renamed "ready" old)
    → status_at j (start_topology w t n).0.topo_stats ≡ (
        if str_eq t j
        then renamed "running" (status_at j n.topo_stats)
        else status_at j n.topo_stats)
start-other w t j n none gone =
    let same : (start_topology w t n).0 ≡ n = not_ready w t n (rw (gone-status t n gone) refl) in
    rw same (elim (Bool-cases (str_eq t j)) [
      | inl e ↦
          let eq : t ≡ j = (str_eq_iff t j).0 e in
          let at_j : status_at j n.topo_stats ≡ none =
            ap (λ x. status_at x n.topo_stats) (sym eq) ∙ gone in
          rw e (rw at_j refl)
      | inr e ↦ rw e refl
    ])
start-other w t j n (some old) ready = status-start w t j n ready

then_running :
    (t j before : String) (o p r : Option String)
    → p ≡ (if str_eq t j then renamed before o else o)
    → r ≡ (if str_eq t j then renamed "running" p else p)
    → r ≡ (if str_eq t j then renamed "running" o else o)
then_running t j before none p r first last = ground (arith, first, last)
then_running t j before (some x) p r first last = ground (arith, first, last)

pub status-prepare_and_start :
    (w w' : World) (t : String) (n : Nimbus)
    → HasOther w
    → (n' : Nimbus) × (sent : List NimbusRequest) × (prepare_and_start w w' t n ≡ some (n', sent))
      × ((j : String)
          → status_at j n'.topo_stats ≡ (
              if str_eq t j
              then renamed "running" (status_at j n.topo_stats)
              else status_at j n.topo_stats))
unfolding prepare_and_start
status-prepare_and_start w w' t n other =
    let (prepared, sent, run, statuses) = status-prepare w t n other in
    let at_t : status_at t prepared.topo_stats ≡ renamed "ready" (status_at t n.topo_stats) =
      statuses t ∙ rw ((str_eq_iff t t).1 refl) refl in
    (
      (start_topology w' t prepared).0,
      sent ++ (start_topology w' t prepared).1,
      ap (Option.map _) run,
      λ j.
          then_running t j "ready" (status_at j n.topo_stats) _ _ (statuses j)
            (start-other w' t j prepared (status_at t n.topo_stats) at_t),
    )

-- The status of topology `j` after a request, from the one before it and from whether the
-- topology of the request is there.
abbrev pub step : ClientRequest → Bool → String → Option String → Option String
step (kill t) there j old = if there && str_eq t j then none else old
step (submit t spec) there j old = if not there && str_eq t j then some "pending" else old
step (start t) there j old = if there && str_eq t j then renamed "running" old else old
step (stop t) there j old = if there && str_eq t j then some "idle" else old
step (send t) there j old = if str_eq t j then renamed "running" old else old
step status there j old = old

abbrev pub topo_of : ClientRequest → String
topo_of (kill t) = t
topo_of (submit t spec) = t
topo_of (start t) = t
topo_of (stop t) = t
topo_of (send t) = t
topo_of status = ""

known-exists :
    (t : String) (n : Nimbus) → exists_topo t n ≡ true → status_at t n.topo_stats ≡ none → ⊥
known-exists t n there gone =
    let missing : exists_topo t n ≡ false = rw (gone-status t n gone) refl in
    ground (arith, missing, there)

-- Every request of a client is served when there is a member beside Nimbus's own node, and its
-- effect on the status of every topology is one step of the life cycle: a kill removes a topology
-- that is there, a submission makes one that is not there pending, a start or an upload of its
-- code leaves one that is there running, a stop leaves it idle, and nothing else changes. For all
-- but the upload a topology is there if its status is not the text `nonexisted`.
pub client_step_exact :
    (w w' : World) (request : ClientRequest) (n : Nimbus)
    → HasOther w
    → (h : Handled) × (process w w' request n ≡ some h)
      × ((j : String)
          → status_at j h.nimbus.topo_stats
            ≡ step request (exists_topo (topo_of request) n) j (status_at j n.topo_stats))
unfolding process
client_step_exact w w' (kill t) n other = (
  _,
  refl,
  λ j. elim (Bool-cases (exists_topo t n)) [
    | inl there ↦ rw there (status-kill w t j n)
    | inr missing ↦ rw missing refl
  ],
)
client_step_exact w w' (submit t spec) n other = (
  _,
  refl,
  λ j. elim (Bool-cases (exists_topo t n)) [
    | inl there ↦ rw there refl
    | inr missing ↦ rw missing (
        ground (
          arith,
          str_eq_iff t j,
          lookup-set t j (record (at_or t new_tracker n.topo_stats) { topo_spec = spec })
              n.topo_stats,
          status-set_topo_status t j "pending" (set_topo_spec t spec n.topo_stats),
        ))
  ],
)
client_step_exact w w' (start t) n other = elim (Bool-cases (exists_topo t n)) [
  | inl there ↦
      let (n', sent, run, statuses) = status-prepare_and_start w w' t n other in
      let served : (if exists_topo t n then prepare_and_start w w' t n else some (n, []))
          ≡ some (n', sent) =
        rw there run in
      (_, ap (Option.map _) served, λ j. rw there (statuses j))
  | inr missing ↦
      let served : (if exists_topo t n then prepare_and_start w w' t n else some (n, []))
          ≡ some (n, []) =
        rw missing refl in
      (_, ap (Option.map _) served, λ j. rw missing refl)
]
client_step_exact w w' (stop t) n other = (
  _,
  refl,
  λ j. elim (Bool-cases (exists_topo t n)) [
    | inl there ↦ rw there (status-stop w t j n (known-exists t n there))
    | inr missing ↦ rw missing refl
  ],
)
client_step_exact w w' (send t) n other =
    let (n', sent, run, statuses) = status-prepare_and_start w w' t (compiled t n) other in
    (
      _,
      ap (Option.map _) run,
      λ j.
          then_running t j "idle" (status_at j n.topo_stats) _ _
            (status-set_topo_status t j "idle" n.topo_stats) (statuses j),
    )
client_step_exact w w' status n other = (_, refl, λ j. refl)
