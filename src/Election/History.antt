-- ===== src/Election/History.antt =====
-- The life of a candidate: election threads and messages in any order, with what its listeners are
-- told (the file master and Nimbus take over on these events).
use cranesps.Base.{◌+◌, String, ◌≡◌, refl, ◌≢◌, List, [], ◌∷◌, ◌++◌, arith, if◌then◌else◌}
use cranesps.Base.Text.{str_eq, str_eq_iff}
use cranesps.DMember.Types.{Event, node_fail, leader_elected}
use cranesps.Election.Node.{
  Candidate, ElectionMessage, election_start, ok_msg, elect_confirm, new_leader, init,
  election_thread, process,
}

pub data Step : Candidate → Candidate → List Event → Type 0 where
  thread :
      (first : String) (rest : List String) (c : Candidate)
      → Step c (election_thread first rest c).0 []
  message : (m : ElectionMessage) (c : Candidate) → Step c (process m c).state (process m c).events

-- The state and the events so far, the newest first.
pub data Reach (id : String) : Candidate → List Event → Type 0 where
  here : Reach id (init id) []
  next :
      {c c' : Candidate} {seen new : List Event}
      → Reach id c seen
      → Step c c' new
      → Reach id c' (new ++ seen)

-- The leader that the listeners were told of last.
abbrev pub told : List Event → String
told [] = ""
told (leader_elected id ∷ events) = id
told (node_fail id ∷ events) = told events

pub record IsSettled (id : String) (c : Candidate) (seen : List Event) : Type 0 where
  pub same_id : c.own_id ≡ id
  pub same_leader : c.previous_leader_id ≡ c.leader_id
  pub listeners_know : told seen ≡ c.leader_id

-- One step keeps the invariant, and tells the listeners exactly when the leader changes; and the
-- node makes itself the leader only on a confirmation, the one that completes the expected number.
pub Step-IsSettled :
    {c c' : Candidate} {new : List Event} (id : String) (seen : List Event)
    → Step c c' new
    → IsSettled id c seen
    → IsSettled id c' (new ++ seen)
Step-IsSettled id seen (thread first rest c) s = unfold election_thread in ground arith
Step-IsSettled id seen (message election_start c) s = unfold process in ground arith
Step-IsSettled id seen (message ok_msg c) s = unfold process in ground arith
Step-IsSettled id seen (message elect_confirm c) s =
    unfold process in ground (arith, str_eq_iff c.own_id c.previous_leader_id)
Step-IsSettled id seen (message (new_leader l) c) s =
    unfold process in ground (arith, str_eq_iff l c.previous_leader_id)

-- In every life of a candidate its listeners know the current leader.
pub Reach-IsSettled :
    {id : String} {c : Candidate} {seen : List Event} → Reach id c seen → IsSettled id c seen
Reach-IsSettled here = record { same_id = refl; same_leader = refl; listeners_know = refl }
Reach-IsSettled {id} (next {seen = seen} r s) = Step-IsSettled id seen s (Reach-IsSettled r)

Step-events :
    {id : String} {c c' : Candidate} {seen new : List Event}
    → Step c c' new
    → IsSettled id c seen
    → new ≡ (if str_eq c.leader_id c'.leader_id then [] else leader_elected c'.leader_id ∷ [])
Step-events (thread first rest c) s =
    unfold election_thread in ground (arith, str_eq_iff c.leader_id c.leader_id)
Step-events (message election_start c) s =
    unfold process in ground (arith, str_eq_iff c.leader_id c.leader_id)
Step-events (message ok_msg c) s =
    unfold process in ground (arith, str_eq_iff c.leader_id c.leader_id)
Step-events (message elect_confirm c) s =
    unfold process in
    ground (
      arith,
      str_eq_iff c.leader_id c.leader_id,
      str_eq_iff c.own_id c.leader_id,
      str_eq_iff c.leader_id c.own_id,
    )
Step-events (message (new_leader l) c) s =
    unfold process in
    ground (
      arith,
      str_eq_iff c.leader_id c.leader_id,
      str_eq_iff l c.leader_id,
      str_eq_iff c.leader_id l,
    )

-- In every life of a candidate, a step tells the listeners exactly when it changes the leader, and
-- then of the new one alone.
pub events_exact :
    {id : String} {c c' : Candidate} {seen new : List Event}
    → Reach id c seen
    → Step c c' new
    → new ≡ (if str_eq c.leader_id c'.leader_id then [] else leader_elected c'.leader_id ∷ [])
events_exact r s = Step-events s (Reach-IsSettled r)

-- A node that does not lead comes to lead itself only by a confirmation, the one that completes the
-- number that it expects.
pub leads_by_confirmation :
    {c c' : Candidate} {new : List Event}
    → Step c c' new
    → c.leader_id ≢ c.own_id
    → c'.leader_id ≡ c.own_id
    → (new ≡ (process elect_confirm c).events)
      × (c' ≡ (process elect_confirm c).state)
      × (c.received_confirmation_count + 1 ≡ c.expected_confirmation_count)
leads_by_confirmation (thread first rest c) other own =
    absurd (unfold election_thread in ground arith)
leads_by_confirmation (message election_start c) other own = absurd (unfold process in ground arith)
leads_by_confirmation (message ok_msg c) other own = absurd (unfold process in ground arith)
leads_by_confirmation (message elect_confirm c) other own =
    (refl, refl, unfold process in ground arith)
leads_by_confirmation (message (new_leader l) c) other own =
    absurd (unfold process in ground (arith, str_eq_iff l c.own_id))
