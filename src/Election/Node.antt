-- ===== src/Election/Node.antt =====
-- `Candidate::Impl` at one node: the state, the election thread cut at its wait for the replies,
-- and the handlers of the messages.
use cranesps.Base.{
  ℕ, ◌+◌, String, Bool, true, false, not, List, [], ◌∷◌, map, if◌then◌else◌, length, ◌==◌,
}
use cranesps.Base.Text.{str_eq}
use cranesps.DMember.Types.{Event, leader_elected}
use cranesps.Election.Lowest.{min_element, lower_ids}

pub record Candidate : Type 0 where
  pub own_id : String  -- `DMember::instance()->id()`
  pub leader_id : String
  pub previous_leader_id : String
  pub started : Bool
  pub ok_received : Bool
  pub expected_confirmation_count : ℕ
  pub received_confirmation_count : ℕ

-- protocol/election.proto.
pub data ElectionMessage : Type 0 where
  election_start ok_msg elect_confirm : ElectionMessage
  new_leader : String → ElectionMessage

abbrev pub Sends : Type 0
Sends = List (String × ElectionMessage)

abbrev pub init : String → Candidate
init id = record {
  own_id = id;
  leader_id = "";
  previous_leader_id = "";
  started = false;
  ok_received = false;
  expected_confirmation_count = 0;
  received_confirmation_count = 0;
}

-- `sendElected`: one request to each node, the own one included.
abbrev pub send_elected : Candidate → List String → Sends
send_elected c nodes = map (λ node. (node, new_leader c.own_id)) nodes

abbrev pub send_election_start : List String → Sends
send_election_start nodes = map (λ node. (node, election_start)) nodes

-- `electionThread` on a membership list that is not empty, up to the replies of the lower nodes.
unfoldable pub election_thread : String → List String → Candidate → Candidate × Sends
election_thread first rest c =
    let members = first ∷ rest in
    let c' = record c { started = true } in
    if c.started
    then (c, [])
    else if str_eq (min_element first rest) c.own_id
    then (
      record c' { expected_confirmation_count = length members; received_confirmation_count = 0 },
      send_elected c members,
    )
    else (record c' { ok_received = false }, send_election_start (lower_ids members c.own_id))

-- The end of `sendElectionStart`, when the requests are answered or have timed out.
unfoldable pub after_requests : List String → Candidate → Sends
after_requests members c = if not c.ok_received then send_elected c members else []

unfoldable pub set_new_leader : String → Candidate → Candidate × List Event
set_new_leader leader c = (
  record c {
    leader_id = leader;
    previous_leader_id =
        if str_eq leader c.previous_leader_id then c.previous_leader_id else leader;
    started = false;
  },
  if str_eq leader c.previous_leader_id then [] else leader_elected leader ∷ [],
)

-- What a handler does: the new state, the reply on the socket of the request, whether an election
-- thread is started, and the events for the listeners.
pub record Outcome : Type 0 where
  pub state : Candidate
  pub reply : List ElectionMessage
  pub starts : Bool
  pub events : List Event

unfoldable pub process : ElectionMessage → Candidate → Outcome
unfolding set_new_leader
process election_start c = record { state = c; reply = ok_msg ∷ []; starts = true; events = [] }
process ok_msg c = record {
  state = record c { ok_received = true };
  reply = [];
  starts = false;
  events = [];
}
process (new_leader leader) c =
    let (c', events) = if str_eq leader c.own_id then (c, []) else set_new_leader leader c in
    record { state = c'; reply = elect_confirm ∷ []; starts = false; events = events }
process elect_confirm c =
    let counted = record c { received_confirmation_count = c.received_confirmation_count + 1 } in
    let (c', events) =
      if counted.expected_confirmation_count == counted.received_confirmation_count
      then set_new_leader c.own_id counted
      else (counted, []) in
    record { state = c'; reply = []; starts = false; events = events }

-- `handle(NodeFailEvent)`: whether an election thread is started.
abbrev pub handle_node_fail : String → Candidate → Bool
handle_node_fail id c = str_eq id c.leader_id
