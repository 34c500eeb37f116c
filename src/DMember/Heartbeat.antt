-- ===== src/DMember/Heartbeat.antt =====
-- `Impl::createHeartbeatMessage`, the round of `heartbeatsSendThread`, and the small operations on
-- the state: pings, the queue, stopping, and the lists that other components ask for.
use cranesps.Base.{
  string_key, ℕ, String, Bool, true, ◌||◌, false, Option, none, some, List, [], ◌∷◌, ◌++◌, map,
  if◌then◌else◌,
}
use cranesps.Base.StdMap.{lookup}
use cranesps.Member.{Member, is_timed_out}
use cranesps.DMember.Types.{DMember, MemberMap, MemberEntry, HeartBeat, Event}
use cranesps.DMember.Merge.{erase_all, Readings, update_members}

unfoldable pub entry_of : String → Member → MemberEntry
entry_of key m = record {
  id = key;
  count = m.count;
  timestamp = m.last_update;
  leaving = m.leaving;
}

-- The list of the message: those that leave, and those that are not timed out.
unfoldable pub heartbeat_entries : (String → ℕ) → MemberMap → List MemberEntry
heartbeat_entries clock [] = []
heartbeat_entries clock ((key, m) ∷ rest) =
    let others = heartbeat_entries clock rest in
    if m.leaving
    then entry_of key m ∷ others
    else if is_timed_out (clock key) m
    then others
    else entry_of key m ∷ others

unfoldable pub leaving_nodes : MemberMap → List String
leaving_nodes [] = []
leaving_nodes ((key, m) ∷ rest) =
    let others = leaving_nodes rest in if m.leaving then key ∷ others else others

unfoldable pub create_heartbeat_message : (String → ℕ) → DMember → DMember × HeartBeat
create_heartbeat_message clock d = (
  record d {
    member_map = erase_all (leaving_nodes d.member_map) d.member_map;
    update_on_next_heartbeat = false;
  },
  record {
    member_list = heartbeat_entries clock d.member_map;
    update_connection = d.update_on_next_heartbeat;
  },
)

-- One round of the sender: its events, its message, and whether the loop ends.
pub record Round : Type 0 where
  pub state : DMember
  pub events : List Event
  pub message : HeartBeat
  pub ends : Bool

unfoldable pub send_round : Readings → (String → ℕ) → DMember → Round
send_round r clock d =
    let (d', events) = update_members r d in
    let (sent, message) = create_heartbeat_message clock d' in
    record {
      state = record sent { sender_finished = sent.is_stopped || sent.sender_finished };
      events = events;
      message = message;
      ends = sent.is_stopped;
    }

-- `replyPingRequest` reads `memberMap[id]->count()`: with no own record yet, a null pointer.
pub record PingAck : Type 0 where
  pub id : String
  pub timestamp : ℕ
  pub count : ℕ

unfoldable pub reply_ping_request : DMember → Option PingAck
reply_ping_request d = elim (lookup d.id d.member_map) [
  | none ↦ none
  | some m ↦ some (record { id = d.id; timestamp = d.join_time; count = m.count })
]

unfoldable pub update_join_time : ℕ → DMember → DMember
update_join_time time d = record d { join_time = time }

-- `DMember::updateMembers`, which queues a map.
unfoldable pub push_members : MemberMap → DMember → DMember
push_members members d = record d { members_queue = d.members_queue ++ members ∷ [] }

unfoldable pub update_connections_on_next_heartbeat : MemberMap → DMember → DMember
update_connections_on_next_heartbeat members d = record d {
  update_on_next_heartbeat = true;
  members_queue = d.members_queue ++ members ∷ [];
}

-- `stop` sets the flag, and waits until the sender has finished.
unfoldable pub stop : DMember → DMember
stop d = record d { is_stopped = true }

unfoldable pub check_if_leaving : String → DMember → Bool
check_if_leaving key d = elim (lookup key d.member_map) [ none ↦ true | some m ↦ m.leaving ]

unfoldable pub membership_list : DMember → List String
membership_list d = map (λ kv. kv.1.member_id) d.member_map
