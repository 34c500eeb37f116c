-- ===== src/Introducer.antt =====
-- daemon/src/introducer/Introducer.cpp: how nodes join the group, with the handlers of the messages
-- PING_ACK, JOIN_REQ and JOIN_ACK in daemon/src/message/MessageHandler.cpp.
pub mod Join
pub mod Wire
pub mod Arrival
use cranesps.Base.{string_key, ℕ, String, false, List, [], ◌∷◌}
use cranesps.Base.StdMap.{set, insert_new, at_or}
use cranesps.Member.{Member}
use cranesps.DMember.Types.{DMember, MemberMap}
use cranesps.DMember.Heartbeat.{PingAck, update_connections_on_next_heartbeat}

-- `memberMap` is shared with the queue of the service until its next round; here the queue has its
-- value, as at the end of the check.
pub record Introducer : Type 0 where
  pub member_join_time : List (String × ℕ)
  pub member_map : MemberMap

abbrev pub potential_members : List String
potential_members =
    "fa15-cs425-g10-01.cs.illinois.edu" ∷ "fa15-cs425-g10-02.cs.illinois.edu"
    ∷ "fa15-cs425-g10-03.cs.illinois.edu" ∷ "fa15-cs425-g10-04.cs.illinois.edu"
    ∷ "fa15-cs425-g10-05.cs.illinois.edu" ∷ "fa15-cs425-g10-06.cs.illinois.edu"
    ∷ "fa15-cs425-g10-07.cs.illinois.edu" ∷ []

unfoldable pub member_of : PingAck → ℕ → Member
member_of ack now = record {
  member_id = ack.id;
  session_id = 0;
  count = ack.count;
  last_update = now;
  suspicious = false;
  leaving = false;
}

unfoldable pub update_member : Member → MemberMap → MemberMap
update_member member m = insert_new member.member_id member m

-- The answers in the order in which the threads take the lock, each with its reading of the clock.
unfoldable pub process_acks : List (PingAck × ℕ) → MemberMap → MemberMap
process_acks [] m = m
process_acks ((ack, now) ∷ acks) m = process_acks acks (update_member (member_of ack now) m)

-- A ping of all potential members: those that answer are told to the service.
unfoldable pub check_availability : List (PingAck × ℕ) → Introducer → DMember → Introducer × DMember
check_availability acks i d =
    let m = process_acks acks [] in
    (record i { member_map = m }, update_connections_on_next_heartbeat m d)

-- The introducer's state, and the join time that it replies.
unfoldable pub record_and_reply : ℕ → String → Introducer → Introducer × ℕ
record_and_reply now member i =
    let times = set member now i.member_join_time in
    (record i { member_join_time = times }, at_or member 0 times)

-- The handler of JOIN_REQ.
unfoldable pub process_join_request :
    ℕ → List (PingAck × ℕ) → String → Introducer → DMember → (Introducer × DMember) × ℕ
process_join_request now acks member i d =
    let (recorded, join_time) = record_and_reply now member i in
    (check_availability acks recorded d, join_time)
