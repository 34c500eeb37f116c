-- ===== src/Introducer/Join.antt =====
-- What a join does: the join time, the map of those that answer, and the next heartbeat.
use cranesps.Base.{
  string_key, ℕ, String, ◌≡◌, refl, true, Option, none, some, List, [], ◌∷◌, ◌++◌, arith,
  if◌then◌else◌,
}
use cranesps.Base.Text.{str_eq, str_eq_iff}
use cranesps.Base.StdMap.{lookup, at_or, lookup-set_self, lookup-insert_new}
use cranesps.Member.{Member}
use cranesps.DMember.Types.{DMember, MemberMap}
use cranesps.DMember.Merge.{Readings, update_members}
use cranesps.DMember.Heartbeat.{
  PingAck, send_round, create_heartbeat_message, update_connections_on_next_heartbeat,
}
use cranesps.Introducer.{
  Introducer, member_of, update_member, process_acks, check_availability, record_and_reply,
  process_join_request,
}

-- The first answer of a node.
unfoldable pub first_ack : String → List (PingAck × ℕ) → Option Member
first_ack j [] = none
first_ack j ((ack, now) ∷ acks) =
    let later = first_ack j acks in if str_eq ack.id j then some (member_of ack now) else later

abbrev pub or_else : Option Member → Option Member → Option Member
or_else (some m) other = some m
or_else none other = other

lookup-process_acks :
    (j : String) (acks : List (PingAck × ℕ)) (m : MemberMap)
    → lookup j (process_acks acks m) ≡ or_else (lookup j m) (first_ack j acks)
unfolding process_acks first_ack update_member member_of
lookup-process_acks j [] m = ground arith
lookup-process_acks j ((ack, now) ∷ acks) m = ground (
  arith,
  str_eq_iff ack.id j,
  lookup-process_acks j acks (update_member (member_of ack now) m),
  lookup-insert_new ack.id j (member_of ack now) m,
)

-- A node that joins is given the time that the introducer recorded for it; the introducer's map
-- has, for every name, the first answer to its pings and nobody else; this map is queued last, and
-- the next heartbeat of the introducer's node tells everybody to connect anew.
pub join_exact :
    (now : ℕ) (acks : List (PingAck × ℕ)) (member : String) (i : Introducer) (d : DMember)
    → (j : String) (r : Readings) (clock : String → ℕ)
    → let (states, join_time) = process_join_request now acks member i d in
      let (after, told) = states in
      (join_time ≡ now)
      × (at_or member 0 after.member_join_time ≡ now)
      × (lookup j after.member_map ≡ first_ack j acks)
      × (told.members_queue ≡ d.members_queue ++ after.member_map ∷ [])
      × ((send_round r clock told).message.update_connection ≡ true)
unfolding process_join_request record_and_reply check_availability
    update_connections_on_next_heartbeat send_round update_members create_heartbeat_message lookup
join_exact now acks member i d j r clock =
    let here = lookup-set_self member now i.member_join_time in
    (rw here refl, rw here refl, lookup-process_acks j acks [], refl, refl)
