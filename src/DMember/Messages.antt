-- ===== src/DMember/Messages.antt =====
-- daemon/src/message/MessageHandler.cpp: what a heartbeat does to a node.
use cranesps.Base.{
  string_key, String, Bool, true, false, ◌||◌, not, none, some, List, [], ◌∷◌, map, any, filter,
  if◌then◌else◌,
}
use cranesps.Base.Text.{str_lt}
use cranesps.Base.StdMap.{lookup, insert_new}
use cranesps.Member.{Member}
use cranesps.DMember.Types.{DMember, MemberMap, MemberEntry, HeartBeat}
use cranesps.DMember.Heartbeat.{push_members, check_if_leaving}
use cranesps.DMember.Connect.{update_connection}

unfoldable pub member_of : MemberEntry → Member
member_of e = record {
  member_id = e.id;
  session_id = 0;
  count = e.count;
  last_update = e.timestamp;
  suspicious = false;
  leaving = e.leaving;
}

-- The loop's map, from the one that is there: the first entry of a name counts.
unfoldable pub members_from : List MemberEntry → MemberMap → MemberMap
unfolding member_of
members_from [] members = members
members_from (e ∷ entries) members = members_from entries (insert_new e.id (member_of e) members)

unfoldable pub leaving_ids : List MemberEntry → List String
leaving_ids [] = []
leaving_ids (e ∷ entries) =
    let rest = leaving_ids entries in if e.leaving then e.id ∷ rest else rest

-- `members->at(id)->isLeaving()`; every name of the list is in the map.
leaving_in : MemberMap → String → Bool
leaving_in members key = elim (lookup key members) [ none ↦ true | some m ↦ m.leaving ]

-- `std::sort` on texts.
unfoldable pub insert_sorted : String → List String → List String
insert_sorted x [] = x ∷ []
insert_sorted x (y ∷ ys) = if str_lt y x then y ∷ insert_sorted x ys else x ∷ y ∷ ys

unfoldable pub sort : List String → List String
unfolding insert_sorted
sort [] = []
sort (x ∷ xs) = insert_sorted x (sort xs)

unfoldable pub member_addresses : HeartBeat → MemberMap → List String
unfolding leaving_in
member_addresses h members =
    sort
      (filter (λ key. not (leaving_in members key)) (map (λ (e : MemberEntry). e.id) h.member_list))

unfoldable pub needs_update : HeartBeat → DMember → Bool
needs_update h d =
    h.update_connection || any (λ key. not (check_if_leaving key d)) (leaving_ids h.member_list)

unfoldable pub process_heartbeat : HeartBeat → DMember → DMember
process_heartbeat h d =
    let members = members_from h.member_list [] in
    let queued = push_members members d in
    if needs_update h d then update_connection (member_addresses h members) queued else queued
