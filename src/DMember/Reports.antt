-- ===== src/DMember/Reports.antt =====
-- What a node tells the others: `createHeartbeatMessage` and the sender's round.
use cranesps.Base.{
  string_key, ℕ, String, ◌≡◌, refl, ap, ◌∙◌, Bool, true, false, ◌||◌, not, Option, none, some, List,
  [], ◌∷◌, arith, any, if◌then◌else◌,
}
use cranesps.Base.Text.{str_eq, str_eq_iff}
use cranesps.Base.StdMap.{lookup}
use cranesps.Base.StdMap.Order.{IsSorted, lookup-Above}
use cranesps.Member.{Member, is_timed_out}
use cranesps.DMember.Types.{DMember, MemberMap, MemberEntry}
use cranesps.DMember.Merge.{Readings, update_members}
use cranesps.DMember.Heartbeat.{
  entry_of, heartbeat_entries, leaving_nodes, create_heartbeat_message, send_round,
}
use cranesps.DMember.Tables.{swept, lookup-erase_all, erase_all-IsSorted}
use cranesps.DMember.Detector.{known, update_members_exact}

-- The entry of a message about `j`.
abbrev pub entry_about : String → List MemberEntry → Option MemberEntry
entry_about j [] = none
entry_about j (e ∷ entries) = if str_eq e.id j then some e else entry_about j entries

-- What a message says of a record, and what the map keeps of it.
abbrev pub reported : ℕ → String → Option Member → Option MemberEntry
reported now j none = none
reported now j (some m) =
    if m.leaving || not (is_timed_out now m) then some (entry_of j m) else none

abbrev pub staying : Option Member → Option Member
staying none = none
staying (some m) = if m.leaving then none else some m

entry_about-entries :
    (clock : String → ℕ) (j : String) (m : MemberMap)
    → IsSorted m
    → entry_about j (heartbeat_entries clock m) ≡ reported (clock j) j (lookup j m)
unfolding heartbeat_entries entry_of lookup
entry_about-entries clock j [] s = refl
entry_about-entries clock j ((key, member) ∷ m) s =
    ground (arith, str_eq_iff key j, entry_about-entries clock j m s.1, lookup-Above key m s.0)

abbrev leaves : Option Member → Bool
leaves none = false
leaves (some m) = m.leaving

any-leaving_nodes :
    (j : String) (m : MemberMap)
    → IsSorted m
    → any (λ k. str_eq k j) (leaving_nodes m) ≡ leaves (lookup j m)
unfolding leaving_nodes lookup
any-leaving_nodes j [] s = refl
any-leaving_nodes j ((key, member) ∷ m) s =
    ground (arith, str_eq_iff key j, any-leaving_nodes j m s.1, lookup-Above key m s.0)

leaves-staying : (o : Option Member) → (if leaves o then none else o) ≡ staying o
leaves-staying none = refl
leaves-staying (some m) = refl

-- On a map in order, the message has exactly the members that leave and those that are not timed
-- out, each with its own count, time and flag; the members that leave are forgotten, the others
-- stay; and the request to reconnect is passed on once.
pub create_heartbeat_message_exact :
    (clock : String → ℕ) (d : DMember) (j : String)
    → IsSorted d.member_map
    → let (after, message) = create_heartbeat_message clock d in
      IsSorted after.member_map
      × (entry_about j message.member_list ≡ reported (clock j) j (lookup j d.member_map))
      × (lookup j after.member_map ≡ staying (lookup j d.member_map))
      × (message.update_connection ≡ d.update_on_next_heartbeat)
      × (after.update_on_next_heartbeat ≡ false)
unfolding create_heartbeat_message
create_heartbeat_message_exact clock d j s = (
  erase_all-IsSorted _ d.member_map s,
  entry_about-entries clock j d.member_map s,
  lookup-erase_all j _ d.member_map
      ∙ rw (any-leaving_nodes j d.member_map s) (leaves-staying (lookup j d.member_map)),
  refl,
  refl,
)

stopped_through :
    (r : Readings) (clock : String → ℕ) (d : DMember)
    → (create_heartbeat_message clock (update_members r d).0).0.is_stopped ≡ d.is_stopped
unfolding create_heartbeat_message update_members
stopped_through r clock d = refl

-- A round of the sender, on a map in order: the message reports, and the node keeps, what the
-- merges and the sweep leave, and the loop ends exactly when the node was stopped, with the flag
-- set that `stop` waits for.
pub send_round_exact :
    (r : Readings) (clock : String → ℕ) (d : DMember) (j : String)
    → IsSorted d.member_map
    → let round = send_round r clock d in
      let left = swept (r.sweeping j) (known r d j) in
      IsSorted round.state.member_map
      × (entry_about j round.message.member_list ≡ reported (clock j) j left)
      × (lookup j round.state.member_map ≡ staying left)
      × (round.ends ≡ d.is_stopped)
      × (d.is_stopped ≡ true → round.state.sender_finished ≡ true)
unfolding send_round
send_round_exact r clock d j s =
    let (sorted, _, left, _) = update_members_exact r d j s in
    let (sorted', told, kept, _, _) =
      create_heartbeat_message_exact clock (update_members r d).0 j sorted in
    (
      sorted',
      told ∙ ap (reported (clock j) j) left,
      kept ∙ ap staying left,
      stopped_through r clock d,
      λ h. rw (stopped_through r clock d, h),
    )
