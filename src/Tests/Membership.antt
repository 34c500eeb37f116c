-- ===== src/Tests/Membership.antt =====
-- The members and the failure detector at concrete inputs: a node a that knows of b and c.
use mathlib.Core.Option
use cranesps.Base.{
  string_key, ℕ, ◌-◌, ◌*◌, ◌≤◌, String, ◌≡◌, ◌↔◌, inr, List, refl, true, false, none, [], ◌∷◌,
  arith,
}
use cranesps.Base.StdMap.{lookup}
use cranesps.Base.StdMap.Order.{IsSorted}
use cranesps.Member.{Member, is_timed_out, should_be_clean_up, fresh}
use cranesps.Member.Clock.{timeouts_exact, silence_wraps}
use cranesps.DMember.Types.{DMember}
use cranesps.DMember.Merge.{Readings, update_members}
use cranesps.DMember.Heartbeat.{send_round}
use cranesps.DMember.Tables.{swept, failed}
use cranesps.DMember.Detector.{update_members_exact, silent_fails, heard_stays, known, announces}
use cranesps.DMember.Tables.Heard.{Recent}
use cranesps.DMember.Reports.{entry_about, reported, staying, send_round_exact}

abbrev second : ℕ
second = 1000000000

abbrev member_a : Member
member_a = record (fresh "a" 0 (9 * second)) { count = 7 }

abbrev member_b : Member
member_b = record (fresh "b" 0 (5 * second)) { count = 4 }

abbrev member_c : Member
member_c = record (fresh "c" 0 (2 * second)) { count = 6 }

abbrev newer_c : Member
newer_c = record (fresh "c" 0 (1 * second)) { count = 8 }

abbrev node_a : DMember
node_a = record {
  id = "a";
  join_time = 0;
  member_map = ("a", member_a) ∷ ("b", member_b) ∷ ("c", member_c) ∷ [];
  members_queue = (("c", newer_c) ∷ []) ∷ [];
  connections = [];
  update_on_next_heartbeat = false;
  is_stopped = false;
  sender_finished = false;
}

abbrev sorted_a : IsSorted node_a.member_map
sorted_a = ((refl, (refl, tt)), ((refl, tt), (tt, tt)))

abbrev readings : Readings
readings = record {
  born = 10 * second;
  own = 10 * second;
  merging = λ i key. 10 * second;
  sweeping = λ key. 10 * second;
}

timeouts_exact_example :
    ((is_timed_out (10 * second) member_b ≡ true) ↔ (2001 * 1000000 ≤ 10 * second - 5 * second))
    × ((should_be_clean_up (10 * second) member_b ≡ true)
        ↔ ((4001 * 1000000 ≤ 10 * second - 5 * second) × (false ≡ false)))
timeouts_exact_example = timeouts_exact (10 * second) member_b (omega arith) (omega arith)

silence_wraps_example :
    (is_timed_out (3000000 * second) member_b ≡ false)
    × (should_be_clean_up (3000000 * second) member_b ≡ false)
silence_wraps_example = silence_wraps (3000000 * second) member_b (omega arith) (omega arith)

abbrev five : List String
five = "a" ∷ "b" ∷ "c" ∷ "d" ∷ "e" ∷ []

update_members_exact_example :
    let (after, events) = update_members readings node_a in
    IsSorted after.member_map
    × (after.members_queue ≡ [])
    × (lookup "b" after.member_map ≡ swept (10 * second) (known readings node_a "b"))
    × (announces "b" events ≡ failed (10 * second) (known readings node_a "b"))
update_members_exact_example = update_members_exact readings node_a "b" sorted_a

silent_fails_example :
    let (after, events) = update_members readings node_a in
    (lookup "b" after.member_map ≡ none) × (announces "b" events ≡ true)
unfolding lookup
silent_fails_example =
    silent_fails readings node_a sorted_a "b" member_b refl refl ((λ e. ground arith, tt), tt) refl
      (omega arith) (omega arith)

heard_stays_example :
    let (after, events) = update_members readings node_a in
    Recent (9 * second) (10 * second) (lookup "c" after.member_map) × (announces "c" events ≡ false)
unfolding lookup
heard_stays_example =
    heard_stays readings node_a sorted_a "c" (9 * second) (10 * second) member_c refl (omega arith)
      (inr refl) ((λ e. (omega arith, omega arith), tt), tt) (omega arith) (omega arith)

send_round_exact_example :
    let round = send_round readings (λ key. 10 * second) node_a in
    let left = swept (10 * second) (known readings node_a "b") in
    IsSorted round.state.member_map
    × (entry_about "b" round.message.member_list ≡ reported (10 * second) "b" left)
    × (lookup "b" round.state.member_map ≡ staying left)
    × (round.ends ≡ false)
    × (false ≡ true → round.state.sender_finished ≡ true)
send_round_exact_example = send_round_exact readings (λ key. 10 * second) node_a "b" sorted_a
