-- ===== src/DMember/Detector.antt =====
-- `updateMembers` as a failure detector, over every queue and every clock.
use cranesps.Base.{
  string_key, ℕ, suc, ◌+◌, ◌*◌, ◌≤◌, ◌<◌, String, ◌≡◌, ◌⊎◌, refl, ap, ◌∙◌, sym, Bool, true, false,
  ◌||◌, Option, none, some, List, [], ◌∷◌, map, arith, any, if◌then◌else◌,
}
use cranesps.Base.Text.{str_eq, str_eq_iff}
use cranesps.Base.StdMap.{lookup, lookup-set}
use cranesps.Base.StdMap.Order.{IsSorted, set-IsSorted}
use cranesps.Member.{Member, update, should_be_clean_up}
use cranesps.Member.Clock.{timeouts_exact}
use cranesps.DMember.Types.{DMember, MemberMap, Event, node_fail, leader_elected}
use cranesps.DMember.Merge.{
  init_self, merge_map, merge_maps, Readings, merged, update_members, delete_candidates,
}
use cranesps.DMember.Tables.Heard.{
  AboutAll, Stale, Within, Recent, tells_all, hear-Stale, hear-renewed,
}
use cranesps.DMember.Tables.Counts.{newest_all, newest_all-ge, hear_maps-Counted}
use cranesps.DMember.Tables.{
  hear_maps, swept, failed, merge_entry-IsSorted, lookup-merge_maps, lookup-erase_all,
  erase_all-IsSorted, any-delete_candidates,
}

-- Whether the events hold a `NodeFailEvent` of the member.
abbrev pub announces : String → List Event → Bool
announces j [] = false
announces j (node_fail k ∷ events) = str_eq k j || announces j events
announces j (leader_elected k ∷ events) = announces j events

-- What is known of `j` after the own record is renewed and the queue is merged.
abbrev pub known : Readings → DMember → String → Option Member
known r d j =
    hear_maps r.merging j d.members_queue
      (if str_eq d.id j then some (init_self r.born r.own d) else lookup j d.member_map)

merge_map-IsSorted :
    (clock : String → ℕ) (next m : MemberMap) → IsSorted m → IsSorted (merge_map clock next m)
unfolding merge_map
merge_map-IsSorted clock [] m s = s
merge_map-IsSorted clock ((key, other) ∷ rest) m s =
    merge_map-IsSorted clock rest _ (merge_entry-IsSorted (clock key) key other m s)

merge_maps-IsSorted :
    (clock : ℕ → String → ℕ) (queue : List MemberMap) (m : MemberMap)
    → IsSorted m
    → IsSorted (merge_maps clock queue m)
unfolding merge_maps
merge_maps-IsSorted clock [] m s = s
merge_maps-IsSorted clock (next ∷ rest) m s =
    merge_maps-IsSorted (λ i. clock (suc i)) rest _ (merge_map-IsSorted (clock 0) next m s)

merged-IsSorted : (r : Readings) (d : DMember) → IsSorted d.member_map → IsSorted (merged r d)
unfolding merged
merged-IsSorted r d s =
    merge_maps-IsSorted r.merging d.members_queue _ (set-IsSorted d.id _ d.member_map s)

pub update_members-IsSorted :
    (r : Readings) (d : DMember)
    → IsSorted d.member_map
    → IsSorted (update_members r d).0.member_map
unfolding update_members
update_members-IsSorted r d s = erase_all-IsSorted _ (merged r d) (merged-IsSorted r d s)

pub lookup-merged : (r : Readings) (d : DMember) (j : String) → lookup j (merged r d) ≡ known r d j
unfolding merged
lookup-merged r d j =
    lookup-merge_maps r.merging j d.members_queue _
    ∙ ap (hear_maps r.merging j d.members_queue) (lookup-set d.id j _ d.member_map)

announces-node_fail :
    (j : String) (keys : List String)
    → announces j (map node_fail keys) ≡ any (λ k. str_eq k j) keys
announces-node_fail j [] = refl
announces-node_fail j (key ∷ keys) = ap (λ b. str_eq key j || b) (announces-node_fail j keys)

failed-swept : (now : ℕ) (o : Option Member) → (if failed now o then none else o) ≡ swept now o
failed-swept now none = refl
failed-swept now (some m) = refl

candidates-known :
    (r : Readings) (d : DMember) (j : String)
    → IsSorted d.member_map
    → any (λ k. str_eq k j) (delete_candidates r.sweeping (merged r d))
      ≡ failed (r.sweeping j) (known r d j)
candidates-known r d j s =
    any-delete_candidates r.sweeping j (merged r d) (merged-IsSorted r d s)
    ∙ ap (failed (r.sweeping j)) (lookup-merged r d j)

-- On a map in order, one round keeps the order, empties the queue, leaves of each member what the
-- sweep leaves of the merged records about it, and announces the failure of exactly the members
-- that are to be cleaned up.
pub update_members_exact :
    (r : Readings) (d : DMember) (j : String)
    → IsSorted d.member_map
    → let (after, events) = update_members r d in
      IsSorted after.member_map
      × (after.members_queue ≡ [])
      × (lookup j after.member_map ≡ swept (r.sweeping j) (known r d j))
      × (announces j events ≡ failed (r.sweeping j) (known r d j))
unfolding update_members
update_members_exact r d j s = (
  update_members-IsSorted r d s,
  refl,
  lookup-erase_all j _ (merged r d)
      ∙ rw (candidates-known r d j s, lookup-merged r d j) (failed-swept _ (known r d j)),
  announces-node_fail j _ ∙ candidates-known r d j s,
)

str_eq_refl : (j : String) → str_eq j j ≡ true
str_eq_refl j = (str_eq_iff j j).1 refl

init_self-count :
    (born own : ℕ) (d : DMember) (m : Member)
    → lookup d.id d.member_map ≡ some m
    → (init_self born own d).count ≡ m.count + 1
unfolding init_self update
init_self-count born own d m held = rw held

recent_stays :
    (now : ℕ) (m : Member) (lo : ℕ)
    → lo ≤ m.last_update
    → m.last_update ≤ now
    → now < lo + 4001 * 1000000
    → should_be_clean_up now m ≡ false
unfolding should_be_clean_up
recent_stays now m lo low past near = ground arith

module _ (r : Readings) (d : DMember) (s : IsSorted d.member_map) where
  -- A member with no newer count in the queue, silent for 4001 ms and not leaving is dropped and
  -- announced, as long as the silence fits the code's `int` of milliseconds.
  pub silent_fails :
      (j : String) (m : Member)
      → (str_eq d.id j ≡ false)
      → lookup j d.member_map ≡ some m
      → AboutAll (Stale m.count) r.merging j d.members_queue
      → m.leaving ≡ false
      → m.last_update + 4001 * 1000000 ≤ r.sweeping j
      → r.sweeping j < m.last_update + 2147483648 * 1000000
      → let (after, events) = update_members r d in
        (lookup j after.member_map ≡ none) × (announces j events ≡ true)
  silent_fails j m other held old staying late near =
      let e : known r d j ≡ some m =
        rw (other, held) (hear-Stale r.merging j d.members_queue m old) in
      let fails : should_be_clean_up (r.sweeping j) m ≡ true =
        (timeouts_exact (r.sweeping j) m (omega arith) (omega arith)).1.1 (omega arith, staying) in
      let (_, _, gone, said) = update_members_exact r d j s in
      (gone ∙ rw e (rw fails), said ∙ rw e (fails))

  -- A member whose record was renewed at `lo` or later, or is older and a record in the queue, with
  -- a newer count, renews it, is kept and not announced when the queue is read from `lo` to `hi` and
  -- the sweep reads the clock less than 4001 ms after `lo`.
  pub heard_stays :
      (j : String) (lo hi : ℕ) (mine : Member)
      → (if str_eq d.id j then some (init_self r.born r.own d) else lookup j d.member_map)
        ≡ some mine
      → mine.last_update ≤ hi
      → (lo ≤ mine.last_update) ⊎ (tells_all mine.count j d.members_queue ≡ true)
      → AboutAll (Within lo hi) r.merging j d.members_queue
      → hi ≤ r.sweeping j
      → r.sweeping j < lo + 4001 * 1000000
      → let (after, events) = update_members r d in
        Recent lo hi (lookup j after.member_map) × (announces j events ≡ false)
  heard_stays j lo hi mine held past start queue after before =
      let (m, e, low, high) =
        hear-renewed lo hi r.merging j d.members_queue mine queue past start in
      let here : known r d j ≡ some m = rw held e in
      let stays : should_be_clean_up (r.sweeping j) m ≡ false =
        recent_stays (r.sweeping j) m lo (omega arith) (omega arith) (omega arith) in
      let (_, _, kept, quiet) = update_members_exact r d j s in
      ((m, kept ∙ rw here (rw stays), low, high), quiet ∙ rw here stays)

  -- The own heartbeat count grows by one in a round, or jumps to a newer one that the queue tells;
  -- so the record of the node, if it survives the sweep, has a greater count than before.
  pub own_count_grows :
      (m own : Member)
      → lookup d.id d.member_map ≡ some m
      → lookup d.id (update_members r d).0.member_map ≡ some own
      → (own.count ≡ newest_all d.id d.members_queue (m.count + 1)) × (m.count < own.count)
  own_count_grows m own held after =
      let (told, e, c) =
        hear_maps-Counted r.merging d.id d.members_queue (init_self r.born r.own d) in
      let here : known r d d.id ≡ some told = rw (str_eq_refl d.id) e in
      let (_, _, rest, _) = update_members_exact r d d.id s in
      let same : some own ≡ swept (r.sweeping d.id) (some told) =
        sym after ∙ rest ∙ ap (swept _) here in
      let count : own.count ≡ newest_all d.id d.members_queue (init_self r.born r.own d).count =
        ground (arith, same) in
      let grown : own.count ≡ newest_all d.id d.members_queue (m.count + 1) =
        rw (init_self-count r.born r.own d m held) at count in
      (grown, omega (arith, newest_all-ge d.id d.members_queue (m.count + 1)))

  -- Nor does the count of another member fall: one that was known and is kept has the newest count
  -- of its old record and of all the records in the queue.
  pub count_newest :
      (j : String) (m kept : Member)
      → str_eq d.id j ≡ false
      → lookup j d.member_map ≡ some m
      → lookup j (update_members r d).0.member_map ≡ some kept
      → (kept.count ≡ newest_all j d.members_queue m.count) × (m.count ≤ kept.count)
  count_newest j m kept other held after =
      let (told, e, c) = hear_maps-Counted r.merging j d.members_queue m in
      let here : known r d j ≡ some told = rw (other, held) e in
      let (_, _, rest, _) = update_members_exact r d j s in
      let same : some kept ≡ swept (r.sweeping j) (some told) =
        sym after ∙ rest ∙ ap (swept _) here in
      ground (arith, same, newest_all-ge j d.members_queue m.count)
