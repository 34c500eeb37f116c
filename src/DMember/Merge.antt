-- ===== src/DMember/Merge.antt =====
-- `Impl::updateMembers`: the node counts itself, merges the queued maps, and drops who has failed.
use cranesps.Base.{
  string_key, ℕ, suc, ◌+◌, String, false, none, some, List, [], ◌∷◌, map, if◌then◌else◌,
}
use cranesps.Base.StdMap.{lookup, set, erase}
use cranesps.Member.{Member, fresh, update, update_from, should_be_clean_up, set_timestamp}
use cranesps.DMember.Types.{DMember, MemberMap, Event, node_fail}

-- The first reading is of a record made anew, the second of the update that follows.
unfoldable pub init_self : ℕ → ℕ → DMember → Member
init_self born now d =
    let self : Member = elim (lookup d.id d.member_map) [ none ↦ fresh d.id 0 born | some m ↦ m ] in
    update (self.count + 1) now false d.is_stopped self

-- One record of a queued map.
unfoldable pub merge_entry : ℕ → String → Member → MemberMap → MemberMap
merge_entry now key other m = elim (lookup key m) [
  | some mine ↦ set key (update_from other now mine) m
  | none ↦ if other.leaving then m else set key (set_timestamp now other) m
]

unfoldable pub merge_map : (String → ℕ) → MemberMap → MemberMap → MemberMap
merge_map clock [] m = m
merge_map clock ((key, other) ∷ rest) m = merge_map clock rest (merge_entry (clock key) key other m)

-- Map number i of the queue is merged by the readings `clock i`.
unfoldable pub merge_maps : (ℕ → String → ℕ) → List MemberMap → MemberMap → MemberMap
merge_maps clock [] m = m
merge_maps clock (next ∷ rest) m = merge_maps (λ i. clock (suc i)) rest (merge_map (clock 0) next m)

unfoldable pub delete_candidates : (String → ℕ) → MemberMap → List String
delete_candidates clock [] = []
delete_candidates clock ((key, member) ∷ m) =
    let rest = delete_candidates clock m in
    if should_be_clean_up (clock key) member then key ∷ rest else rest

unfoldable pub erase_all : List String → MemberMap → MemberMap
erase_all [] m = m
erase_all (key ∷ keys) m = erase_all keys (erase key m)

-- The clock readings of one round.
pub record Readings : Type 0 where
  pub born : ℕ
  pub own : ℕ
  pub merging : ℕ → String → ℕ
  pub sweeping : String → ℕ

-- Before the sweep: the own record, then the queue, which is emptied.
unfoldable pub merged : Readings → DMember → MemberMap
merged r d = merge_maps r.merging d.members_queue (set d.id (init_self r.born r.own d) d.member_map)

-- The new state, and a `NodeFailEvent` for each member that was dropped.
unfoldable pub update_members : Readings → DMember → DMember × List Event
update_members r d =
    let m = merged r d in
    let failed = delete_candidates r.sweeping m in
    (record d { member_map = erase_all failed m; members_queue = [] }, map node_fail failed)
