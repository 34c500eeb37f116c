-- ===== src/DMember/Tables.antt =====
-- The merging and the sweep of `updateMembers`, name by name: what a node knows of a member comes
-- from the records about that member alone.
pub mod Heard
pub mod Counts
use cranesps.Base.{
  string_key, ℕ, suc, String, ◌≡◌, refl, ap, ◌∙◌, inl, inr, Option-cases, Bool, false, Option, none,
  some, List, [], ◌∷◌, arith, any, if◌then◌else◌,
}
use cranesps.Base.Text.{str_eq, str_eq_iff}
use cranesps.Base.StdMap.{lookup, erase, lookup-set, lookup-erase}
use cranesps.Base.StdMap.Order.{IsSorted, lookup-Above, set-IsSorted, erase-IsSorted}
use cranesps.Member.{Member, update_from, should_be_clean_up, set_timestamp}
use cranesps.DMember.Types.{MemberMap}
use cranesps.DMember.Merge.{merge_entry, merge_map, merge_maps, delete_candidates, erase_all}

-- What one record of a queued map does to what is known of its member.
abbrev pub hear : ℕ → Member → Option Member → Option Member
hear now other none = if other.leaving then none else some (set_timestamp now other)
hear now other (some mine) = some (update_from other now mine)

-- The records about `j` in one map, and in the queue, one after the other.
pub hear_map : (String → ℕ) → String → MemberMap → Option Member → Option Member
hear_map clock j [] known = known
hear_map clock j ((key, other) ∷ rest) known =
    hear_map clock j rest (if str_eq key j then hear (clock key) other known else known)

pub hear_maps : (ℕ → String → ℕ) → String → List MemberMap → Option Member → Option Member
hear_maps clock j [] known = known
hear_maps clock j (next ∷ rest) known =
    hear_maps (λ i. clock (suc i)) j rest (hear_map (clock 0) j next known)

lookup-merge_entry :
    (now : ℕ) (key j : String) (other : Member) (m : MemberMap)
    → lookup j (merge_entry now key other m)
      ≡ (if str_eq key j then hear now other (lookup j m) else lookup j m)
unfolding merge_entry
lookup-merge_entry now key j other m = elim (Option-cases (lookup key m)) [
  | inl gone ↦ ground (arith, str_eq_iff key j, lookup-set key j (set_timestamp now other) m)
  | inr (mine, held) ↦
      ground (arith, str_eq_iff key j, lookup-set key j (update_from other now mine) m)
]

pub merge_entry-IsSorted :
    (now : ℕ) (key : String) (other : Member) (m : MemberMap)
    → IsSorted m
    → IsSorted (merge_entry now key other m)
unfolding merge_entry
merge_entry-IsSorted now key other m s = grind (arith, set-IsSorted)

lookup-merge_map :
    (clock : String → ℕ) (j : String) (next m : MemberMap)
    → lookup j (merge_map clock next m) ≡ hear_map clock j next (lookup j m)
unfolding merge_map hear_map
lookup-merge_map clock j [] m = refl
lookup-merge_map clock j ((key, other) ∷ rest) m =
    lookup-merge_map clock j rest (merge_entry (clock key) key other m)
    ∙ ap (hear_map clock j rest) (lookup-merge_entry (clock key) key j other m)

pub lookup-merge_maps :
    (clock : ℕ → String → ℕ) (j : String) (queue : List MemberMap) (m : MemberMap)
    → lookup j (merge_maps clock queue m) ≡ hear_maps clock j queue (lookup j m)
unfolding merge_maps hear_maps
lookup-merge_maps clock j [] m = refl
lookup-merge_maps clock j (next ∷ rest) m =
    lookup-merge_maps (λ i. clock (suc i)) j rest (merge_map (clock 0) next m)
    ∙ ap (hear_maps (λ i. clock (suc i)) j rest) (lookup-merge_map (clock 0) j next m)

-- What the sweep leaves of a record, and whether it announces a failure.
abbrev pub swept : ℕ → Option Member → Option Member
swept now none = none
swept now (some m) = if should_be_clean_up now m then none else some m

abbrev pub failed : ℕ → Option Member → Bool
failed now none = false
failed now (some m) = should_be_clean_up now m

pub lookup-erase_all :
    (j : String) (keys : List String) (m : MemberMap)
    → lookup j (erase_all keys m) ≡ (if any (λ k. str_eq k j) keys then none else lookup j m)
unfolding erase_all
lookup-erase_all j [] m = refl
lookup-erase_all j (key ∷ keys) m =
    ground (arith, lookup-erase_all j keys (erase key m), lookup-erase key j m)

pub erase_all-IsSorted :
    (keys : List String) (m : MemberMap) → IsSorted m → IsSorted (erase_all keys m)
unfolding erase_all
erase_all-IsSorted [] m s = s
erase_all-IsSorted (key ∷ keys) m s = erase_all-IsSorted keys (erase key m) (erase-IsSorted key m s)

-- On a map in order the sweep picks exactly the members that are to be cleaned up.
pub any-delete_candidates :
    (clock : String → ℕ) (j : String) (m : MemberMap)
    → IsSorted m
    → any (λ k. str_eq k j) (delete_candidates clock m) ≡ failed (clock j) (lookup j m)
unfolding delete_candidates lookup
any-delete_candidates clock j [] s = refl
any-delete_candidates clock j ((key, member) ∷ m) s =
    ground (arith, str_eq_iff key j, any-delete_candidates clock j m s.1, lookup-Above key m)
