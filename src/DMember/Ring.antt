-- ===== src/DMember/Ring.antt =====
-- The ring of heartbeats in a group of more than `max_fail + 1` members.
use native.Mathlib.Nat.{mod-eq_of_lt, mod-eq-sub-mod}
use cranesps.Base.{
  ◌∙◌, ltb→lt, ℕ, ◌+◌, ◌-◌, ◌%◌, ◌≤◌, ◌<◌, String, ◌≡◌, ◌≢◌, some, List, [], ◌∷◌, arith, length,
  ltb, get_elem?, inl, inr, if◌then◌else◌, Bool-cases,
}
use cranesps.Base.Text.{str_eq, str_eq_iff}
use cranesps.DMember.Connect.{own_index, target_index}

-- The search finds the own name at its index, where the group has it.
own_index-le : (id : String) (members : List String) → own_index id members ≤ length members
unfolding own_index
own_index-le id [] = omega arith
own_index-le id (member ∷ members) = ground (arith, own_index-le id members)

pub get_elem?-own_index :
    (id : String) (members : List String)
    → own_index id members < length members
    → get_elem? members (own_index id members) ≡ some id
unfolding own_index
get_elem?-own_index id [] h = elim h [ ]
get_elem?-own_index id (member ∷ members) h = elim (Bool-cases (str_eq member id)) [
  | inl e ↦ rw e (ground (arith, str_eq_iff member id))
  | inr e ↦ rw e (get_elem?-own_index id members (ground arith))
]

-- A remainder that takes off the divisor once at most.
mod_once : (a n : ℕ) → a < n + n → a % n ≡ (if ltb a n then a else a - n)
mod_once a n h = elim (Bool-cases (ltb a n)) [
  | inl low ↦ rw low (mod-eq_of_lt (ltb→lt a n low))
  | inr high ↦ rw high (mod-eq-sub-mod (ground arith) ∙ mod-eq_of_lt (ground arith))
]

-- In a group of n > 3, for every index from 0 to n (n stands for a name that is not in the list),
-- the three targets are in range and distinct, and none is the node itself.
pub targets_distinct :
    (index n : ℕ)
    → index ≤ n
    → 3 < n
    → (target_index index n 1 < n)
      × (target_index index n 2 < n)
      × (target_index index n 3 < n)
      × (target_index index n 1 ≢ index)
      × (target_index index n 2 ≢ index)
      × (target_index index n 3 ≢ index)
      × (target_index index n 1 ≢ target_index index n 2)
      × (target_index index n 2 ≢ target_index index n 3)
      × (target_index index n 1 ≢ target_index index n 3)
targets_distinct index n h k =
    ground
      (arith, mod_once (index + n - 1) n, mod_once (index + n - 2) n, mod_once (index + n - 3) n)

-- No name twice: each is found where it stands.
abbrev pub IsDistinct : List String → Type 0
IsDistinct members = (k : ℕ) (x : String) → get_elem? members k ≡ some x → own_index x members ≡ k
