-- ===== src/Nimbus/Assign/Counts.antt =====
-- Counting tasks: what is handed out, and what the supervisors are asked for.
use cranesps.Base.{
  string_key, ℕ, suc, ◌+◌, String, ◌≡◌, refl, inl, inr, some, List, [], ◌∷◌, arith, if◌then◌else◌,
  Bool-cases, Option-cases,
}
use cranesps.Base.Text.{str_eq, str_lt, str_eq_iff, str_lt_irrefl}
use cranesps.Base.StdMap.{lookup, set, at_or}
use cranesps.Base.StdMap.Order.{IsSorted, lookup-Above, Above-trans, set-IsSorted}
use cranesps.Nimbus.Stats.{Nimbus}
use cranesps.Nimbus.Assign.{Assignment, next_executor, push_task, assign, group_from, groups}

unfoldable pub occurrences : String → List String → ℕ
occurrences x [] = 0
occurrences x (y ∷ ys) = let rest = occurrences x ys in if str_eq y x then suc rest else rest

-- The tasks of one name in all queues.
unfoldable pub total : String → Assignment → ℕ
total x [] = 0
total x ((supervisor, queue) ∷ rest) = occurrences x queue + total x rest

unfoldable pub total_groups : String → List (String × ℕ) → ℕ
total_groups x [] = 0
total_groups x ((name, count) ∷ gs) =
    let rest = total_groups x gs in if str_eq name x then count + rest else rest

occurrences-push_task :
    (x t : String) (q : List String) → occurrences x (push_task t q) ≡ occurrences x (t ∷ q)
unfolding push_task occurrences
occurrences-push_task x t [] = refl
occurrences-push_task x t (y ∷ q) = ground (arith, occurrences-push_task x t q)

total-set :
    (x e : String) (q : List String) (a : Assignment)
    → IsSorted a
    → total x (set e q a) + occurrences x (at_or e [] a) ≡ total x a + occurrences x q
unfolding total set lookup occurrences
total-set x e q [] s = ground arith
total-set x e q ((j, v) ∷ a) s = elim (Bool-cases (str_lt e j)) [
  | inl before ↦ ground (
    arith,
    before,
    str_eq_iff j e,
    str_lt_irrefl e,
    lookup-Above e a (Above-trans e j a before s.0),
  )
  | inr after ↦ ground (arith, after, str_eq_iff j e, total-set x e q a s.1)
]

pub assign-total :
    (x : String) (ts : List String) (n n' : Nimbus) (a b : Assignment)
    → assign ts n a ≡ some (n', b)
    → IsSorted a
    → total x b ≡ total x a + occurrences x ts
unfolding assign occurrences
assign-total x [] n n' a b run s = ground arith
assign-total x (t ∷ ts) n n' a b run s = elim (Option-cases (next_executor n)) [
  | inl stuck ↦ ground (arith, stuck, run)
  | inr ((e, n1), next) ↦
      let q = push_task t (at_or e [] a) in
      let rest : assign ts n1 (set e q a) ≡ some (n', b) = ground (arith, next, run) in
      let ih = assign-total x ts n1 n' (set e q a) b rest (set-IsSorted e q a s) in
      ground (arith, ih, total-set x e q a s, occurrences-push_task x t (at_or e [] a))
]

total-group_from :
    (x name : String) (count : ℕ) (q : List String)
    → total_groups x (group_from name count q)
      ≡ (if str_eq name x then count + occurrences x q else occurrences x q)
unfolding group_from total_groups occurrences
total-group_from x name count [] = ground arith
total-group_from x name count (y ∷ q) = ground (
  arith,
  str_eq_iff name y,
  str_eq_iff name x,
  str_eq_iff y x,
  total-group_from x name (suc count) q,
  total-group_from x y 1 q,
)

pub total-groups : (x : String) (q : List String) → total_groups x (groups q) ≡ occurrences x q
unfolding groups total_groups occurrences
total-groups x [] = refl
total-groups x (y ∷ q) = ground (arith, total-group_from x y 1 q)
