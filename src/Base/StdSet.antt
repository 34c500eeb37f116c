-- ===== src/Base/StdSet.antt =====
-- `std::set` as the rising list of its elements, and the number of elements that pass a test.
pub mod Pigeon
use cranesps.Base.Tests.{if◌then◌else◌}
use cranesps.Base.Lists.{length, filter, any}
use cranesps.Base.Key.{Key, same, less, same_iff}
use Prim.Native.Nat.{ℕ, suc, ◌+◌, ◌≤◌}
use mathlib.Core.Path.{◌≡◌, refl}
use mathlib.Core.Bool.{Bool, true, false, ◌||◌}
use mathlib.Core.List.{List, [], ◌∷◌}
use native.Mathlib.Omega.{arith}

module _ {K : Type 0} ⦃o : Key K⦄ where
  abbrev pub member : K → List K → Bool
  member k = any (λ x. same x k)

  unfoldable pub insert : K → List K → List K
  insert k [] = k ∷ []
  insert k (x ∷ xs) = if same x k then x ∷ xs else if less k x then k ∷ x ∷ xs else x ∷ insert k xs

  -- Every element comes after `k`; the set rises.
  abbrev pub Over : K → List K → Type 0
  Over k [] = Unit
  Over k (x ∷ xs) = (less k x ≡ true) × Over k xs

  abbrev pub IsRising : List K → Type 0
  IsRising [] = Unit
  IsRising (x ∷ xs) = Over x xs × IsRising xs

  pub member-insert : (k j : K) (xs : List K) → member j (insert k xs) ≡ (same k j || member j xs)
  unfolding insert
  member-insert k j [] = refl
  member-insert k j (x ∷ xs) =
      ground (arith, same_iff x k, same_iff k j, same_iff x j, member-insert k j xs)

  pub member-Over : (k : K) (xs : List K) → Over k xs → member k xs ≡ false
  member-Over k [] s = refl
  member-Over k (x ∷ xs) s = ground (arith, same_iff x k, o.less_irrefl k, member-Over k xs s.1)

  Over-trans : (a b : K) (xs : List K) → less a b ≡ true → Over b xs → Over a xs
  Over-trans a b [] h s = tt
  Over-trans a b (x ∷ xs) h s = (o.less_trans a b x h s.0, Over-trans a b xs h s.1)

  -- A new element makes the set one longer, one that is there leaves it.
  pub length-insert :
      (k : K) (xs : List K)
      → IsRising xs
      → length (insert k xs) ≡ (if member k xs then length xs else suc (length xs))
  unfolding insert
  length-insert k [] s = refl
  length-insert k (x ∷ xs) s =
      ground (arith, same_iff x k, length-insert k xs s.1, member-Over k xs, Over-trans k x xs)

  Over-insert : (a k : K) (xs : List K) → less a k ≡ true → Over a xs → Over a (insert k xs)
  unfolding insert
  Over-insert a k [] h s = (h, tt)
  Over-insert a k (x ∷ xs) h s = ground (arith, same_iff x k, Over-insert a k xs h s.1)

  pub insert-IsRising : (k : K) (xs : List K) → IsRising xs → IsRising (insert k xs)
  unfolding insert
  insert-IsRising k [] s = (tt, tt)
  insert-IsRising k (x ∷ xs) s = ground (
    arith,
    same_iff x k,
    same_iff k x,
    o.less_total k x,
    insert-IsRising k xs s.1,
    Over-insert x k xs,
    Over-trans k x xs,
  )
