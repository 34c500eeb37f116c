-- ===== src/Base/StdSet/Pigeon.antt =====
-- Counting in sets: distinct elements that all lie in a list are no more than it has.
use cranesps.Base.Tests.{if◌then◌else◌}
use cranesps.Base.Lists.{length, filter}
use cranesps.Base.Key.{Key, same, less, same_iff}
use cranesps.Base.StdSet.{member, insert, Over, IsRising, member-Over}
use Prim.Native.Nat.{suc, ◌+◌, ◌≤◌}
use mathlib.Core.Path.{◌≡◌}
use mathlib.Core.Bool.{Bool, true, false, ◌&&◌, not}
use mathlib.Core.List.{List, [], ◌∷◌}
use native.Mathlib.Omega.{arith}

module _ {K : Type 0} ⦃o : Key K⦄ where
  -- Every element of the first list is in the second.
  abbrev pub Inside : List K → List K → Type 0
  Inside [] ys = Unit
  Inside (x ∷ xs) ys = (member x ys ≡ true) × Inside xs ys

  remove : K → List K → List K
  remove k [] = []
  remove k (x ∷ xs) = if same x k then xs else x ∷ remove k xs

  length-remove :
      (k : K) (xs : List K) → member k xs ≡ true → length xs ≡ suc (length (remove k xs))
  unfolding remove
  length-remove k [] h = ground arith
  length-remove k (x ∷ xs) h = ground (arith, length-remove k xs)

  member-remove :
      (k j : K) (xs : List K)
      → same k j ≡ false
      → member j xs ≡ true
      → member j (remove k xs) ≡ true
  unfolding remove
  member-remove k j [] n h = h
  member-remove k j (x ∷ xs) n h =
      ground (arith, same_iff x k, same_iff x j, same_iff k j, member-remove k j xs)

  Inside-remove : (k : K) (xs ys : List K) → Over k xs → Inside xs ys → Inside xs (remove k ys)
  Inside-remove k [] ys s w = tt
  Inside-remove k (x ∷ xs) ys s w =
      ground
        (arith, same_iff k x, o.less_irrefl k, member-remove k x ys, Inside-remove k xs ys s.1 w.1)

  pub length-Inside : (xs ys : List K) → IsRising xs → Inside xs ys → length xs ≤ length ys
  length-Inside [] ys s w = omega arith
  length-Inside (x ∷ xs) ys s w = omega (
    arith,
    length-remove x ys w.0,
    length-Inside xs (remove x ys) s.1 (Inside-remove x xs ys s.0 w.1),
  )

  Over-filter : (p : K → Bool) (k : K) (xs : List K) → Over k xs → Over k (filter p xs)
  Over-filter p k [] s = tt
  Over-filter p k (x ∷ xs) s = ground (arith, Over-filter p k xs s.1)

  pub filter-IsRising : (p : K → Bool) (xs : List K) → IsRising xs → IsRising (filter p xs)
  filter-IsRising p [] s = tt
  filter-IsRising p (x ∷ xs) s = ground (arith, filter-IsRising p xs s.1, Over-filter p x xs s.0)

  pub member-filter :
      (p : K → Bool) (k : K) (xs : List K) → member k (filter p xs) ≡ (p k && member k xs)
  member-filter p k [] = ground arith
  member-filter p k (x ∷ xs) = ground (arith, same_iff x k, member-filter p k xs)

  pub length-filter-not :
      (p : K → Bool) (xs : List K)
      → length (filter p xs) + length (filter (λ k. not (p k)) xs) ≡ length xs
  length-filter-not p [] = omega arith
  length-filter-not p (x ∷ xs) = ground (arith, length-filter-not p xs)

  pub Inside-insert :
      (k : K) (xs ys : List K) → member k ys ≡ true → Inside xs ys → Inside (insert k xs) ys
  unfolding insert
  Inside-insert k [] ys h w = (h, tt)
  Inside-insert k (x ∷ xs) ys h w = ground (arith, Inside-insert k xs ys h w.1)

  Over-below : (a b : K) (xs : List K) → less a b ≡ true → Over b xs → Over a xs
  Over-below a b [] h s = tt
  Over-below a b (x ∷ xs) h s = (o.less_trans a b x h s.0, Over-below a b xs h s.1)

  pub insert-member : (k : K) (xs : List K) → IsRising xs → member k xs ≡ true → insert k xs ≡ xs
  unfolding insert
  insert-member k [] s h = ground arith
  insert-member k (x ∷ xs) s h =
      ground (arith, same_iff x k, insert-member k xs s.1, member-Over k xs, Over-below k x xs)
