-- ===== src/Base/StdMap.antt =====
-- `std::map` as the list of its entries in the order of the keys, which is the order in which the
-- program's loops see them. `set` is an assignment through `operator[]`; `insert_new` is `insert`,
-- which leaves an entry that is there alone; `at_or` is a read through `operator[]`.
pub mod Order
use cranesps.Base.Tests.{if◌then◌else◌}
use cranesps.Base.Key.{Key, same, less, same_iff}
use mathlib.Core.Path.{◌≡◌, refl}
use mathlib.Core.Option.{Option, none, some}
use mathlib.Core.List.{List, [], ◌∷◌}
use native.Mathlib.Omega.{arith}

abbrev pub get_or {ℓ} : {A : Type ℓ} → Option A → A → A
get_or none d = d
get_or (some v) d = v

module _ {K : Type 0} ⦃o : Key K⦄ {V : Type 0} where
  unfoldable pub lookup : K → List (K × V) → Option V
  lookup k [] = none
  lookup k ((j, v) ∷ m) = if same j k then some v else lookup k m

  unfoldable pub set : K → V → List (K × V) → List (K × V)
  set k v [] = (k, v) ∷ []
  set k v ((j, w) ∷ m) =
      if same j k then (k, v) ∷ m else if less k j then (k, v) ∷ (j, w) ∷ m else (j, w) ∷ set k v m

  unfoldable pub erase : K → List (K × V) → List (K × V)
  erase k [] = []
  erase k ((j, w) ∷ m) = let rest = erase k m in if same j k then rest else (j, w) ∷ rest

  unfoldable pub insert_new : K → V → List (K × V) → List (K × V)
  insert_new k v m = elim (lookup k m) [ none ↦ set k v m | some _ ↦ m ]

  abbrev pub at_or : K → V → List (K × V) → V
  at_or k d m = get_or (lookup k m) d

  pub lookup-set :
      (k j : K) (v : V) (m : List (K × V))
      → lookup j (set k v m) ≡ (if same k j then some v else lookup j m)
  unfolding lookup set
  lookup-set k j v [] = refl
  lookup-set k j v ((i, w) ∷ m) =
      ground (arith, same_iff k j, same_iff i k, same_iff i j, lookup-set k j v m)

  pub lookup-set_self : (k : K) (v : V) (m : List (K × V)) → lookup k (set k v m) ≡ some v
  lookup-set_self k v m = ground (arith, lookup-set k k v m, same_iff k k)

  pub lookup-erase :
      (k j : K) (m : List (K × V)) → lookup j (erase k m) ≡ (if same k j then none else lookup j m)
  unfolding lookup erase
  lookup-erase k j [] = ground arith
  lookup-erase k j ((i, w) ∷ m) =
      ground (arith, same_iff k j, same_iff i k, same_iff i j, lookup-erase k j m)

  pub lookup-insert_new :
      (k j : K) (v : V) (m : List (K × V))
      → lookup j (insert_new k v m)
        ≡ (if same k j then some (get_or (lookup k m) v) else lookup j m)
  unfolding insert_new
  lookup-insert_new k j v m = ground (arith, same_iff k j, lookup-set k j v m)
