-- ===== src/Base/StdMap/Order.antt =====
-- The order of a map's entries: the keys rise strictly, so each key stands once.
use cranesps.Base.Key.{Key, less, same_iff}
use cranesps.Base.StdMap.{lookup, set, erase, insert_new}
use mathlib.Core.Path.{◌≡◌, refl}
use mathlib.Core.Bool.{true}
use mathlib.Core.Option.{none}
use mathlib.Core.List.{List, [], ◌∷◌}
use native.Mathlib.Omega.{arith}

module _ {K : Type 0} ⦃o : Key K⦄ {V : Type 0} where
  -- Every key of the map comes after `k`.
  abbrev pub Above : K → List (K × V) → Type 0
  Above k [] = Unit
  Above k ((j, v) ∷ m) = (less k j ≡ true) × Above k m

  abbrev pub IsSorted : List (K × V) → Type 0
  IsSorted [] = Unit
  IsSorted ((k, v) ∷ m) = Above k m × IsSorted m

  pub Above-trans : (a b : K) (m : List (K × V)) → less a b ≡ true → Above b m → Above a m
  Above-trans a b [] h s = tt
  Above-trans a b ((j, v) ∷ m) h s = (o.less_trans a b j h s.0, Above-trans a b m h s.1)

  pub lookup-Above : (k : K) (m : List (K × V)) → Above k m → lookup k m ≡ none
  unfolding lookup
  lookup-Above k [] s = refl
  lookup-Above k ((j, v) ∷ m) s =
      ground (arith, same_iff j k, o.less_irrefl k, lookup-Above k m s.1)

  Above-set :
      (a k : K) (v : V) (m : List (K × V)) → less a k ≡ true → Above a m → Above a (set k v m)
  unfolding set
  Above-set a k v [] h s = (h, tt)
  Above-set a k v ((j, w) ∷ m) h s = ground (arith, same_iff j k, Above-set a k v m h s.1)

  pub set-IsSorted : (k : K) (v : V) (m : List (K × V)) → IsSorted m → IsSorted (set k v m)
  unfolding set
  set-IsSorted k v [] s = (tt, tt)
  set-IsSorted k v ((j, w) ∷ m) s = ground (
    arith,
    same_iff j k,
    same_iff k j,
    o.less_total k j,
    set-IsSorted k v m s.1,
    Above-set j k v m,
    Above-trans k j m,
  )

  Above-erase : (a k : K) (m : List (K × V)) → Above a m → Above a (erase k m)
  unfolding erase
  Above-erase a k [] s = tt
  Above-erase a k ((j, w) ∷ m) s = ground (arith, Above-erase a k m s.1)

  pub erase-IsSorted : (k : K) (m : List (K × V)) → IsSorted m → IsSorted (erase k m)
  unfolding erase
  erase-IsSorted k [] s = tt
  erase-IsSorted k ((j, w) ∷ m) s = ground (arith, erase-IsSorted k m s.1, Above-erase j k m s.0)

  pub insert_new-IsSorted :
      (k : K) (v : V) (m : List (K × V)) → IsSorted m → IsSorted (insert_new k v m)
  unfolding insert_new
  insert_new-IsSorted k v m s = ground (arith, set-IsSorted k v m s)
