-- ===== src/Base/Bytes.antt =====
-- A `std::string` as its bytes: equality, and the order of `std::map`, as a key.
use Prim.Native.Nat.{ℕ}
use mathlib.Core.Path.{◌≡◌, refl}
use mathlib.Core.Logic.{◌↔◌}
use mathlib.Core.Bool.{Bool, true, false, ◌&&◌}
use mathlib.Core.List.{List, [], ◌∷◌}
use native.Mathlib.Omega.{arith}
use cranesps.Base.Tests.{ltb, ◌==◌, if◌then◌else◌}
use cranesps.Base.Key.{Key}

unfoldable pub bytes_eq : List ℕ → List ℕ → Bool
bytes_eq [] [] = true
bytes_eq [] (y ∷ ys) = false
bytes_eq (x ∷ xs) [] = false
bytes_eq (x ∷ xs) (y ∷ ys) = (x == y) && bytes_eq xs ys

unfoldable pub bytes_lt : List ℕ → List ℕ → Bool
bytes_lt [] [] = false
bytes_lt [] (y ∷ ys) = true
bytes_lt (x ∷ xs) [] = false
bytes_lt (x ∷ xs) (y ∷ ys) =
    let rest = bytes_lt xs ys in if ltb x y then true else if ltb y x then false else rest

pub bytes_eq_iff : (xs ys : List ℕ) → (bytes_eq xs ys ≡ true) ↔ (xs ≡ ys)
unfolding bytes_eq
bytes_eq_iff [] [] = ground arith
bytes_eq_iff [] (y ∷ ys) = ground arith
bytes_eq_iff (x ∷ xs) [] = ground arith
bytes_eq_iff (x ∷ xs) (y ∷ ys) = ground (arith, bytes_eq_iff xs ys)

pub bytes_lt_irrefl : (xs : List ℕ) → bytes_lt xs xs ≡ false
unfolding bytes_lt
bytes_lt_irrefl [] = refl
bytes_lt_irrefl (x ∷ xs) = ground (arith, bytes_lt_irrefl xs)

pub bytes_lt_trans :
    (xs ys zs : List ℕ) → bytes_lt xs ys ≡ true → bytes_lt ys zs ≡ true → bytes_lt xs zs ≡ true
unfolding bytes_lt
bytes_lt_trans [] [] zs h k = k
bytes_lt_trans [] (y ∷ ys) [] h k = ground (arith, k)
bytes_lt_trans [] (y ∷ ys) (z ∷ zs) h k = refl
bytes_lt_trans (x ∷ xs) [] zs h k = ground (arith, h)
bytes_lt_trans (x ∷ xs) (y ∷ ys) [] h k = ground (arith, k)
bytes_lt_trans (x ∷ xs) (y ∷ ys) (z ∷ zs) h k = ground (arith, bytes_lt_trans xs ys zs)

pub bytes_lt_total :
    (xs ys : List ℕ) → bytes_lt xs ys ≡ false → bytes_eq xs ys ≡ false → bytes_lt ys xs ≡ true
unfolding bytes_lt bytes_eq
bytes_lt_total [] [] h k = ground (arith, k)
bytes_lt_total [] (y ∷ ys) h k = ground (arith, h)
bytes_lt_total (x ∷ xs) [] h k = refl
bytes_lt_total (x ∷ xs) (y ∷ ys) h k = ground (arith, bytes_lt_total xs ys)

instance abbrev pub bytes_key : Key (List ℕ)
bytes_key = record {
  same = bytes_eq;
  less = bytes_lt;
  same_iff = bytes_eq_iff;
  less_irrefl = bytes_lt_irrefl;
  less_trans = bytes_lt_trans;
  less_total = bytes_lt_total;
}
