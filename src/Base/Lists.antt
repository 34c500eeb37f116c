-- ===== src/Base/Lists.antt =====
-- Lists measured by the native numbers, Boolean filters and quantifiers.
use Prim.Native.Nat.{ℕ, zero, suc, ◌+◌, ◌<◌}
use mathlib.Core.Path.{◌≡◌, refl, ap, subst}
use mathlib.Core.Logic.{◌⊎◌, inl, inr}
use mathlib.Core.Bool.{Bool, false, ◌||◌}
use mathlib.Core.List.{List, [], ◌∷◌, ◌++◌, map}
use mathlib.Core.Option.{Option, none, some}
use native.Mathlib.Omega.{arith}
use cranesps.Base.Tests.{if◌then◌else◌}

module _ {ℓ} {A : Type ℓ} where
  abbrev pub length : List A → ℕ
  length [] = 0
  length (x ∷ xs) = suc (length xs)

  abbrev pub get_elem? : List A → ℕ → Option A
  get_elem? [] i = none
  get_elem? (x ∷ xs) zero = some x
  get_elem? (x ∷ xs) (suc i) = get_elem? xs i

  abbrev pub take : ℕ → List A → List A
  take zero xs = []
  take (suc n) [] = []
  take (suc n) (x ∷ xs) = x ∷ take n xs

  abbrev pub drop : ℕ → List A → List A
  drop zero xs = xs
  drop (suc n) [] = []
  drop (suc n) (x ∷ xs) = drop n xs

  -- The library's `filter` takes a decision; the code filters by Boolean tests.
  abbrev pub filter : (A → Bool) → List A → List A
  filter p [] = []
  filter p (x ∷ xs) = let rest = filter p xs in if p x then x ∷ rest else rest

  abbrev pub any : (A → Bool) → List A → Bool
  any p [] = false
  any p (x ∷ xs) = p x || any p xs

  abbrev pub All {κ} : (A → Type κ) → List A → Type κ
  All P [] = Unit
  All P (x ∷ xs) = P x × All P xs

  pub length-append : (xs ys : List A) → length (xs ++ ys) ≡ length xs + length ys
  length-append [] ys = omega arith
  length-append (x ∷ xs) ys = omega (arith, length-append xs ys)

  pub length-middle : (xs ys : List A) (y : A) → length (xs ++ y ∷ ys) ≡ suc (length (xs ++ ys))
  length-middle [] ys y = refl
  length-middle (x ∷ xs) ys y = ap suc (length-middle xs ys y)

  pub any-middle :
      (p : A → Bool) (xs ys : List A) (y : A) → any p (xs ++ y ∷ ys) ≡ (p y || any p (xs ++ ys))
  any-middle p [] ys y = refl
  any-middle p (x ∷ xs) ys y = ground (arith, any-middle p xs ys y)

  pub append_nil : (xs : List A) → xs ++ [] ≡ xs
  append_nil [] = refl
  append_nil (x ∷ xs) = ap (λ t. x ∷ t) (append_nil xs)

  pub get_elem?-in : (xs : List A) (i : ℕ) → i < length xs → (x : A) × (get_elem? xs i ≡ some x)
  get_elem?-in [] i h = elim h [ ]
  get_elem?-in (x ∷ xs) zero h = (x, refl)
  get_elem?-in (x ∷ xs) (suc i) h = get_elem?-in xs i (omega arith)

  pub List-cases : (xs : List A) → (xs ≡ []) ⊎ ((x : A) × (rest : List A) × (xs ≡ x ∷ rest))
  List-cases [] = inl refl
  List-cases (x ∷ rest) = inr (x, rest, refl)

module _ {ℓ κ} {A : Type ℓ} {B : Type κ} where
  -- What a round of copying gives back.
  pub map_cancel :
      (f : B → A) (g : A → B) → ((x : A) → f (g x) ≡ x) → (xs : List A) → map f (map g xs) ≡ xs
  map_cancel f g back [] = refl
  map_cancel f g back (x ∷ xs) = cc (back x, map_cancel f g back xs)

  pub map-append : (f : A → B) (a b : List A) → map f (a ++ b) ≡ map f a ++ map f b
  map-append f [] b = refl
  map-append f (x ∷ a) b = ap (λ t. f x ∷ t) (map-append f a b)

module _ {ℓ κ} {A : Type ℓ} (P : A → Type κ) where
  pub All-snoc : (xs : List A) (x : A) → All P xs → P x → All P (xs ++ x ∷ [])
  All-snoc [] x a h = (h, tt)
  All-snoc (y ∷ xs) x a h = (a.0, All-snoc xs x a.1 h)

  pub All-middle : (xs ys : List A) (y : A) → All P (xs ++ y ∷ ys) → P y × All P (xs ++ ys)
  All-middle [] ys y h = h
  All-middle (x ∷ xs) ys y h = let (here, rest) = All-middle xs ys y h.1 in (here, (h.0, rest))

  pub All-get : (xs : List A) → ((i : ℕ) (x : A) → get_elem? xs i ≡ some x → P x) → All P xs
  All-get [] f = tt
  All-get (x ∷ xs) f = (f 0 x refl, All-get xs (λ i. f (suc i)))

  pub get-All : (xs : List A) (i : ℕ) (x : A) → All P xs → get_elem? xs i ≡ some x → P x
  get-All [] i x a h = absurd (ground (arith, h))
  get-All (y ∷ xs) zero x a h = subst P (ground (arith, h)) a.0
  get-All (y ∷ xs) (suc i) x a h = get-All xs i x a.1 h

  pub All-imp {μ} : (Q : A → Type μ) (xs : List A) → ((x : A) → P x → Q x) → All P xs → All Q xs
  All-imp Q [] f a = tt
  All-imp Q (x ∷ xs) f a = (f x a.0, All-imp Q xs f a.1)
