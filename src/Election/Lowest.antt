-- ===== src/Election/Lowest.antt =====
-- `std::min_element` over the membership list, and `SystemHelper::lowerIds`.
use cranesps.Base.{
  ℕ, zero, suc, ◌<◌, ◌≤◌, String, ◌≡◌, refl, ap, ◌∙◌, sym, ◌↔◌, Bool, true, false, List, [], ◌∷◌,
  arith, filter, length, any, if◌then◌else◌, inl, inr, Bool-cases,
}
use cranesps.Base.Text.{str_eq, str_lt, str_eq_iff, str_lt_irrefl, str_lt_trans, str_lt_total}

-- The scan from the first element, which takes each smaller one that it meets.
unfoldable pub min_element : String → List String → String
min_element best [] = best
min_element best (x ∷ xs) = min_element (if str_lt x best then x else best) xs

-- `std::find_if`: the rest of the range from the first hit.
find_if : (String → Bool) → List String → List String
find_if p [] = []
find_if p (x ∷ xs) = let rest = find_if p xs in if p x then x ∷ xs else rest

-- The `while` of `lowerIds`, on fuel; a round takes the hit and searches behind it.
lower_loop : ℕ → (String → Bool) → List String → List String
lower_loop zero p it = []
lower_loop (suc fuel) p it = elim it [ [] ↦ [] | x ∷ rest ↦ x ∷ lower_loop fuel p (find_if p rest) ]

unfoldable pub lower_ids : List String → String → List String
unfolding find_if lower_loop
lower_ids ids id =
    let is_lower = λ (i : String). str_lt i id in
    lower_loop (suc (length ids)) is_lower (find_if is_lower ids)

length-find_if : (p : String → Bool) (xs : List String) → length (find_if p xs) ≤ length xs
unfolding find_if
length-find_if p [] = omega arith
length-find_if p (x ∷ xs) = ground (arith, length-find_if p xs)

filter-find_if : (p : String → Bool) (xs : List String) → filter p (find_if p xs) ≡ filter p xs
unfolding find_if
filter-find_if p [] = refl
filter-find_if p (x ∷ xs) = ground (arith, filter-find_if p xs)

lower_loop-filter :
    (fuel : ℕ) (p : String → Bool) (xs : List String)
    → length xs < fuel
    → lower_loop fuel p (find_if p xs) ≡ filter p xs
unfolding lower_loop find_if
lower_loop-filter zero p xs h = elim h [ ]
lower_loop-filter (suc fuel) p [] h = refl
lower_loop-filter (suc fuel) p (x ∷ xs) h = elim (Bool-cases (p x)) [
  | inl hit ↦ rw hit (ap (◌∷◌ x) (lower_loop-filter fuel p xs (omega arith)))
  | inr miss ↦ rw miss (lower_loop-filter (suc fuel) p xs (omega arith))
]

-- The loop gives the names below the own one, all of them, in their order; one round for each name
-- and one more are enough.
pub lower_ids-filter :
    (ids : List String) (id : String) → lower_ids ids id ≡ filter (λ i. str_lt i id) ids
unfolding lower_ids
lower_ids-filter ids id = lower_loop-filter (suc (length ids)) (λ i. str_lt i id) ids (omega arith)

-- Whether a list has a name.
abbrev pub contains : String → List String → Bool
contains y = any (λ x. str_eq x y)

min_element-best : (best : String) (xs : List String) → str_lt best (min_element best xs) ≡ false
unfolding min_element
min_element-best best [] = str_lt_irrefl best
min_element-best best (x ∷ xs) =
    ground (
      arith,
      min_element-best x xs,
      min_element-best best xs,
      str_lt_trans x best (min_element x xs),
    )

min_element-lowest :
    (y best : String) (xs : List String)
    → contains y xs ≡ true
    → str_lt y (min_element best xs) ≡ false
unfolding min_element
min_element-lowest y best [] h = cc
min_element-lowest y best (x ∷ xs) h = ground (
  arith,
  str_eq_iff x y,
  min_element-lowest y x xs,
  min_element-lowest y best xs,
  min_element-best x xs,
  min_element-best best xs,
  str_eq_iff best (min_element best xs),
  str_lt_total best (min_element best xs),
  str_lt_trans x (min_element best xs) best,
)

min_element-contains :
    (best : String) (xs : List String) → contains (min_element best xs) (best ∷ xs) ≡ true
unfolding min_element
min_element-contains best [] = ground (arith, str_eq_iff best best)
min_element-contains best (x ∷ xs) =
    ground (arith, min_element-contains x xs, min_element-contains best xs)

min_element-below :
    (y best : String) (xs : List String)
    → contains y (best ∷ xs) ≡ true
    → str_lt y (min_element best xs) ≡ false
min_element-below y best xs h =
    ground (arith, str_eq_iff best y, min_element-best best xs, min_element-lowest y best xs)

filter-nil :
    (p : String → Bool) (y : String) (xs : List String)
    → filter p xs ≡ []
    → contains y xs ≡ true
    → p y ≡ false
filter-nil p y [] e h = cc
filter-nil p y (x ∷ xs) e h = ground (arith, str_eq_iff x y, filter-nil p y xs)

nil-filter :
    (p : String → Bool) (xs : List String)
    → ((y : String) → contains y xs ≡ true → p y ≡ false)
    → filter p xs ≡ []
nil-filter p [] h = refl
nil-filter p (x ∷ xs) h =
    rw (h x (ground (arith, str_eq_iff x x))) (nil-filter p xs (λ y k. h y (ground arith)))

-- A node that is in its own membership list finds itself the minimum exactly when it knows of no
-- lower name: either it elects itself, or it has someone to ask.
pub min_element-lower_ids :
    (best : String) (xs : List String) (id : String)
    → contains id (best ∷ xs) ≡ true
    → (min_element best xs ≡ id) ↔ (lower_ids (best ∷ xs) id ≡ [])
min_element-lower_ids best xs id h = (
  λ e.
      lower_ids-filter (best ∷ xs) id
      ∙ nil-filter (λ i. str_lt i id) (best ∷ xs) (λ y k. rw e at (min_element-below y best xs k)),
  λ e.
      let none_lower =
        filter-nil (λ i. str_lt i id) (min_element best xs) (best ∷ xs)
          (sym (lower_ids-filter (best ∷ xs) id) ∙ e) (min_element-contains best xs) in
      ground (
        arith,
        none_lower,
        min_element-below id best xs h,
        str_lt_total (min_element best xs) id,
        str_eq_iff (min_element best xs) id,
      ),
)
