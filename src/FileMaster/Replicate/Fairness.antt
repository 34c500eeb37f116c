-- ===== src/FileMaster/Replicate/Fairness.antt =====
-- Both loops of `replicateFile` end when every index keeps coming.
use cranesps.Base.{
  string_key, ℕ, zero, suc, ◌+◌, ◌%◌, ◌≤◌, ◌<◌, String, ◌≡◌, refl, ap, ◌∙◌, ◌⊎◌, inl, inr, Bool,
  true, false, not, ◌&&◌, some, List, [], ◌∷◌, arith, length, get_elem?, filter, any, leb,
  if◌then◌else◌, Bool-cases,
}
use native.Mathlib.Nat.{mod-lt}
use cranesps.Base.StdSet.{member, insert, IsRising, length-insert}
use cranesps.Base.StdSet.Pigeon.{Inside, length-Inside, filter-IsRising, insert-member}
use cranesps.FileMaster.Replicate.{pick_targets, pick_source}
use cranesps.FileMaster.Replicate.Targets.{
  Fair, get_elem?-some, Chosen, choose, pick-done, pick-draw,
}

-- A member that passes a test, by its index; or none does.
find_index :
    (p : String → Bool) (xs : List String)
    → ((i : ℕ) × (x : String) × (i < length xs) × (get_elem? xs i ≡ some x) × (p x ≡ true))
      ⊎ (filter p xs ≡ [])
find_index p [] = inr refl
find_index p (x ∷ xs) = elim (Bool-cases (p x)) [
  | inl hit ↦ inl (0, x, omega arith, refl, hit)
  | inr miss ↦ elim (find_index p xs) [
    | inl (i, y, h, e, q) ↦ inl (suc i, y, omega arith, e, q)
    | inr e ↦ inr (rw miss e)
  ]
]

none_has : (p : String → Bool) (xs : List String) → filter p xs ≡ [] → any p xs ≡ true → ⊥
none_has p [] e h = cc
none_has p (x ∷ xs) e h = ground (arith, none_has p xs)

-- Where no free member is left outside the set, the set has them all.
Inside-all :
    (has : String → Bool) (targets xs : List String)
    → filter (λ m. not (has m) && not (member m targets)) xs ≡ []
    → Inside (filter (λ m. not (has m)) xs) targets
Inside-all has targets [] e = tt
Inside-all has targets (x ∷ xs) e = ground (arith, Inside-all has targets xs)

grows :
    (has : String → Bool) (x : String) (targets : List String)
    → IsRising targets
    → (not (has x) && not (member x targets)) ≡ true
    → length (if has x then targets else insert x targets) ≡ suc (length targets)
grows has x targets s new = ground (arith, length-insert x targets s)

stays :
    (has : String → Bool) (x : String) (targets : List String)
    → IsRising targets
    → (not (has x) && not (member x targets)) ≡ false
    → (if has x then targets else insert x targets) ≡ targets
stays has x targets s old = ground (arith, insert-member x targets s)

module _ (rand : ℕ → ℕ) (has : String → Bool) (members : List String) (wanted : ℕ)
    (fair : Fair rand (length members)) (sorted : IsRising members)
    (enough : wanted ≤ length (filter (λ m. not (has m)) members)) where
  Ends : ℕ → List String → Type 0
  Ends next targets =
      (fuel : ℕ) × (result : List String) × (next' : ℕ) × (pick_targets fuel rand next has members
          wanted targets
        ≡ some (result, next'))

  next_target :
      (targets : List String)
      → length targets < wanted
      → (i : ℕ) × (x : String) × (i < length members)
        × (get_elem? members i ≡ some x)
        × ((not (has x) && not (member x targets)) ≡ true)
  next_target targets few = elim (find_index (λ m. not (has m) && not (member m targets)) members) [
    | inl found ↦ found
    | inr e ↦
        let all =
          length-Inside (filter (λ m. not (has m)) members) targets
            (filter-IsRising _ members sorted) (Inside-all has targets members e) in
        absurd (omega arith)
  ]

  one_draw :
      (next : ℕ) (targets : List String) (i : ℕ) (x : String)
      → length targets < wanted
      → get_elem? members i ≡ some x
      → rand next % length members ≡ i
      → Ends (suc next) (if has x then targets else insert x targets)
      → Ends next targets
  unfolding Ends
  one_draw next targets i x few e d (fuel, result, next', r) = (
    suc fuel,
    result,
    next',
    pick-draw rand has members wanted fuel next targets x (ground arith)
          (ap (get_elem? members) d ∙ e)
        ∙ r,
  )

  -- Until the k-th draw from now, which hits a new target, every draw either adds one or none.
  wait_for :
      (m : ℕ)
      → ((next : ℕ) (targets : List String)
          → Chosen rand has members wanted targets
          → wanted ≤ length targets + m
          → Ends next targets)
      → (k next : ℕ) (targets : List String) (i : ℕ) (x : String)
      → Chosen rand has members wanted targets
      → wanted ≤ length targets + suc m
      → length targets < wanted
      → i < length members
      → get_elem? members i ≡ some x
      → (not (has x) && not (member x targets)) ≡ true
      → rand (next + k) % length members ≡ i
      → Ends next targets
  wait_for m more zero next targets i x c gap few low e new hit =
      one_draw next targets i x few e (ap (λ t. rand t % length members) (omega arith) ∙ hit) (
        more (suc next) _ (choose rand has members wanted i x targets e (ground arith) c)
          (ground (arith, grows has x targets c.0 new)))
  wait_for m more (suc k) next targets i x c gap few low e new hit =
      let (y, drawn) =
        get_elem?-some members (rand next % length members) (mod-lt (rand next) (omega arith)) in
      one_draw next targets (rand next % length members) y few drawn refl
        (elim (Bool-cases (not (has y) && not (member y targets))) [
          | inl fresh ↦
              more (suc next) _ (choose rand has members wanted _ y targets drawn (ground arith) c)
                (ground (arith, grows has y targets c.0 fresh))
          | inr stale ↦ rw (stays has y targets c.0 stale) (
              wait_for m more k (suc next) targets i x c gap few low e new
                (ap (λ t. rand t % length members) (omega arith) ∙ hit))
        ])

  pick-Ends :
      (m next : ℕ) (targets : List String)
      → Chosen rand has members wanted targets
      → wanted ≤ length targets + m
      → Ends next targets
  unfolding Ends
  pick-Ends zero next targets c gap =
      (1, targets, next, pick-done rand has members wanted 0 next targets (ground arith))
  pick-Ends (suc m) next targets c gap = elim (Bool-cases (leb wanted (length targets))) [
    | inl full ↦ (1, targets, next, pick-done rand has members wanted 0 next targets full)
    | inr few ↦
        let (i, x, low, e, new) = next_target targets (ground arith) in
        let (k, hit) = fair next i low in
        wait_for m (pick-Ends m) k next targets i x c gap (ground arith) low e new hit
  ]

  -- From the empty set the loop over the targets ends.
  pub pick_targets-ends :
      (fuel : ℕ) × (result : List String) × (next' : ℕ) × (pick_targets fuel rand 0 has members
          wanted []
        ≡ some (result, next'))
  unfolding Ends
  pick_targets-ends = pick-Ends wanted 0 [] (tt, tt, omega arith) (omega arith)

module _ (rand : ℕ → ℕ) (has : String → Bool) (members : List String)
    (fair : Fair rand (length members)) where
  -- The draw number k from now has the file; the loop ends there or before, at a node that has it.
  source_by :
      (k next i : ℕ) (x : String)
      → get_elem? members i ≡ some x
      → i < length members
      → has x ≡ true
      → rand (next + k) % length members ≡ i
      → (fuel : ℕ) × (source : String) × (pick_source fuel rand next has members ≡ some source)
        × (has source ≡ true)
  unfolding pick_source
  source_by zero next i x e low held hit =
      let drawn : get_elem? members (rand next % length members) ≡ some x =
        ap (get_elem? members) (ap (λ t. rand t % length members) (omega arith) ∙ hit) ∙ e in
      (1, x, ground arith, held)
  source_by (suc k) next i x e low held hit =
      let (y, drawn) =
        get_elem?-some members (rand next % length members) (mod-lt (rand next) (omega arith)) in
      elim (Bool-cases (has y)) [
        | inl yes_it ↦ (1, y, ground arith, yes_it)
        | inr not_it ↦
            let (fuel, source, r, h) =
              source_by k (suc next) i x e low held
                (ap (λ t. rand t % length members) (omega arith) ∙ hit) in
            (suc fuel, source, ground arith, h)
      ]

  pub pick_source-ends :
      (next : ℕ)
      → any has members ≡ true
      → (fuel : ℕ) × (source : String) × (pick_source fuel rand next has members ≡ some source)
        × (has source ≡ true)
  pick_source-ends next some_has = elim (find_index has members) [
    | inl (i, x, low, e, held) ↦
        let (k, hit) = fair next i low in source_by k next i x e low held hit
    | inr e ↦ absurd (none_has has members e some_has)
  ]
