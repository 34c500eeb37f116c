-- ===== src/FileMaster/Replicate/Targets.antt =====
-- The loop that picks the targets: what it returns, that it returns under a fair random source, and
-- when it never does.
use cranesps.Base.{
  string_key, ℕ, zero, suc, ◌+◌, ◌%◌, ◌≤◌, ◌<◌, String, ◌≡◌, refl, sym, ◌∙◌, inl, inr, Bool, true,
  false, not, Option, none, some, List, [], ◌∷◌, arith, length, get_elem?, filter, leb,
  if◌then◌else◌, Bool-cases, Option-cases,
}
use cranesps.Base.Text.{str_eq_iff}
use cranesps.Base.StdSet.{member, insert, IsRising, length-insert, insert-IsRising}
use cranesps.Base.StdSet.Pigeon.{Inside, length-Inside, member-filter, Inside-insert}
use cranesps.FileMaster.Replicate.{pick_targets}

-- Every index comes again: what the loops rely on in rand().
abbrev pub Fair : (ℕ → ℕ) → ℕ → Type 0
Fair rand n = (start r : ℕ) → r < n → (k : ℕ) × (rand (start + k) % n ≡ r)

pub get_elem?-some :
    (xs : List String) (i : ℕ) → i < length xs → (x : String) × (get_elem? xs i ≡ some x)
get_elem?-some [] i h = elim h [ ]
get_elem?-some (x ∷ xs) zero h = (x, refl)
get_elem?-some (x ∷ xs) (suc i) h = get_elem?-some xs i (omega arith)

pub get_elem?-member :
    (xs : List String) (i : ℕ) (x : String) → get_elem? xs i ≡ some x → member x xs ≡ true
get_elem?-member [] i x e = cc
get_elem?-member (y ∷ xs) zero x e = ground (arith, str_eq_iff y x)
get_elem?-member (y ∷ xs) (suc i) x e = ground (arith, get_elem?-member xs i x e)

module _ (rand : ℕ → ℕ) (has : String → Bool) (members : List String) (wanted : ℕ) where
  -- What holds of the targets in every round.
  abbrev pub Chosen : List String → Type 0
  Chosen targets =
      IsRising targets
      × Inside targets (filter (λ m. not (has m)) members)
      × (length targets ≤ wanted)

  pub choose :
      (i : ℕ) (target : String) (targets : List String)
      → get_elem? members i ≡ some target
      → leb wanted (length targets) ≡ false
      → Chosen targets
      → Chosen (if has target then targets else insert target targets)
  choose i target targets e more c = elim (Bool-cases (has target)) [
    | inl held ↦ rw held c
    | inr free ↦ rw free (
      insert-IsRising target targets c.0,
      Inside-insert target targets _
          (member-filter (λ m. not (has m)) target members
            ∙ ground (arith, get_elem?-member members i target e))
          c.1,
      ground (arith, length-insert target targets c.0),
    )
  ]

  abbrev pub pick : ℕ → ℕ → List String → Option (List String × ℕ)
  pick fuel next targets = pick_targets fuel rand next has members wanted targets

  pub pick-done :
      (fuel next : ℕ) (targets : List String)
      → leb wanted (length targets) ≡ true
      → pick (suc fuel) next targets ≡ some (targets, next)
  unfolding pick_targets
  pick-done fuel next targets full = ground arith

  pick-fault :
      (fuel next : ℕ) (targets : List String)
      → leb wanted (length targets) ≡ false
      → get_elem? members (rand next % length members) ≡ none
      → pick (suc fuel) next targets ≡ none
  unfolding pick_targets
  pick-fault fuel next targets more out = ground arith

  pub pick-draw :
      (fuel next : ℕ) (targets : List String) (target : String)
      → leb wanted (length targets) ≡ false
      → get_elem? members (rand next % length members) ≡ some target
      → pick (suc fuel) next targets
        ≡ pick fuel (suc next) (if has target then targets else insert target targets)
  unfolding pick_targets
  pick-draw fuel next targets target more drawn = ground arith

  -- The set that the loop returns has exactly the wanted number of members, all without the file.
  pub pick_targets_sound :
      (fuel next : ℕ) (targets result : List String) (next' : ℕ)
      → pick fuel next targets ≡ some (result, next')
      → Chosen targets
      → Chosen result × (length result ≡ wanted)
  pick_targets_sound zero next targets result next' e c = absurd (unfold pick_targets in cc e)
  pick_targets_sound (suc fuel) next targets result next' e c =
      elim (Bool-cases (leb wanted (length targets))) [
        | inl full ↦
            let done : targets ≡ result = ground (arith, pick-done fuel next targets full) in
            rw (← done) (c, ground arith)
        | inr more ↦ elim (Option-cases (get_elem? members (rand next % length members))) [
          | inl out ↦ absurd (cc (pick-fault fuel next targets more out))
          | inr (target, drawn) ↦
              pick_targets_sound fuel (suc next) _ result next'
                (sym (pick-draw fuel next targets target more drawn) ∙ e)
                (choose _ target targets drawn more c)
        ]
      ]

  -- With more targets wanted than there are members, the loop never ends.
  pub pick_targets-diverges :
      (fuel next : ℕ) (targets : List String)
      → length (filter (λ m. not (has m)) members) < wanted
      → Chosen targets
      → pick fuel next targets ≡ none
  pick_targets-diverges zero next targets many c = unfold pick_targets in refl
  pick_targets-diverges (suc fuel) next targets many c =
      let few = length-Inside targets _ c.0 c.1 in
      let more : leb wanted (length targets) ≡ false = ground arith in
      elim (Option-cases (get_elem? members (rand next % length members))) [
        | inl out ↦ pick-fault fuel next targets more out
        | inr (target, drawn) ↦
            pick-draw fuel next targets target more drawn
            ∙ pick_targets-diverges fuel (suc next) _ many (choose _ target targets drawn more c)
      ]
