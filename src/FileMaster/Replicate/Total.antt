-- ===== src/FileMaster/Replicate/Total.antt =====
-- `replicateFile` as a whole: it brings a file to its number of replicas, or never returns.
use cranesps.Base.{
  string_key, ℕ, ◌+◌, ◌≤◌, ◌<◌, String, ◌≡◌, refl, ◌⊎◌, inl, inr, true, not, none, some, List, [],
  ◌∷◌, arith, length, filter, any, leb, if◌then◌else◌, Bool-cases, ◌==◌,
}
use cranesps.Base.StdMap.Order.{IsSorted}
use cranesps.Base.StdSet.{IsRising}
use cranesps.Base.StdSet.Pigeon.{Inside, length-Inside, filter-IsRising, length-filter-not}
use cranesps.FileMaster.Files.{FileMap, has_file, count_replicates}
use cranesps.FileMaster.Files.Laws.{holders, count_replicates-holders, any-holders}
use cranesps.FileMaster.Replicate.{
  Command, replicate, num_targets, pick_targets, replicate_file, max_replicate,
}
use cranesps.FileMaster.Replicate.Targets.{Fair, pick_targets_sound, pick_targets-diverges}
use cranesps.FileMaster.Replicate.Fairness.{pick_targets-ends, pick_source-ends}

abbrev pub goal : ℕ → ℕ
goal members = if leb members max_replicate then members else max_replicate

Inside-holders :
    (f : String) (fm : FileMap) (xs : List String)
    → IsSorted fm
    → Inside (filter (λ m. has_file m f fm) xs) (holders f fm)
Inside-holders f fm [] s = tt
Inside-holders f fm (x ∷ xs) s = ground (arith, any-holders f x fm s, Inside-holders f fm xs s)

-- The members without the file are at least as many as the members less the replicas.
free_members :
    (f : String) (fm : FileMap) (members : List String)
    → IsSorted fm
    → IsRising members
    → length members ≤ length (filter (λ m. not (has_file m f fm)) members) + count_replicates f fm
free_members f fm members s r = omega (
  arith,
  count_replicates-holders f fm,
  length-filter-not (λ m. has_file m f fm) members,
  length-Inside (filter (λ m. has_file m f fm) members) (holders f fm) (filter-IsRising _ members r)
      (Inside-holders f fm members s),
)

num_targets-goal : (n count : ℕ) → count ≤ goal n → num_targets n count + count ≡ goal n
unfolding num_targets
num_targets-goal n count room = ground arith

goal-le : (n : ℕ) → goal n ≤ n
goal-le n = ground arith

-- What a command to replicate has to say.
pub record Replicates (f : String) (fm : FileMap) (members : List String) (commands : List Command)
    : Type 0 where
  pub source : String
  pub targets : List String
  pub sends : commands ≡ replicate source targets f "" ∷ []
  pub source_has : has_file source f fm ≡ true
  pub distinct : IsRising targets
  pub free : Inside targets (filter (λ m. not (has_file m f fm)) members)
  pub completes : length targets + count_replicates f fm ≡ goal (length members)

-- With fair random numbers, a file map and a member list in order, a member that has the file and
-- no more replicas than the goal (three, or the number of members if that is less),
-- `replicateFile` returns: it sends nothing if the goal is met, and else one command, from a node
-- that has the file to distinct members that have not, as many as are missing.
pub replicate_file-total :
    (rand : ℕ → ℕ) (members : List String) (f : String) (fm : FileMap)
    → Fair rand (length members)
    → IsSorted fm
    → IsRising members
    → any (λ m. has_file m f fm) members ≡ true
    → count_replicates f fm ≤ goal (length members)
    → (fuel : ℕ) × (source_fuel : ℕ) × (commands : List Command) × (replicate_file fuel source_fuel
          rand members f fm
        ≡ some commands)
      × (((commands ≡ []) × (count_replicates f fm ≡ goal (length members)))
          ⊎ Replicates f fm members commands)
replicate_file-total rand members f fm fair s r held room =
    elim (Bool-cases (num_targets (length members) (count_replicates f fm) == 0)) [
      | inl met ↦ (
        0,
        0,
        [],
        unfold replicate_file in rw met,
        inl (refl, unfold num_targets in ground arith),
      )
      | inr missing ↦
          let has = λ (node : String). has_file node f fm in
          let wanted = num_targets (length members) (count_replicates f fm) in
          let all : wanted + count_replicates f fm ≡ goal (length members) =
            num_targets-goal (length members) (count_replicates f fm) room in
          let (fuel, targets, next, picked) =
            pick_targets-ends rand has members wanted fair r
              (omega (arith, goal-le (length members), free_members f fm members s r)) in
          let (source_fuel, source, found, source_has) =
            pick_source-ends rand has members fair next held in
          let (chosen, exact) =
            pick_targets_sound rand has members wanted fuel 0 [] targets next picked
              (tt, tt, omega arith) in
          (
            fuel,
            source_fuel,
            replicate source targets f "" ∷ [],
            unfold replicate_file in rw missing (rw picked (rw found)),
            inr (record {
              source = source;
              targets = targets;
              sends = refl;
              source_has = source_has;
              distinct = chosen.0;
              free = chosen.1;
              completes = rw exact all;
            }),
          )
    ]

-- With more replicas on the map than the goal, and fewer than 2 ^ 32 members and replicas
-- together, it does not return, whatever the random numbers are and however many rounds it is
-- given: the difference is below zero, and is compared as an unsigned number.
pub replicate_file-diverges :
    (rand : ℕ → ℕ) (members : List String) (f : String) (fm : FileMap) (fuel source_fuel : ℕ)
    → goal (length members) < count_replicates f fm
    → length members + count_replicates f fm < 4294967296
    → replicate_file fuel source_fuel rand members f fm ≡ none
unfolding replicate_file num_targets
replicate_file-diverges rand members f fm fuel source_fuel over small =
    let has = λ (node : String). has_file node f fm in
    let wanted = num_targets (length members) (count_replicates f fm) in
    let free = length-filter-not has members in
    let never : pick_targets fuel rand 0 has members wanted [] ≡ none =
      pick_targets-diverges rand has members wanted fuel 0 [] (ground arith)
        (tt, tt, omega arith) in
    ground arith
