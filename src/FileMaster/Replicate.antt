-- ===== src/FileMaster/Replicate.antt =====
-- `replicateFile`: the random choice of the targets and of the source. `rand` gives the results of
-- the calls of rand(), in order; a loop carries the number of the next call. `none` is a loop that
-- has not ended with its fuel, or an index out of range.
pub mod Targets
pub mod Total
pub mod Fairness
use cranesps.Base.{
  string_key, ℕ, zero, suc, ◌+◌, ◌-◌, ◌%◌, String, Bool, true, false, not, Option, none, some, List,
  [], ◌∷◌, length, get_elem?, leb, ◌==◌, if◌then◌else◌,
}
use cranesps.Base.StdSet.{insert}
use cranesps.FileMaster.Files.{FileMap, has_file, count_replicates}

abbrev pub max_replicate : ℕ
max_replicate = 3

-- `std::min(numMembers, MAX_REPLICATE) - count`, as the `unsigned int` that the loop compares.
unfoldable pub num_targets : ℕ → ℕ → ℕ
num_targets members count =
    let goal = if leb members max_replicate then members else max_replicate in
    if leb count goal then goal - count else 4294967296 - (count - goal)

-- The two nested loops over the targets: a draw is thrown away if its node has the file, and
-- else goes into the set.
unfoldable pub pick_targets :
    ℕ → (ℕ → ℕ) → ℕ → (String → Bool) → List String → ℕ → List String → Option (List String × ℕ)
pick_targets zero rand next has members wanted targets = none
pick_targets (suc fuel) rand next has members wanted targets = elim (leb wanted (length targets)) [
  | true ↦ some (targets, next)
  | false ↦ elim (get_elem? members (rand next % length members)) [
    | none ↦ none
    | some target ↦
        pick_targets fuel rand (suc next) has members wanted
          (if has target then targets else insert target targets)
  ]
]

unfoldable pub pick_source : ℕ → (ℕ → ℕ) → ℕ → (String → Bool) → List String → Option String
pick_source zero rand next has members = none
pick_source (suc fuel) rand next has members =
    elim (get_elem? members (rand next % length members)) [
      | none ↦ none
      | some source ↦ elim (has source) [
        | true ↦ some source
        | false ↦ pick_source fuel rand (suc next) has members
      ]
    ]

-- A command to a node; the target's name comes first.
pub data Command : Type 0 where
  replicate : String → List String → String → String → Command  -- targets, file name, file path
  delete : String → String → Command
  list : String → Command

-- The commands that `replicateFile` sends, by a number of rounds for each loop.
unfoldable pub replicate_file :
    ℕ → ℕ → (ℕ → ℕ) → List String → String → FileMap → Option (List Command)
replicate_file fuel source_fuel rand members filename fm =
    let has = λ (node : String). has_file node filename fm in
    let wanted = num_targets (length members) (count_replicates filename fm) in
    if wanted == 0 then some [] else elim (pick_targets fuel rand 0 has members wanted []) [
      | none ↦ none
      | some (targets, next) ↦ elim (pick_source source_fuel rand next has members) [
        | none ↦ none
        | some source ↦ some (replicate source targets filename "" ∷ [])
      ]
    ]
