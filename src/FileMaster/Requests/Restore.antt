-- ===== src/FileMaster/Requests/Restore.antt =====
-- The requests and events that replicate: a put, and the failure of a node.
use cranesps.Base.{
  string_key, ℕ, String, ◌≡◌, refl, ap, ◌⊎◌, inl, inr, Bool, true, ◌||◌, some, List, [], ◌∷◌, ◌++◌,
  ◌≤◌, arith, any, Bool-cases, length,
}
use cranesps.Base.Text.{str_eq, str_eq_iff}
use cranesps.Base.StdMap.{set, at_or}
use cranesps.Base.StdMap.Order.{IsSorted, set-IsSorted}
use cranesps.Base.StdSet.{member, insert, IsRising, member-insert}
use cranesps.FileMaster.Files.{
  FileInfo, FileMap, new_file_info, has_name, has_file, count_replicates, add_to_file_map,
  clear_files,
}
use cranesps.FileMaster.Replicate.{Command, replicate_file}
use cranesps.FileMaster.Replicate.Targets.{Fair}
use cranesps.FileMaster.Replicate.Total.{goal, Replicates, replicate_file-total}
use cranesps.FileMaster.Requests.{
  Draws, Effect, put, put_reply, process_service, insert_names, member_files, replicate_all,
  re_replicate, handle_node_fail,
}
use cranesps.FileMaster.Requests.Laws.{has_file-add}

-- What the commands for one file do: nothing if the goal is met, or one command that meets it.
abbrev pub Restores : String → FileMap → List String → List Command → Type 0
Restores f fm members commands =
    ((commands ≡ []) × (count_replicates f fm ≡ goal (length members)))
    ⊎ Replicates f fm members commands

add-IsSorted :
    (id : String) (fi : FileInfo) (fm : FileMap) → IsSorted fm → IsSorted (add_to_file_map id fi fm)
unfolding add_to_file_map
add-IsSorted id fi fm s = ground (arith, set-IsSorted id (at_or id [] fm ++ fi ∷ []) fm s)

count-set :
    (f id : String) (infos : List FileInfo) (fm : FileMap)
    → count_replicates f fm ≡ 0
    → count_replicates f (set id infos fm) ≤ 1
unfolding count_replicates set
count-set f id infos [] z = ground arith
count-set f id infos ((j, v) ∷ fm) z = ground (arith, count-set f id infos fm)

count-add :
    (f id : String) (fi : FileInfo) (fm : FileMap)
    → count_replicates f fm ≡ 0
    → count_replicates f (add_to_file_map id fi fm) ≤ 1
unfolding add_to_file_map
count-add f id fi fm z = ground (arith, count-set f id (at_or id [] fm ++ fi ∷ []) fm z)

member-holds :
    (p : String → Bool) (id : String) (members : List String)
    → member id members ≡ true
    → p id ≡ true
    → any p members ≡ true
member-holds p id [] m h = m
member-holds p id (x ∷ members) m h = elim (Bool-cases (str_eq x id)) [
  | inl e ↦ let px : p x ≡ p id = ap p ((str_eq_iff x id).0 e) in ground arith
  | inr e ↦ ground (arith, member-holds p id members)
]

member-some :
    (id : String) (members : List String) → member id members ≡ true → 1 ≤ goal (length members)
member-some id [] m = ground arith
member-some id (x ∷ members) m = ground arith

-- A put from a member, of a file that no node has, is approved with the file's name. With a file
-- map and a member list in order and fair random numbers the call returns, the sender then has the
-- file, and the commands bring the file to its number of replicas.
pub put_total :
    (rand : ℕ → ℕ) (members : List String) (id name md5 : String) (size : ℕ) (fm : FileMap)
    → Fair rand (length members)
    → IsSorted fm
    → IsRising members
    → member id members ≡ true
    → count_replicates name fm ≡ 0
    → (fuel : ℕ) × (source_fuel : ℕ) × (e : Effect) × (commands : List Command) × (process_service
          (record { fuel = fuel; source_fuel = source_fuel; rand = rand })
          members
          id
          (put name md5 size)
          fm
        ≡ e)
      × (e.commands ≡ some commands)
      × (e.reply ≡ put_reply true (some name))
      × (has_file id name e.file_map ≡ true)
      × Restores name e.file_map members commands
put_total rand members id name md5 size fm fair s r m z =
    let fi = new_file_info name md5 size in
    let added = add_to_file_map id fi fm in
    let has : has_file id name added ≡ true =
      ground (arith, has_file-add id id name fi fm, str_eq_iff id id, str_eq_iff name name) in
    let room : count_replicates name added ≤ goal (length members) =
      omega (arith, count-add name id fi fm z, member-some id members m) in
    let (fuel, source_fuel, commands, run, done) =
      replicate_file-total rand members name added fair (add-IsSorted id fi fm s) r
        (member-holds (λ j. has_file j name added) id members m has) room in
    (
      fuel,
      source_fuel,
      record { file_map = added; reply = put_reply true (some name); commands = some commands },
      commands,
      unfold process_service in rw z (rw run refl),
      refl,
      refl,
      has,
      done,
    )

member-insert_names :
    (f : String) (infos : List FileInfo) (files : List String)
    → member f (insert_names infos files) ≡ (has_name f infos || member f files)
member-insert_names f [] files = refl
member-insert_names f (fi ∷ infos) files =
    ground
      (arith, member-insert_names f infos (insert fi.name files), member-insert fi.name f files)

member-member_files :
    (f : String) (members : List String) (fm : FileMap) (files : List String)
    → member f (member_files members fm files)
      ≡ (any (λ m. has_file m f fm) members || member f files)
unfolding member_files has_file
member-member_files f [] fm files = refl
member-member_files f (m ∷ members) fm files = ground (
  arith,
  member-insert_names f (at_or m [] fm) files,
  member-member_files f members fm (insert_names (at_or m [] fm) files),
)

clear-IsSorted : (id : String) (fm : FileMap) → IsSorted fm → IsSorted (clear_files id fm)
unfolding clear_files
clear-IsSorted id fm s = set-IsSorted {V = List FileInfo} id [] fm s

abbrev pub joined : (String → List Command) → List String → List Command
joined per [] = []
joined per (f ∷ files) = per f ++ joined per files

replicate_all-joined :
    (draws : String → Draws) (members : List String) (fm : FileMap) (per : String → List Command)
    (files : List String)
    → ((f : String)
        → member f files ≡ true
        → replicate_file (draws f).fuel (draws f).source_fuel (draws f).rand members f fm
          ≡ some (per f))
    → replicate_all draws members files fm ≡ some (joined per files)
unfolding replicate_all
replicate_all-joined draws members fm per [] each = refl
replicate_all-joined draws members fm per (f ∷ files) each =
    let first = each f (ground (arith, str_eq_iff f f)) in
    let rest = replicate_all-joined draws members fm per files (λ g m. each g (ground arith)) in
    rw (first, replicate_all) (rw rest refl)

module _ (rands : String → ℕ → ℕ) (members : List String) (fm : FileMap) where
  abbrev Plan : String → Type 0
  Plan f =
      (fuel : ℕ) × (source_fuel : ℕ) × (commands : List Command) × (any (λ m. has_file m f fm)
            members
          ≡ true
        → (replicate_file fuel source_fuel (rands f) members f fm ≡ some commands)
          × Restores f fm members commands)

  plan :
      ((f : String) → Fair (rands f) (length members))
      → IsSorted fm
      → IsRising members
      → ((f : String)
          → any (λ m. has_file m f fm) members ≡ true
          → count_replicates f fm ≤ goal (length members))
      → (f : String) → Plan f
  plan fair s r room f = elim (Bool-cases (any (λ m. has_file m f fm) members)) [
    | inl h ↦
        let (fuel, source_fuel, commands, run, done) =
          replicate_file-total (rands f) members f fm (fair f) s r h (room f h) in
        (fuel, source_fuel, commands, λ h. (run, done))
    | inr h ↦ (0, 0, [], λ yes. ground arith)
  ]

-- When a node fails, its entry is emptied and every file that a member still has is brought to its
-- number of replicas again: with a file map and a member list in order, fair random numbers for
-- each file, and no file with more replicas than that, the loop over the files returns, and its
-- commands are those of the files in turn, where the commands of a file that a member has restore
-- it, and every such file is in the loop.
pub handle_node_fail_total :
    (rands : String → ℕ → ℕ) (members : List String) (id : String) (fm : FileMap)
    → ((f : String) → Fair (rands f) (length members))
    → IsSorted fm
    → IsRising members
    → ((f : String)
        → any (λ m. has_file m f (clear_files id fm)) members ≡ true
        → count_replicates f (clear_files id fm) ≤ goal (length members))
    → (draws : String → Draws) × ((f : String) → (draws f).rand ≡ rands f)
      × (per : String → List Command) × (handle_node_fail draws members id fm
          ≡ (clear_files id fm, some (joined per (member_files members (clear_files id fm) []))))
      × ((f : String)
          → any (λ m. has_file m f (clear_files id fm)) members ≡ true
          → Restores f (clear_files id fm) members (per f)
            × (member f (member_files members (clear_files id fm) []) ≡ true))
unfolding handle_node_fail re_replicate
handle_node_fail_total rands members id fm fair s r room =
    let cleared = clear_files id fm in
    let plans = plan rands members cleared fair (clear-IsSorted id fm s) r room in
    let draws : String → Draws =
      λ f. record { fuel = (plans f).0; source_fuel = (plans f).1; rand = rands f } in
    let per : String → List Command = λ f. (plans f).2 in
    (
      draws,
      λ f. refl,
      per,
      ap (λ c. (cleared, c))
          (replicate_all-joined draws members cleared per (member_files members cleared [])
            (λ f m. ((plans f).3 (ground (arith, member-member_files f members cleared []))).0)),
      λ f h. (((plans f).3 h).1, ground (arith, member-member_files f members cleared [])),
    )
