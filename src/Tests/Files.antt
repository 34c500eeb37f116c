-- ===== src/Tests/Files.antt =====
-- The file master at concrete inputs: three members, where a has the file f.
use cranesps.Base.{
  length, string_key, ℕ, ◌+◌, ◌≤◌, String, ◌≡◌, refl, true, false, not, ◌&&◌, ◌||◌, ◌⊎◌, none, some,
  List, [], ◌∷◌, arith, any, ◌==◌,
}
use cranesps.Base.Text.{str_eq}
use cranesps.Base.StdMap.{lookup, set}
use cranesps.Base.StdSet.{member, IsRising}
use cranesps.FileMaster.Files.{
  FileInfo, FileMap, has_name, has_file, count_replicates, update_file_map, add_to_file_map,
  delete_from_file_map, clear_files, new_file_info,
}
use cranesps.FileMaster.Files.Laws.{has_file_exact, holders}
use cranesps.FileMaster.Replicate.{Command, replicate, replicate_file}
use cranesps.FileMaster.Replicate.Targets.{Fair}
use cranesps.FileMaster.Replicate.Total.{Replicates, replicate_file-total, replicate_file-diverges}
use cranesps.FileMaster.Requests.{
  take_over, Draws, Effect, put, get, put_reply, get_reply, process_service, handle_node_fail,
  member_files,
}
use cranesps.FileMaster.Requests.Leader.{take_over_exact}
use cranesps.FileMaster.Requests.Serve.{served_exact, get_exact, gives, takes}
use cranesps.FileMaster.Requests.Restore.{Restores, put_total, joined, handle_node_fail_total}

abbrev nodes : List String
nodes = "a" ∷ "b" ∷ "c" ∷ []

abbrev rising : IsRising nodes
rising = ((refl, (refl, tt)), ((refl, tt), (tt, tt)))

abbrev info_f : FileInfo
info_f = new_file_info "f" "m" 5

abbrev fm : FileMap
fm = ("a", info_f ∷ []) ∷ []

-- The draws 0, 1, 2 and so on, which give every index again and again.
abbrev counting : ℕ → ℕ
counting n = n

counting-Fair : Fair counting 3
counting-Fair start r h = (r + (start + start), omega arith)

abbrev draws : Draws
draws = record { fuel = 9; source_fuel = 9; rand = counting }

has_file_exact_example :
    (has_file "a" "f" (update_file_map "a" [] fm) ≡ has_name "f" [])
    × (has_file "a" "f" (add_to_file_map "a" info_f fm) ≡ (has_file "a" "f" fm || true))
    × (has_file "a" "f" (delete_from_file_map "a" "f" fm) ≡ (has_file "a" "f" fm && false))
    × (has_file "a" "f" (clear_files "a" fm) ≡ (has_file "a" "f" fm && false))
has_file_exact_example = has_file_exact "a" "a" "f" "f" info_f [] fm

replicate_file-total_example :
    (fuel : ℕ) × (source_fuel : ℕ) × (commands : List Command) × (replicate_file fuel source_fuel
        counting nodes "f" fm
      ≡ some commands)
    × (((commands ≡ []) × (count_replicates "f" fm ≡ 3)) ⊎ Replicates "f" fm nodes commands)
unfolding count_replicates has_file lookup
replicate_file-total_example =
    replicate_file-total counting nodes "f" fm counting-Fair (tt, tt) rising refl (omega arith)

replicate_file-diverges_example :
    replicate_file 100 100 counting ("b" ∷ []) "f" (("a", info_f ∷ []) ∷ ("b", info_f ∷ []) ∷ [])
    ≡ none
unfolding count_replicates
replicate_file-diverges_example =
    replicate_file-diverges counting ("b" ∷ []) "f" (("a", info_f ∷ []) ∷ ("b", info_f ∷ []) ∷ [])
      100 100 (omega arith) (omega arith)

served_exact_example :
    has_file "b" "g" (process_service draws nodes "b" (put "g" "m" 5) fm).file_map ≡ (
      (has_file "b" "g" fm
        && not (takes nodes (put "g" "m" 5) "b" "g" && not (count_replicates "g" fm == 0)))
      || gives "b" (put "g" "m" 5) (count_replicates "g" fm == 0) "b" "g")
served_exact_example = served_exact draws nodes "b" (put "g" "m" 5) fm "b" "g"

-- The put gives the file to the node.
put_given : gives "b" (put "g" "m" 5) (count_replicates "g" fm == 0) "b" "g" ≡ true
unfolding count_replicates
put_given = refl

get_exact_example :
    let e = process_service draws nodes "b" (get "f" "p") fm in
    (e.file_map ≡ fm)
    × (e.reply ≡ get_reply (not (length (holders "f" fm) == 0)))
    × (((e.commands ≡ some [])
          × ((holders "f" fm ≡ []) ⊎ (any (λ m. has_file m "f" fm) nodes ≡ false)))
        ⊎ ((m : String) × (e.commands ≡ some (replicate m ("b" ∷ []) "f" "p" ∷ []))
            × (has_file m "f" fm ≡ true)
            × (any (λ x. str_eq x m) nodes ≡ true)))
get_exact_example = get_exact draws nodes "b" "f" "p" fm

put_total_example :
    (fuel : ℕ) × (source_fuel : ℕ) × (e : Effect) × (commands : List Command) × (process_service
        (record { fuel = fuel; source_fuel = source_fuel; rand = counting })
        nodes
        "b"
        (put "g" "m" 5)
        fm
      ≡ e)
    × (e.commands ≡ some commands)
    × (e.reply ≡ put_reply true (some "g"))
    × (has_file "b" "g" e.file_map ≡ true)
    × Restores "g" e.file_map nodes commands
unfolding count_replicates
put_total_example =
    put_total counting nodes "b" "g" "m" 5 fm counting-Fair (tt, tt) rising refl refl

abbrev two_holders : FileMap
two_holders = ("a", info_f ∷ []) ∷ ("b", info_f ∷ []) ∷ []

two_holders-room :
    (f : String)
    → any (λ m. has_file m f (clear_files "b" two_holders)) ("a" ∷ "c" ∷ []) ≡ true
    → count_replicates f (clear_files "b" two_holders) ≤ 2
unfolding count_replicates clear_files set
two_holders-room f held = ground arith

counting-Fair_two : Fair counting 2
counting-Fair_two start r h = (r + start, omega arith)

handle_node_fail_total_example :
    (each : String → Draws) × ((f : String) → (each f).rand ≡ counting)
    × (per : String → List Command) × (handle_node_fail each ("a" ∷ "c" ∷ []) "b" two_holders ≡ (
      clear_files "b" two_holders,
      some (joined per (member_files ("a" ∷ "c" ∷ []) (clear_files "b" two_holders) [])),
    ))
    × ((f : String)
        → any (λ m. has_file m f (clear_files "b" two_holders)) ("a" ∷ "c" ∷ []) ≡ true
        → Restores f (clear_files "b" two_holders) ("a" ∷ "c" ∷ []) (per f)
          × (member f (member_files ("a" ∷ "c" ∷ []) (clear_files "b" two_holders) []) ≡ true))
handle_node_fail_total_example =
    handle_node_fail_total (λ f. counting) ("a" ∷ "c" ∷ []) "b" two_holders (λ f. counting-Fair_two)
      ((refl, tt), (tt, tt)) ((refl, tt), (tt, tt)) two_holders-room

abbrev replied : String → List (String × String × ℕ)
replied node = ("g", "m", 7) ∷ []

take_over_exact_example : has_file "a" "g" (take_over (λ f. draws) replied nodes fm).0 ≡ true
take_over_exact_example = take_over_exact (λ f. draws) replied nodes "a" "g" fm
