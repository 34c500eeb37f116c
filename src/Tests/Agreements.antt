-- ===== src/Tests/Agreements.antt =====
-- An election of a and b, after the request to b.
use cranesps.Base.{ℕ, ◌<◌, ◌≡◌, refl, ◌⊎◌, some, [], ◌∷◌, All}
use cranesps.Election.Lowest.{min_element}
use cranesps.Election.Node.{init, elect_confirm, new_leader, election_thread, process}
use cranesps.Election.Wire.{Codec, WrappedMessage, receive, send, parse, dispatch, wrap}
use cranesps.Election.Group.{Group, Step, Run, here, later, on_request, begun, update}
use cranesps.Election.Agreement.{group_agrees}
use cranesps.Election.Agreement.Invariant.{Follows}

abbrev wire : Codec WrappedMessage
wire = record { serialize_to_array = λ m. m; parse_from_array = λ m. some m }

abbrev group_start : Group WrappedMessage
group_start = begun wire "a" "b" ("a" ∷ []) init

abbrev ask_b : Group WrappedMessage
ask_b = record {
  nodes = update "b" (process (new_leader "a") (group_start.nodes "b")).state group_start.nodes;
  requests = ("a", new_leader "a") ∷ [];
  replies = send wire elect_confirm ∷ [];
}

ask_b-Run : Run wire "a" group_start 1 ask_b
unfolding election_thread process send receive parse dispatch wrap min_element
ask_b-Run =
    later here
      (on_request group_start [] (("a", new_leader "a") ∷ []) "b" (new_leader "a") _ refl refl)

group_agrees_example :
    ((◌≡◌ {A = ℕ} 1 4)
      × Follows "a" (ask_b.nodes "a")
      × All (λ n. Follows "a" (ask_b.nodes n)) ("b" ∷ "a" ∷ []))
    ⊎ ((1 < 4) × (g' : Group WrappedMessage) × Step wire "a" ask_b g')
unfolding min_element
group_agrees_example =
    group_agrees wire "a" "b" ("a" ∷ []) init 1 ask_b (λ m. refl) (λ n. refl) refl refl ask_b-Run
