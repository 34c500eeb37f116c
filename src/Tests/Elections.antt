-- ===== src/Tests/Elections.antt =====
-- Elections at concrete inputs: a group of three, seen by its lowest node a and by c.
use cranesps.Base.{String, ◌≡◌, refl, true, false, List, [], ◌∷◌, ◌++◌, arith}
use cranesps.Base.Text.{str_eq_iff}
use cranesps.Election.Lowest.{min_element}
use cranesps.Election.Node.{
  Candidate, init, new_leader, election_thread, after_requests, send_elected, process,
}
use cranesps.Election.Confirmations.{confirm, lowest_leads, orphan_never_leads}
use cranesps.Election.History.{message, here, next, IsSettled, Reach-IsSettled}

abbrev others : List String
others = "b" ∷ "c" ∷ []

lowest_leads_example :
    let (asked, sends) = election_thread "a" others (init "a") in
    let after = confirm 3 asked in
    (sends ≡ send_elected (init "a") ("a" ∷ others))
    × (after.leader_id ≡ "a")
    × (after.started ≡ false)
unfolding min_element
lowest_leads_example = lowest_leads "a" others (init "a") 3 refl refl

orphan_never_leads_example :
    let asked = (election_thread "a" others (init "c")).0 in
    let after = confirm 3 asked in
    (after_requests ("a" ∷ others) asked ≡ send_elected (init "c") ("a" ∷ others))
    × (after.leader_id ≡ "")
    × (after.started ≡ true)
    × (election_thread "a" others after ≡ (after, []))
unfolding min_element
orphan_never_leads_example =
    orphan_never_leads "a" others (init "c") 3 refl (λ e. ground (arith, (str_eq_iff "a" "c").1 e))
      (omega arith)

abbrev told_of_b : Candidate
told_of_b = (process (new_leader "b") (init "a")).state

Reach-IsSettled_example :
    IsSettled "a" told_of_b ((process (new_leader "b") (init "a")).events ++ [])
Reach-IsSettled_example = Reach-IsSettled (next here (message (new_leader "b") (init "a")))
