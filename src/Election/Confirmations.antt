-- ===== src/Election/Confirmations.antt =====
-- The confirmations of an election: when a node that told the others becomes the leader.
use cranesps.Base.{
  ℕ, zero, suc, ◌+◌, ◌≤◌, String, ◌≡◌, refl, ◌≢◌, ◌∙◌, sym, subst, true, false, not, List, [], ◌∷◌,
  arith, length, leb, ltb, ◌&&◌, if◌then◌else◌, inl, inr, Bool-cases,
}
use cranesps.Base.Text.{str_eq, str_eq_iff}
use cranesps.Election.Lowest.{min_element, lower_ids}
use cranesps.Election.Node.{
  Candidate, elect_confirm, send_elected, election_thread, after_requests, process,
  send_election_start,
}

-- k confirmations, one after the other.
abbrev pub confirm : ℕ → Candidate → Candidate
confirm zero c = c
confirm (suc k) c = confirm k (process elect_confirm c).state

-- The state that the first k confirmations give, in one step.
abbrev confirmed : ℕ → Candidate → Candidate
confirmed k c =
    let all =
      ltb c.received_confirmation_count c.expected_confirmation_count
      && leb c.expected_confirmation_count (c.received_confirmation_count + k) in
    record c {
      leader_id = if all then c.own_id else c.leader_id;
      previous_leader_id = if all then c.own_id else c.previous_leader_id;
      started = if all then false else c.started;
      received_confirmation_count = c.received_confirmation_count + k;
    }

confirmed-zero : (c : Candidate) → c ≡ confirmed zero c
confirmed-zero c = ground arith

confirmed-suc :
    (k : ℕ) (c : Candidate) → confirmed k (process elect_confirm c).state ≡ confirmed (suc k) c
unfolding process
confirmed-suc k c = ground (arith, str_eq_iff c.own_id c.previous_leader_id)

confirm-confirmed : (k : ℕ) (c : Candidate) → confirm k c ≡ confirmed k c
confirm-confirmed zero c = confirmed-zero c
confirm-confirmed (suc k) c =
    confirm-confirmed k (process elect_confirm c).state ∙ confirmed-suc k c

pub elects_itself :
    (first : String) (rest : List String) (c : Candidate)
    → c.started ≡ false
    → min_element first rest ≡ c.own_id
    → election_thread first rest c ≡ (
      record c {
        started = true;
        expected_confirmation_count = length (first ∷ rest);
        received_confirmation_count = 0;
      },
      send_elected c (first ∷ rest),
    )
unfolding election_thread
elects_itself first rest c idle lowest =
    rw idle (rw ((str_eq_iff (min_element first rest) c.own_id).1 lowest))

asks_lower :
    (first : String) (rest : List String) (c : Candidate)
    → c.started ≡ false
    → min_element first rest ≢ c.own_id
    → election_thread first rest c ≡ (
      record c { started = true; ok_received = false },
      send_election_start (lower_ids (first ∷ rest) c.own_id),
    )
unfolding election_thread
asks_lower first rest c idle higher = elim (Bool-cases (str_eq (min_element first rest) c.own_id)) [
  | inl same ↦ absurd (higher ((str_eq_iff (min_element first rest) c.own_id).0 same))
  | inr other ↦ rw idle (rw other)
]

-- A node that is the minimum of its membership list asks all members, itself included, and leads
-- from the confirmation of the last of them on, neither before nor otherwise; the election is over
-- at that moment.
pub lowest_leads :
    (first : String) (rest : List String) (c : Candidate) (k : ℕ)
    → c.started ≡ false
    → min_element first rest ≡ c.own_id
    → let (asked, sends) = election_thread first rest c in
      let after = confirm k asked in
      (sends ≡ send_elected c (first ∷ rest))
      × (after.leader_id ≡ (if leb (length (first ∷ rest)) k then c.own_id else c.leader_id))
      × (after.started ≡ not (leb (length (first ∷ rest)) k))
lowest_leads first rest c k idle lowest =
    rw (elects_itself first rest c idle lowest)
      (refl, rw (confirm-confirmed k) (ground arith), rw (confirm-confirmed k) (ground arith))

abbrev Orphaned : String → List String → Candidate → ℕ → Candidate → Type 0
Orphaned first rest c k asked =
    (after_requests (first ∷ rest) asked ≡ send_elected c (first ∷ rest))
    × ((confirm k asked).leader_id ≡ c.leader_id)
    × ((confirm k asked).started ≡ true)
    × (election_thread first rest (confirm k asked) ≡ (confirm k asked, []))

orphan_stuck :
    (first : String) (rest : List String) (c : Candidate) (k : ℕ)
    → c.expected_confirmation_count ≤ c.received_confirmation_count
    → Orphaned first rest c k (record c { started = true; ok_received = false })
unfolding election_thread after_requests
orphan_stuck first rest c k old =
    let asked : Candidate = record c { started = true; ok_received = false } in
    let open_still : (confirmed k asked).started ≡ true = ground arith in
    (
      refl,
      rw (confirm-confirmed k asked) (ground arith),
      rw (confirm-confirmed k asked) open_still,
      rw (confirm-confirmed k asked) (rw open_still),
    )

-- A node that is not the minimum asks the lower ones. When none of them answers it tells all
-- members that it leads, but it never counts how many confirmations to expect: if the counters
-- were never below the expected number, as at the start and after every finished election, then no
-- number of confirmations makes it the leader, its election stays open, and it starts no other.
pub orphan_never_leads :
    (first : String) (rest : List String) (c : Candidate) (k : ℕ)
    → c.started ≡ false
    → min_element first rest ≢ c.own_id
    → c.expected_confirmation_count ≤ c.received_confirmation_count
    → let members = first ∷ rest in
      let asked = (election_thread first rest c).0 in
      let after = confirm k asked in
      (after_requests members asked ≡ send_elected c members)
      × (after.leader_id ≡ c.leader_id)
      × (after.started ≡ true)
      × (election_thread first rest after ≡ (after, []))
orphan_never_leads first rest c k idle higher old =
    subst (λ asked. Orphaned first rest c k asked.0) (sym (asks_lower first rest c idle higher))
      (orphan_stuck first rest c k old)
