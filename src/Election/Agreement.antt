-- ===== src/Election/Agreement.antt =====
-- An election in the whole group, from the requests of the lowest node to the last confirmation.
pub mod Invariant
use cranesps.Base.{
  ℕ, zero, suc, ◌+◌, ◌*◌, ◌<◌, ◌≤◌, String, ◌≡◌, refl, sym, ap, subst, ◌∙◌, ◌≢◌, Bool, true, false,
  Option, none, some, List, [], ◌∷◌, ◌++◌, map, arith, length, any, All, All-snoc, All-middle,
  any-middle, length-middle, length-append, append_nil, if◌then◌else◌, ◌||◌, Bool-cases, inl, inr,
  List-cases, ◌⊎◌,
}
use cranesps.Base.StdMap.{get_or}
use cranesps.Base.Text.{str_eq, str_eq_iff}
use cranesps.Election.Lowest.{min_element}
use cranesps.Election.Node.{
  Candidate, ElectionMessage, new_leader, elect_confirm, Sends, Outcome, election_thread, process,
  send_elected, set_new_leader,
}
use cranesps.Election.Confirmations.{elects_itself}
use cranesps.Election.Wire.{Codec, WrappedMessage, receive, send, receive-send}
use cranesps.Election.Group.{Group, Step, on_request, on_reply, Run, here, later, update, begun}
use cranesps.Election.Agreement.Invariant.{among, asked, Follows, Inv, Run-Inv}

length-send_elected :
    (c : Candidate) (nodes : List String) → length (send_elected c nodes) ≡ length nodes
length-send_elected c [] = refl
length-send_elected c (n ∷ nodes) = ap suc (length-send_elected c nodes)

asked-send_elected :
    (n : String) (c : Candidate) (nodes : List String)
    → asked n (send_elected c nodes) ≡ among n nodes
asked-send_elected n c [] = refl
asked-send_elected n c (m ∷ nodes) = ap (λ b. str_eq m n || b) (asked-send_elected n c nodes)

All-send_elected :
    (c : Candidate) (nodes : List String)
    → All (λ (r : String × ElectionMessage). r.1 ≡ new_leader c.own_id) (send_elected c nodes)
All-send_elected c [] = tt
All-send_elected c (n ∷ nodes) = (refl, All-send_elected c nodes)

begun-Inv :
    {Bytes : Type 0} (codec : Codec Bytes) (leader first : String) (rest : List String)
    (nodes : String → Candidate)
    → ((n : String) → (nodes n).own_id ≡ n)
    → (nodes leader).started ≡ false
    → min_element first rest ≡ leader
    → Inv codec leader (first ∷ rest) 0 (begun codec leader first rest nodes)
begun-Inv codec leader first rest nodes ids idle lowest =
    let c = nodes leader in
    let start : Candidate = record c {
      started = true;
      expected_confirmation_count = length (first ∷ rest);
      received_confirmation_count = 0;
    } in
    let now : update leader start nodes leader ≡ start = ground (arith, str_eq_iff leader leader) in
    let sends = send_elected c (first ∷ rest) in
    subst
      (λ (x : Candidate × Sends).
        Inv codec leader (first ∷ rest) 0
          (record { nodes = update leader x.0 nodes; requests = x.1; replies = [] }))
      (sym (elects_itself first rest c idle (lowest ∙ sym (ids leader))))
      (record {
        ids = λ n. elim (Bool-cases (str_eq leader n)) [
          | inl same_node ↦
              let e = (str_eq_iff leader n).0 same_node in ground (arith, same_node, ids leader, e)
          | inr elsewhere ↦ ground (arith, elsewhere, ids n)
        ];
        expected = ap (λ (x : Candidate). x.expected_confirmation_count) now;
        counted =
            let none_yet = ap (λ (x : Candidate). x.received_confirmation_count) now in
            omega (arith, none_yet, length-send_elected c (first ∷ rest));
        steps = omega (arith, length-send_elected c (first ∷ rest));
        asks =
            subst (λ l. All (λ (r : String × ElectionMessage). r.1 ≡ new_leader l) sends)
              (ids leader) (All-send_elected c (first ∷ rest));
        confirms = tt;
        leads = λ all.
            let none_yet = ap (λ (x : Candidate). x.received_confirmation_count) now in
            absurd (omega (arith, none_yet, all));
        told = λ n not_leader member answered.
            absurd (
              let e = asked-send_elected n c (first ∷ rest) in ground (arith, e, member, answered));
      })

All-among :
    (P : String → Type 0) (ns : List String) → ((n : String) → among n ns ≡ true → P n) → All P ns
All-among P [] h = tt
All-among P (n ∷ ns) h =
    (h n (ground (arith, str_eq_iff n n)), All-among P ns (λ m at. h m (ground (arith, at))))

-- The node with the lowest name begins an election while it has none under way: it tells every
-- member, and the requests and the confirmations of the members arrive in any order, each of them,
-- through an encoding that is read back as it was written. After twice as many steps as there are
-- members, and neither before nor later, nothing is left to be done, and then the node and every
-- member take it for the leader and have no election under way.
pub group_agrees :
    {Bytes : Type 0} (codec : Codec Bytes) (leader first : String) (rest : List String)
    (nodes : String → Candidate) (k : ℕ) (g : Group Bytes)
    → ((m : WrappedMessage) → codec.parse_from_array (codec.serialize_to_array m) ≡ some m)
    → ((n : String) → (nodes n).own_id ≡ n)
    → (nodes leader).started ≡ false
    → min_element first rest ≡ leader
    → Run codec leader (begun codec leader first rest nodes) k g
    → ((k ≡ 2 * length (first ∷ rest))
        × Follows leader (g.nodes leader)
        × All (λ n. Follows leader (g.nodes n)) (first ∷ rest))
      ⊎ ((k < 2 * length (first ∷ rest)) × (g' : Group Bytes) × Step codec leader g g')
group_agrees codec leader first rest nodes k g same ids idle lowest run =
    let inv =
      Run-Inv codec leader (first ∷ rest) same _ k g
        (begun-Inv codec leader first rest nodes ids idle lowest) run in
    elim (List-cases g.requests) [
      | inr ((node, m), others, some_left) ↦
          let count = ap length some_left in
          inr (
            omega (arith, count, inv.steps),
            _,
            on_request g [] others node m _ some_left (receive-send codec same m (g.nodes node)),
          )
      | inl none_asked ↦ elim (List-cases g.replies) [
        | inr (b, others, some_left) ↦
            let count = ap length some_left in
            let confirm : b ≡ send codec elect_confirm = (subst (All _) some_left inv.confirms).0 in
            inr (
              omega (arith, count, inv.steps),
              _,
              on_reply g [] others b _ some_left (
                  ap (λ x. receive codec x (g.nodes leader)) confirm
                  ∙ receive-send codec same elect_confirm (g.nodes leader)),
            )
        | inl none_left ↦
            let no_asked = ap length none_asked in
            let no_left = ap length none_left in
            let leads = inv.leads (omega (arith, no_asked, no_left, inv.counted)) in
            inl (
              omega (arith, no_asked, no_left, inv.steps),
              leads,
              All-among (λ n. Follows leader (g.nodes n)) (first ∷ rest)
                  (λ n member. elim (Bool-cases (str_eq leader n)) [
                    | inl itself ↦
                        subst (λ j. Follows leader (g.nodes j)) ((str_eq_iff leader n).0 itself)
                          leads
                    | inr other ↦ inv.told n other member (ap (asked n) none_asked)
                  ]),
            )
      ]
    ]
