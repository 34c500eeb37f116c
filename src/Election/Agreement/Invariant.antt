-- ===== src/Election/Agreement/Invariant.antt =====
-- The invariant of an election in the group, step by step.
use cranesps.Base.{
  ℕ, suc, ◌+◌, ◌*◌, String, ◌≡◌, refl, sym, ap, subst, ◌∙◌, Bool, true, false, some, List, [], ◌∷◌,
  ◌++◌, map, arith, length, any, All, All-snoc, All-middle, any-middle, length-middle,
  length-append, Bool-cases, inl, inr,
}
use cranesps.Base.StdMap.{get_or}
use cranesps.Base.Text.{str_eq, str_eq_iff}
use cranesps.Election.Node.{
  Candidate, ElectionMessage, new_leader, elect_confirm, Sends, Outcome, process,
}
use cranesps.Election.Wire.{Codec, WrappedMessage, receive, send, receive-send}
use cranesps.Election.Group.{Group, Step, on_request, on_reply, Run, here, later, update}

-- Whether a node is among the members, and whether its request is still on the way.
abbrev pub among : String → List String → Bool
among n = any (λ m. str_eq m n)

abbrev pub asked : String → Sends → Bool
asked n = any (λ (r : String × ElectionMessage). str_eq r.0 n)

abbrev pub Follows : String → Candidate → Type 0
Follows leader c = (c.leader_id ≡ leader) × (c.started ≡ false)

some_inj : {A : Type 0} {a b : A} → some a ≡ some b → a ≡ b
some_inj {a = a} e = ap (λ x. get_or x a) e

-- What a candidate does when it is told of a leader, and what a confirmation does.
told-lem :
    (l : String) (c : Candidate)
    → let o = process (new_leader l) c in
      (o.reply ≡ elect_confirm ∷ [])
      × (o.state.own_id ≡ c.own_id)
      × (o.state.expected_confirmation_count ≡ c.expected_confirmation_count)
      × (o.state.received_confirmation_count ≡ c.received_confirmation_count)
      × (str_eq l c.own_id ≡ true → o.state ≡ c)
      × (str_eq l c.own_id ≡ false → Follows l o.state)
unfolding process
told-lem l c = elim (Bool-cases (str_eq l c.own_id)) [
  | inl own ↦ ground (arith, own)
  | inr other ↦ ground (arith, other)
]

confirm-lem :
    (c : Candidate)
    → let o = process elect_confirm c in
      (o.state.own_id ≡ c.own_id)
      × (o.state.expected_confirmation_count ≡ c.expected_confirmation_count)
      × (o.state.received_confirmation_count ≡ c.received_confirmation_count + 1)
      × (c.expected_confirmation_count ≡ c.received_confirmation_count + 1
          → Follows c.own_id o.state)
unfolding process
confirm-lem c = ground arith

module _ {Bytes : Type 0} (codec : Codec Bytes) (leader : String) (members : List String) where
  -- The group after k steps.
  pub record Inv (k : ℕ) (g : Group Bytes) : Type 0 where
    pub ids : (n : String) → (g.nodes n).own_id ≡ n
    pub expected : (g.nodes leader).expected_confirmation_count ≡ length members
    pub counted :
        (g.nodes leader).received_confirmation_count + length g.replies + length g.requests
        ≡ length members
    pub steps : k + 2 * length g.requests + length g.replies ≡ 2 * length members
    pub asks : All (λ (r : String × ElectionMessage). r.1 ≡ new_leader leader) g.requests
    pub confirms : All (λ b. b ≡ send codec elect_confirm) g.replies
    pub leads :
        (g.nodes leader).received_confirmation_count ≡ length members
        → Follows leader (g.nodes leader)
    pub told :
        (n : String)
        → str_eq leader n ≡ false
        → among n members ≡ true
        → asked n g.requests ≡ false
        → Follows leader (g.nodes n)

  -- A request for the leader changes nothing but that it is answered.
  request-Inv :
      (k : ℕ) (g : Group Bytes) (before after : Sends) (node : String)
      → g.requests ≡ before ++ (node, new_leader leader) ∷ after
      → Inv k g
      → let o = process (new_leader leader) (g.nodes node) in
        Inv (suc k) (record {
          nodes = update node o.state g.nodes;
          requests = before ++ after;
          replies = g.replies ++ map (send codec) o.reply;
        })
  request-Inv k g before after node split inv =
      let c = g.nodes node in
      let (answer, own, expected, received, self, other) = told-lem leader c in
      let state = (process (new_leader leader) c).state in
      let fewer = ap length split ∙ length-middle before after (node, new_leader leader) in
      let more : length (g.replies ++ map (send codec) (process (new_leader leader) c).reply)
          ≡ suc (length g.replies) =
        rw answer (omega (arith, length-append g.replies (send codec elect_confirm ∷ []))) in
      let still : update node state g.nodes leader ≡ g.nodes leader =
        elim (Bool-cases (str_eq node leader)) [
          | inl same_node ↦
              let e = (str_eq_iff node leader).0 same_node in
              let mine = (str_eq_iff leader c.own_id).1 (sym e ∙ sym (inv.ids node)) in
              ground (arith, same_node, self mine, ap g.nodes e)
          | inr elsewhere ↦ ground (arith, elsewhere)
        ] in
      record {
        ids = λ n. elim (Bool-cases (str_eq node n)) [
          | inl same_node ↦
              let e = (str_eq_iff node n).0 same_node in
              ground (arith, same_node, own, inv.ids node, e)
          | inr elsewhere ↦ ground (arith, elsewhere, inv.ids n)
        ];
        expected = ap (λ (x : Candidate). x.expected_confirmation_count) still ∙ inv.expected;
        counted =
            let same = ap (λ (x : Candidate). x.received_confirmation_count) still in
            omega (arith, same, fewer, more, inv.counted);
        steps = omega (arith, fewer, more, inv.steps);
        asks = (All-middle _ before after _ (subst (All _) split inv.asks)).1;
        confirms = rw answer (All-snoc _ g.replies _ inv.confirms refl);
        leads = λ all.
            subst (Follows leader) (sym still)
              (inv.leads (sym (ap (λ (x : Candidate). x.received_confirmation_count) still) ∙ all));
        told = λ n not_leader member answered.
            let split_at =
              ap (asked n) split ∙ any-middle _ before after (node, new_leader leader) in
            elim (Bool-cases (str_eq node n)) [
              | inl same_node ↦
                  let e = (str_eq_iff node n).0 same_node in
                  let not_mine : str_eq leader c.own_id ≡ false =
                    ap (str_eq leader) (inv.ids node ∙ e) ∙ not_leader in
                  let f = other not_mine in ground (arith, same_node, f)
              | inr elsewhere ↦
                  let f =
                    inv.told n not_leader member (ground (arith, split_at, elsewhere, answered)) in
                  ground (arith, elsewhere, f)
            ];
      }

  reply-Inv :
      (k : ℕ) (g : Group Bytes) (before after : List Bytes) (buffer : Bytes)
      → g.replies ≡ before ++ buffer ∷ after
      → Inv k g
      → let o = process elect_confirm (g.nodes leader) in
        Inv (suc k) (record g { nodes = update leader o.state g.nodes; replies = before ++ after })
  reply-Inv k g before after buffer split inv =
      let c = g.nodes leader in
      let (own, expected, received, last) = confirm-lem c in
      let state = (process elect_confirm c).state in
      let fewer = ap length split ∙ length-middle before after buffer in
      let now : update leader state g.nodes leader ≡ state =
        ground (arith, str_eq_iff leader leader) in
      record {
        ids = λ n. elim (Bool-cases (str_eq leader n)) [
          | inl same_node ↦
              let e = (str_eq_iff leader n).0 same_node in
              ground (arith, same_node, own, inv.ids leader, e)
          | inr elsewhere ↦ ground (arith, elsewhere, inv.ids n)
        ];
        expected =
            ap (λ (x : Candidate). x.expected_confirmation_count) now ∙ expected ∙ inv.expected;
        counted =
            let same = ap (λ (x : Candidate). x.received_confirmation_count) now in
            omega (arith, same, received, fewer, inv.counted);
        steps = omega (arith, fewer, inv.steps);
        asks = inv.asks;
        confirms = (All-middle _ before after _ (subst (All _) split inv.confirms)).1;
        leads = λ all.
            let same = ap (λ (x : Candidate). x.received_confirmation_count) now in
            let f = last (omega (arith, same, received, inv.expected, all)) in
            subst (Follows leader) (sym now) (subst (λ l. Follows l state) (inv.ids leader) f);
        told = λ n not_leader member answered.
            let f = inv.told n not_leader member answered in ground (arith, not_leader, f);
      }

  Step-Inv :
      ((m : WrappedMessage) → codec.parse_from_array (codec.serialize_to_array m) ≡ some m)
      → (k : ℕ) (g g' : Group Bytes) → Step codec leader g g'
      → Inv k g
      → Inv (suc k) g'
  Step-Inv same k _ _ (on_request g before after node m o split run) inv =
      let new : m ≡ new_leader leader =
        (All-middle _ before after (node, m) (subst (All _) split inv.asks)).0 in
      let handled : process (new_leader leader) (g.nodes node) ≡ o = some_inj (
        sym (receive-send codec same (new_leader leader) (g.nodes node))
        ∙ ap (λ x. receive codec (send codec x) (g.nodes node)) (sym new)
        ∙ run) in
      subst
        (λ (x : Outcome). Inv (suc k) (record {
          nodes = update node x.state g.nodes;
          requests = before ++ after;
          replies = g.replies ++ map (send codec) x.reply;
        }))
        handled
        (request-Inv k g before after node (split ∙ ap (λ x. before ++ (node, x) ∷ after) new) inv)
  Step-Inv same k _ _ (on_reply g before after buffer o split run) inv =
      let confirm : buffer ≡ send codec elect_confirm =
        (All-middle _ before after buffer (subst (All _) split inv.confirms)).0 in
      let handled : process elect_confirm (g.nodes leader) ≡ o = some_inj (
        sym (receive-send codec same elect_confirm (g.nodes leader))
        ∙ ap (λ x. receive codec x (g.nodes leader)) (sym confirm)
        ∙ run) in
      subst
        (λ (x : Outcome).
          Inv (suc k)
            (record g { nodes = update leader x.state g.nodes; replies = before ++ after }))
        handled (reply-Inv k g before after buffer split inv)

  pub Run-Inv :
      ((m : WrappedMessage) → codec.parse_from_array (codec.serialize_to_array m) ≡ some m)
      → (g : Group Bytes) (k : ℕ) (g' : Group Bytes) → Inv 0 g
      → Run codec leader g k g'
      → Inv k g'
  Run-Inv same g _ _ inv here = inv
  Run-Inv same g _ _ inv (later {k = k} {h = h} {h' = h'} r step) =
      Step-Inv same k h h' step (Run-Inv same g k h inv r)
